-- ===== src/Tests/Params.antt =====
-- The default parameters, and an update to blocks of 200 MB.
use de_mars_dmc.Prelude.{◌≡◌, refl, none, some, if◌then◌else◌}
use de_mars_dmc.Prelude.Int.{pos}
use de_mars_dmc.Types.Params.{
  AbciParams, default_consensus_params, validate_params, update_params, asks_too_much,
  block_size_too_big, validate_params-update_params,
}

abbrev request : AbciParams
request = record {
  block_size = some (record { max_bytes = pos 209715200; max_txs = pos 0; max_gas = pos 1 });
  tx_size = none;
  block_gossip = some (record { block_part_size_bytes = pos 0 });
}

default-valid : validate_params default_consensus_params ≡ none
unfolding validate_params
default-valid = refl

request-refused :
    validate_params (update_params default_consensus_params (some request))
    ≡ some block_size_too_big
unfolding validate_params update_params
request-refused = refl

validate_params-update_params_example :
    validate_params (update_params default_consensus_params (some request))
    ≡ (if asks_too_much request.block_size then some block_size_too_big else none)
validate_params-update_params_example =
    validate_params-update_params default_consensus_params request default-valid
