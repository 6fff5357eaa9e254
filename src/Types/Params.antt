-- ===== src/Types/Params.antt =====
-- types/params.go: the consensus parameters, their check and their update by the application.
use de_mars_dmc.Prelude.{◌≡◌, Bool, false, Option, none, some, arith, if◌then◌else◌}
use de_mars_dmc.Prelude.Int.{ℤ, pos, negsuc, leb_ℤ, ltb_ℤ}

-- 100 MB
abbrev pub max_block_size_bytes : ℤ
max_block_size_bytes = pos 104857600

pub record BlockSize : Type 0 where
  pub max_bytes : ℤ
  pub max_txs : ℤ
  pub max_gas : ℤ

pub record TxSize : Type 0 where
  pub max_bytes : ℤ
  pub max_gas : ℤ

pub record BlockGossip : Type 0 where
  pub block_part_size_bytes : ℤ

pub record EvidenceParams : Type 0 where
  pub max_age : ℤ

pub record ConsensusParams : Type 0 where
  pub block_size : BlockSize
  pub tx_size : TxSize
  pub block_gossip : BlockGossip
  pub evidence_params : EvidenceParams

-- The parameters that the application sends, each group of which may be nil.
pub record AbciParams : Type 0 where
  pub block_size : Option BlockSize
  pub tx_size : Option TxSize
  pub block_gossip : Option BlockGossip

pub data ParamsError : Type 0 where
  block_size_not_positive part_size_not_positive block_size_too_big : ParamsError

abbrev pub default_block_size : BlockSize
default_block_size = record { max_bytes = pos 22020096; max_txs = pos 10000; max_gas = negsuc 0 }

abbrev pub default_tx_size : TxSize
default_tx_size = record { max_bytes = pos 10240; max_gas = negsuc 0 }

abbrev pub default_block_gossip : BlockGossip
default_block_gossip = record { block_part_size_bytes = pos 65536 }

abbrev pub default_evidence_params : EvidenceParams
default_evidence_params = record { max_age = pos 100000 }

abbrev pub default_consensus_params : ConsensusParams
default_consensus_params = record {
  block_size = default_block_size;
  tx_size = default_tx_size;
  block_gossip = default_block_gossip;
  evidence_params = default_evidence_params;
}

-- `Validate`
unfoldable pub validate_params : ConsensusParams → Option ParamsError
validate_params params =
    if leb_ℤ params.block_size.max_bytes (pos 0)
    then some block_size_not_positive
    else if leb_ℤ params.block_gossip.block_part_size_bytes (pos 0)
    then some part_size_not_positive
    else if ltb_ℤ max_block_size_bytes params.block_size.max_bytes
    then some block_size_too_big
    else none

-- A value that is not positive changes nothing.
abbrev pub if_positive : ℤ → ℤ → ℤ
if_positive new old = if ltb_ℤ (pos 0) new then new else old

abbrev pub update_block_size : BlockSize → Option BlockSize → BlockSize
update_block_size res none = res
update_block_size res (some size) = record {
  max_bytes = if_positive size.max_bytes res.max_bytes;
  max_txs = if_positive size.max_txs res.max_txs;
  max_gas = if_positive size.max_gas res.max_gas;
}

abbrev pub update_tx_size : TxSize → Option TxSize → TxSize
update_tx_size res none = res
update_tx_size res (some size) = record {
  max_bytes = if_positive size.max_bytes res.max_bytes;
  max_gas = if_positive size.max_gas res.max_gas;
}

abbrev pub update_block_gossip : BlockGossip → Option BlockGossip → BlockGossip
update_block_gossip res none = res
update_block_gossip res (some gossip) = record {
  block_part_size_bytes = if_positive gossip.block_part_size_bytes res.block_part_size_bytes;
}

-- `Update`
unfoldable pub update_params : ConsensusParams → Option AbciParams → ConsensusParams
update_params params none = params
update_params params (some params2) = record params {
  block_size = update_block_size params.block_size params2.block_size;
  tx_size = update_tx_size params.tx_size params2.tx_size;
  block_gossip = update_block_gossip params.block_gossip params2.block_gossip;
}

-- The application asks for more than the largest block size.
abbrev pub asks_too_much : Option BlockSize → Bool
asks_too_much none = false
asks_too_much (some size) = ltb_ℤ max_block_size_bytes size.max_bytes

-- The checks of valid parameters, once a size of the blocks and one of the parts are updated.
update_block-checks :
    (params : ConsensusParams) (size : Option BlockSize) (gossip : Option BlockGossip) (tx : TxSize)
    → validate_params params ≡ none
    → validate_params (record params {
      block_size = update_block_size params.block_size size;
      tx_size = tx;
      block_gossip = update_block_gossip params.block_gossip gossip;
    })
      ≡ (if asks_too_much size then some block_size_too_big else none)
unfolding validate_params
update_block-checks params none none tx h = h
update_block-checks params none (some gossip) tx h = ground arith
update_block-checks params (some size) none tx h = ground arith
update_block-checks params (some size) (some gossip) tx h = ground arith

-- Valid parameters that the application updates are refused, for a block size that is too big, when
-- it asks for more than the largest block size, and are valid in every other case.
pub validate_params-update_params :
    (params : ConsensusParams) (params2 : AbciParams)
    → validate_params params ≡ none
    → validate_params (update_params params (some params2))
      ≡ (if asks_too_much params2.block_size then some block_size_too_big else none)
unfolding update_params
validate_params-update_params params params2 h =
    update_block-checks params params2.block_size params2.block_gossip _ h
