-- ===== src/Tests/Quorum.antt =====
-- The commit of the two validators, against itself.
use de_mars_dmc.Prelude.Int.{pos}
use de_mars_dmc.Types.Commit.{commit_height, commit_round}
use de_mars_dmc.Types.ValidatorSet.Verify.{is_signed_precommit}
use de_mars_dmc.Types.ValidatorSet.Quorum.{Overlap, verify_commit-Overlap}
use de_mars_dmc.Tests.Stand.{scheme, codec}
use de_mars_dmc.Tests.Types.{
  chain, block, validators, counted, commit, IsPowered_example, commit_accepted,
}

verify_commit-Overlap_example :
    Overlap
      (is_signed_precommit scheme codec chain block
        (pos 5)
        (commit_round (commit_height commit).1).0)
      (is_signed_precommit scheme codec chain block
        (pos 5)
        (commit_round (commit_height commit).1).0)
      validators.validators
      commit.precommits
      commit.precommits
verify_commit-Overlap_example =
    verify_commit-Overlap scheme codec chain validators counted counted block block (pos 5) commit
      commit IsPowered_example commit_accepted commit_accepted
