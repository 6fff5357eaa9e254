-- ===== src/Consensus/HeightVoteSet/Catchup.antt =====
-- consensus/types/height_vote_set.go: how many rounds the peers can open.
use de_mars_dmc.Prelude.{
  ℕ, ◌+◌, ◌-◌, ◌*◌, ◌≤◌, ◌≡◌, refl, ap, inl, inr, Bool, true, false, Option, some, List, [], ◌∷◌,
  length, Bool-cases, if◌then◌else◌, arith,
}
use de_mars_dmc.Prelude.Bytes.{Bytes, bytes_equal, bytes_equal_eq}
use de_mars_dmc.Types.BlockId.{PartSetHeader}
use de_mars_dmc.Types.Vote.{Vote, Scheme}
use de_mars_dmc.Types.Canonical.{Codec}
use de_mars_dmc.Types.VoteSet.{lookup}
use de_mars_dmc.Consensus.HeightVoteSet.{
  HeightVoteSet, RoundError, rounds_of, catchup_rounds, add_round_vote,
}
use de_mars_dmc.Consensus.HeightVoteSet.Opened.{
  round_count, IsUnopened, IsOpened, add_round_vote-opens,
}

-- The rounds that a peer may still open.
abbrev pub room : HeightVoteSet → Bytes → ℕ
room hvs peer_id = 2 - length (catchup_rounds hvs peer_id)

module _ (scheme : Scheme) (codec : Codec) (encode : PartSetHeader → Bytes) where
  -- The room of some peers together.
  abbrev total_room : HeightVoteSet → List Bytes → ℕ
  total_room hvs [] = 0
  total_room hvs (p ∷ peers) = room hvs p + total_room hvs peers

  total_room_le :
      (hvs : HeightVoteSet) (peers : List Bytes) → total_room hvs peers ≤ 2 * length peers
  total_room_le hvs [] = omega arith
  total_room_le hvs (p ∷ peers) = let h = total_room_le hvs peers in omega arith

  unopened-total_room :
      (hvs hvs' : HeightVoteSet) (peers : List Bytes)
      → IsUnopened hvs hvs'
      → total_room hvs' peers ≡ total_room hvs peers
  unfolding catchup_rounds
  unopened-total_room hvs hvs' [] h = refl
  unopened-total_room hvs hvs' (p ∷ peers) h =
      let rest = unopened-total_room hvs hvs' peers h in
      let same = ap (λ m. length (rounds_of (lookup p m))) h.same_peers in omega arith

  abbrev pub is_listed : Bytes → List Bytes → Bool
  is_listed p [] = false
  is_listed p (q ∷ peers) = if bytes_equal q p then true else is_listed p peers

  opened_room :
      (hvs hvs' : HeightVoteSet) (peer_id p : Bytes)
      → IsOpened hvs hvs' peer_id
      → room hvs' p + (if bytes_equal p peer_id then 1 else 0) ≤ room hvs p
  unfolding catchup_rounds
  opened_room hvs hvs' peer_id p h =
      let more = h.more_peers p in
      let had = h.had_room in
      elim (Bool-cases (bytes_equal p peer_id)) [
        | inl e ↦
            let same = ap (λ q. length (catchup_rounds hvs q)) (bytes_equal_eq p peer_id e) in
            let more' = rw e at more in rw e (omega arith)
        | inr e ↦ let more' = rw e at more in rw e (omega arith)
      ]

  opened-total_room :
      (hvs hvs' : HeightVoteSet) (peer_id : Bytes) (peers : List Bytes)
      → IsOpened hvs hvs' peer_id
      → total_room hvs' peers + (if is_listed peer_id peers then 1 else 0) ≤ total_room hvs peers
  opened-total_room hvs hvs' peer_id [] h = omega arith
  opened-total_room hvs hvs' peer_id (p ∷ peers) h =
      let rest = opened-total_room hvs hvs' peer_id peers h in
      let head = opened_room hvs hvs' peer_id p h in ground arith

  -- The states that `AddVote` leads to, with votes from some peers.
  pub data Added (peers : List Bytes) (start : HeightVoteSet) : HeightVoteSet → Type 0 where
    unchanged : Added peers start start
    added :
        {hvs hvs' : HeightVoteSet} (vote : Vote) (peer_id : Bytes) (r : Bool × Option RoundError)
        → Added peers start hvs
        → is_listed peer_id peers ≡ true
        → add_round_vote scheme codec encode hvs vote peer_id ≡ some (r, hvs')
        → Added peers start hvs'

  -- A round that is opened takes the room of a peer.
  Added-room :
      (peers : List Bytes) {start hvs : HeightVoteSet}
      → Added peers start hvs
      → round_count hvs + total_room hvs peers ≤ round_count start + total_room start peers
  Added-room peers unchanged = omega arith
  Added-room peers (added {hvs = hvs} {hvs' = hvs'} vote peer_id r a l e) =
      let before = Added-room peers a in
      elim (add_round_vote-opens scheme codec encode hvs hvs' vote peer_id r e) [
        | inl h ↦
            let count = h.same_count in
            let same = unopened-total_room hvs hvs' peers h in omega arith
        | inr h ↦
            let count = h.more_count in
            let less = rw l at (opened-total_room hvs hvs' peer_id peers h) in omega arith
      ]

  -- Whatever votes some peers send, and in whatever order, the calls of `AddVote` of a height vote
  -- set open at most two rounds for each of the peers.
  pub rounds_opened :
      (peers : List Bytes) {start hvs : HeightVoteSet}
      → Added peers start hvs
      → round_count hvs ≤ round_count start + 2 * length peers
  rounds_opened peers {start = start} a =
      let h = Added-room peers a in let most = total_room_le start peers in omega arith
