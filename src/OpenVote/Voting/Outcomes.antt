-- ===== src/OpenVote/Voting/Outcomes.antt =====
-- open-vote-network/voting/src/lib.rs: `result`.
use mathlib.Core.Path.{subst}
use bachelor_project.Prelude.{
  ℕ, ◌+◌, ◌-◌, ◌<◌, ◌≡◌, refl, ap, some, List, [], ◌∷◌, length, arith, suc,
}
use bachelor_project.Contract.{ok, Host}
use bachelor_project.Contract.StateMap.{StateMap}
use bachelor_project.OpenVote.Curve.{Curve, CurveLaws}
use bachelor_project.OpenVote.Crypto.{sum_votes}
use bachelor_project.OpenVote.Crypto.Tally.{IsLeast, brute_force_tally_iff}
use bachelor_project.OpenVote.Types.{VotingPhase, i32, Voter, VotingState}
use bachelor_project.OpenVote.Voting.{Election, vote_points, result}
use bachelor_project.OpenVote.Voting.Soundness.{EachVoter, Sound}
use bachelor_project.OpenVote.Voting.Integrity.{IsSound}

module _ (c : Curve) where
  points_of_Sound :
      (voters : StateMap Voter)
      → EachVoter (Sound c VotingPhase.result) voters
      → (votes : List c.Point) × (vote_points c voters ≡ some votes)
        × (length votes ≡ length voters)
  unfolding vote_points
  points_of_Sound [] s = ([], refl, refl)
  points_of_Sound ((a, v) ∷ voters) s =
      let checked = s.0.checked (s.0.counted refl) in
      let (votes, read, same) = points_of_Sound voters s.1 in
      (checked.point ∷ votes, ground (arith, checked.vote_read, read), ap suc same)

  -- In the result phase of a sound election the vote of every voter is read as a point, so reading
  -- the votes never traps, and there are as many votes as voters.
  pub vote_points-IsSound :
      (s : VotingState)
      → IsSound c s
      → s.voting_phase ≡ VotingPhase.result
      → (votes : List c.Point) × (vote_points c s.voters ≡ some votes)
        × (length votes ≡ length s.voters)
  vote_points-IsSound s sound at =
      points_of_Sound s.voters (subst (λ p. EachVoter (Sound c p) s.voters) at sound)

module _ (c : Curve) (h : Host) (laws : CurveLaws c) (fuel k : ℕ) (w : Election c h) where
  -- In the result phase, where the votes are read as points and enough energy is given, the call
  -- returns and records, each in 32 bits, the least number `k` of times that the generator has to
  -- be added to reach the sum of the votes, and the number of votes less `k`.
  pub result_counts :
      {v : c.Point} {votes : List c.Point}
      → w.state.voting_phase ≡ VotingPhase.result
      → vote_points c w.state.voters ≡ some (v ∷ votes)
      → IsLeast c 0 (sum_votes c v votes) k
      → k < fuel
      → let counts : ℕ × ℕ = (i32 k, i32 (length (v ∷ votes) + 4294967296 - i32 k)) in
        result c h fuel w
        ≡ (ok counts, record w { state = record w.state { voting_result = counts } })
  unfolding result
  result_counts {v} {votes} at read least room =
      ground (arith, at, read, (brute_force_tally_iff c laws fuel k v votes).1 (least, room))
