-- ===== src/OpenVote/Voting/Soundness.antt =====
-- open-vote-network/voting/src/lib.rs: what is known of every voter in every phase.
use mathlib.Core.Path.{subst}
use mathlib.Core.Option.{some-injective}
use bachelor_project.Prelude.{
  ◌≡◌, refl, inl, inr, Bool, true, false, some, [], ◌∷◌, arith, ◌==◌, Bool-cases,
}
use bachelor_project.Contract.{AccountAddress}
use bachelor_project.Contract.StateMap.{StateMap, lookup, insert}
use bachelor_project.OpenVote.Curve.{Curve}
use bachelor_project.OpenVote.Util.{convert_vec_to_point}
use bachelor_project.OpenVote.Crypto.{verify_schnorr_zkp, verify_one_in_two_zkp, check_commitment}
use bachelor_project.OpenVote.Types.{
  VotingPhase, registration, commit, vote, result, abort, Voter, is_given,
}
use bachelor_project.OpenVote.Voting.{all_voters, has_committed, has_voted}
use bachelor_project.OpenVote.Voting.Changing.{next_phase}

-- Each voter in a map.
abbrev pub EachVoter : (Voter → Type 0) → StateMap Voter → Type 0
EachVoter P [] = Unit {0}
EachVoter P ((a, v) ∷ voters) = P v × EachVoter P voters

pub EachVoter-insert :
    (P : Voter → Type 0) (a : AccountAddress) (v : Voter) (voters : StateMap Voter)
    → P v
    → EachVoter P voters
    → EachVoter P (insert a v voters)
EachVoter-insert P a v [] p ps = (p, tt)
EachVoter-insert P a v (e ∷ voters) p ps = ground (arith, EachVoter-insert P a v voters p ps.1)

pub EachVoter-lookup :
    (P : Voter → Type 0) (a : AccountAddress) {v : Voter} (voters : StateMap Voter)
    → EachVoter P voters
    → lookup a voters ≡ some v
    → P v
EachVoter-lookup P a [] ps e = ground arith
EachVoter-lookup P a {v} ((b, u) ∷ voters) ps found = elim (Bool-cases (b == a)) [
  | inl here ↦ subst P (some-injective u v (rw (here, lookup) at found)) ps.0
  | inr there ↦ EachVoter-lookup P a voters ps.1 (rw (there, lookup) at found)
]

pub EachVoter-map :
    {P Q : Voter → Type 0} (test : Voter → Bool)
    → ((v : Voter) → test v ≡ true → P v → Q v)
    → (voters : StateMap Voter) → all_voters test voters ≡ true
    → EachVoter P voters
    → EachVoter Q voters
EachVoter-map test f [] all ps = tt
EachVoter-map test f ((a, v) ∷ voters) all ps =
    (f v (ground arith) ps.0, EachVoter-map test f voters (ground arith) ps.1)

-- Of the phases in which everybody has committed.
abbrev pub is_past_commit : VotingPhase → Bool
is_past_commit registration = false
is_past_commit commit = false
is_past_commit vote = true
is_past_commit result = true
is_past_commit abort = false

-- Of the phases in which nobody has voted yet.
abbrev pub is_before_vote : VotingPhase → Bool
is_before_vote registration = true
is_before_vote commit = true
is_before_vote vote = false
is_before_vote result = false
is_before_vote abort = false

abbrev pub is_result : VotingPhase → Bool
is_result result = true
is_result _ = false

module _ (c : Curve) where
  -- The vote is a point that the voter committed to, kept with a one-in-two proof that is valid
  -- under the voter's reconstructed key.
  pub record Checked (v : Voter) : Type 0 where
    pub point : c.Point
    pub g_y : c.Point
    pub vote_read : convert_vec_to_point c v.vote ≡ some point
    pub key_read : convert_vec_to_point c v.reconstructed_key ≡ some g_y
    pub proved : verify_one_in_two_zkp c v.vote_zkp g_y ≡ some true
    pub committed : check_commitment c point v.commitment ≡ true

  pub record Sound (p : VotingPhase) (v : Voter) : Type 0 where
    pub key : c.Point
    pub key_read : convert_vec_to_point c v.voting_key ≡ some key
    pub key_proved : verify_schnorr_zkp c key v.voting_key_zkp ≡ some true
    pub has_commitment : is_past_commit p ≡ true → has_committed v ≡ true
    pub unvoted : is_before_vote p ≡ true → is_given v.vote ≡ false
    pub checked : is_given v.vote ≡ true → Checked v
    pub counted : is_result p ≡ true → is_given v.vote ≡ true

  -- What each phase asks of all voters before the next one follows.
  abbrev pub asks : VotingPhase → Voter → Bool
  asks registration v = true
  asks commit v = has_committed v
  asks vote v = has_voted v
  asks result v = true
  asks abort v = true

  next_committed :
      (p : VotingPhase) (v : Voter)
      → asks p v ≡ true
      → (is_past_commit p ≡ true → has_committed v ≡ true)
      → is_past_commit (next_phase p) ≡ true
      → has_committed v ≡ true
  next_committed registration v met before e = ground arith
  next_committed commit v met before e = met
  next_committed vote v met before e = before refl
  next_committed result v met before e = before refl
  next_committed abort v met before e = ground arith

  next_unvoted : (p : VotingPhase) → is_before_vote (next_phase p) ≡ true → is_before_vote p ≡ true
  next_unvoted registration e = refl
  next_unvoted commit e = refl
  next_unvoted vote e = e
  next_unvoted result e = e
  next_unvoted abort e = e

  next_counted :
      (p : VotingPhase) (v : Voter)
      → asks p v ≡ true
      → (is_result p ≡ true → is_given v.vote ≡ true)
      → is_result (next_phase p) ≡ true
      → is_given v.vote ≡ true
  next_counted registration v met before e = ground arith
  next_counted commit v met before e = ground arith
  next_counted vote v met before e = met
  next_counted result v met before e = before refl
  next_counted abort v met before e = ground arith

  pub advance-Sound :
      (p : VotingPhase) (v : Voter) → asks p v ≡ true → Sound p v → Sound (next_phase p) v
  advance-Sound p v met s = record {
    key = s.key;
    key_read = s.key_read;
    key_proved = s.key_proved;
    has_commitment = next_committed p v met s.has_commitment;
    unvoted = λ e. s.unvoted (next_unvoted p e);
    checked = s.checked;
    counted = next_counted p v met s.counted;
  }

  pub abort-Sound : (p : VotingPhase) (v : Voter) → Sound p v → Sound abort v
  abort-Sound p v s = record {
    key = s.key;
    key_read = s.key_read;
    key_proved = s.key_proved;
    has_commitment = λ e. ground arith;
    unvoted = λ e. ground arith;
    checked = s.checked;
    counted = λ e. ground arith;
  }
