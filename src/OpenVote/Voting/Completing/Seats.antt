-- ===== src/OpenVote/Voting/Completing/Seats.antt =====
-- open-vote-network/voting/src/lib.rs: the voters of an election with the messages that each sends,
-- and their entries in the state map as the phases pass.
use bachelor_project.Prelude.{
  ℕ, ◌+◌, ◌≡◌, refl, ◌∙◌, Bool, true, false, Option, none, some, List, [], ◌∷◌, length, ◌==◌, arith,
}
use bachelor_project.Contract.{AccountAddress, Host}
use bachelor_project.Contract.StateMap.{StateMap, lookup, insert, lookup-insert}
use bachelor_project.Contract.StateMap.Sums.{count, count-le, weigh}
use bachelor_project.OpenVote.Curve.{Curve, CurveLaws}
use bachelor_project.OpenVote.Util.{convert_vec_to_point}
use bachelor_project.OpenVote.Crypto.{
  verify_schnorr_zkp, verify_one_in_two_zkp, check_commitment, verify_merkle_proof,
}
use bachelor_project.OpenVote.Types.{
  RegisterMessage, CommitMessage, VoteMessage, Voter, VoteConfig, is_given,
}
use bachelor_project.OpenVote.Voting.{all_voters}
use bachelor_project.OpenVote.Voting.Completing.Accepts.{registered, with_commitment, with_vote}

-- A voter's account and messages.
pub record Seat : Type 0 where
  pub voter : AccountAddress
  pub registering : RegisterMessage
  pub committing : CommitMessage
  pub voting : VoteMessage

module _ (c : Curve) (h : Host) where
  -- The entry before each phase, and after the last.
  abbrev pub unregistered : Seat → Option Voter
  unregistered s = none

  abbrev pub entry : Seat → Voter
  entry s = registered c h s.registering

  abbrev pub committed_entry : Seat → Voter
  committed_entry s = with_commitment c h s.committing (entry s)

  abbrev pub voted_entry : Seat → Voter
  voted_entry s = with_vote c h s.voting (committed_entry s)

  -- What the contract checks of the messages holds; the vote is the point.
  pub record Passes (config : VoteConfig) (s : Seat) (point : c.Point) : Type 0 where
    pub key : c.Point
    pub g_y : c.Point
    pub authorized :
        verify_merkle_proof c config.merkle_root config.merkle_leaf_count s.registering.merkle_proof
          s.voter
        ≡ some true
    pub key_read : convert_vec_to_point c s.registering.voting_key ≡ some key
    pub key_proved : verify_schnorr_zkp c key s.registering.voting_key_zkp ≡ some true
    pub given : is_given s.committing.commitment ≡ true
    pub key_reconstructed : convert_vec_to_point c s.committing.reconstructed_key ≡ some g_y
    pub vote_proved : verify_one_in_two_zkp c s.voting.vote_zkp g_y ≡ some true
    pub vote_read : convert_vec_to_point c s.voting.vote ≡ some point
    pub committed : check_commitment c point s.committing.commitment ≡ true
    pub known : h.is_account s.voter ≡ true

  pub data AllPass (config : VoteConfig) : List Seat → List c.Point → Type 0 where
    none_left : AllPass config [] []
    one_more :
        {s : Seat} {p : c.Point} {seats : List Seat} {points : List c.Point}
        → Passes config s p
        → AllPass config seats points
        → AllPass config (s ∷ seats) (p ∷ points)

-- The entry of every voter of the list.
abbrev pub Holds : (Seat → Option Voter) → StateMap Voter → List Seat → Type 0
Holds e m [] = Unit {0}
Holds e m (s ∷ seats) = (lookup s.voter m ≡ e s) × Holds e m seats

-- No voter of the list has the account.
abbrev pub Differ : AccountAddress → List Seat → Type 0
Differ a [] = Unit {0}
Differ a (s ∷ seats) = ((a == s.voter) ≡ false) × Differ a seats

-- No two voters have the same account, and none has that of one who is done.
abbrev pub Distinct : List Seat → Type 0
Distinct [] = Unit {0}
Distinct (s ∷ seats) = Differ s.voter seats × Distinct seats

abbrev pub Apart : List Seat → List Seat → Type 0
Apart done [] = Unit {0}
Apart done (s ∷ todo) = Differ s.voter done × Apart done todo

eq_comm : (a b : ℕ) → (a == b) ≡ false → (b == a) ≡ false
eq_comm a b e = ground arith

pub Apart-none : (todo : List Seat) → Apart [] todo
Apart-none [] = tt
Apart-none (s ∷ todo) = (tt, Apart-none todo)

pub Apart-next :
    (s : Seat) (done todo : List Seat)
    → Differ s.voter todo
    → Apart done todo
    → Apart (s ∷ done) todo
Apart-next s done [] d a = tt
Apart-next s done (t ∷ todo) d a =
    ((eq_comm s.voter t.voter d.0, a.0), Apart-next s done todo d.1 a.1)

-- Another voter's entry is as it was.
pub Holds-insert :
    (e : Seat → Option Voter) (a : AccountAddress) (v : Voter) (m : StateMap Voter)
    (seats : List Seat)
    → Differ a seats
    → Holds e m seats
    → Holds e (insert a v m) seats
Holds-insert e a v m [] d hs = tt
Holds-insert e a v m (s ∷ seats) d hs =
    (lookup-insert a s.voter v m ∙ rw d.0 hs.0, Holds-insert e a v m seats d.1 hs.1)

-- All voters meet the test exactly when as many do as there are.
pub all_voters-count :
    (test : Voter → Bool) (m : StateMap Voter) → all_voters test m ≡ (count test m == length m)
unfolding weigh
all_voters-count test [] = refl
all_voters-count test ((k, v) ∷ m) = ground (arith, all_voters-count test m, count-le test m)

-- No bytes are read as a point.
pub read-given :
    (c : Curve) (laws : CurveLaws c) (bytes : List ℕ) {p : c.Point}
    → convert_vec_to_point c bytes ≡ some p
    → is_given bytes ≡ true
unfolding convert_vec_to_point
read-given c laws [] e = ground (arith, e, laws.no_bytes)
read-given c laws (b ∷ bytes) e = refl

-- Those to do, when they are done.
abbrev pub shift : List Seat → List Seat → List Seat
shift done [] = done
shift done (s ∷ todo) = shift (s ∷ done) todo

pub Holds-shift :
    (e : Seat → Option Voter) (m : StateMap Voter) (done todo : List Seat)
    → Holds e m (shift done todo)
    → Holds e m done × Holds e m todo
Holds-shift e m done [] hs = (hs, tt)
Holds-shift e m done (s ∷ todo) hs =
    let (earlier, later) = Holds-shift e m (s ∷ done) todo hs in (earlier.1, (earlier.0, later))

pub length-shift : (done todo : List Seat) → length (shift done todo) ≡ length done + length todo
length-shift done [] = omega arith
length-shift done (s ∷ todo) = omega (arith, length-shift (s ∷ done) todo)

-- What the voters of a list have deposited.
abbrev pub deposits : ℕ → List Seat → ℕ
deposits x [] = 0
deposits x (s ∷ seats) = x + deposits x seats
