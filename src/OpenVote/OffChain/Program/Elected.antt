-- ===== src/OpenVote/OffChain/Program/Elected.antt =====
-- open-vote-network/off-chain/src/main.rs with voting/src/lib.rs: the test election that the program
-- makes messages for.
use bachelor_project.Prelude.{◌≡◌, refl, ap, Bool, true, some, List, [], ◌∷◌, length, arith}
use bachelor_project.Contract.{AccountAddress, Host}
use bachelor_project.OpenVote.Curve.{Bytes, Curve, CurveLaws}
use bachelor_project.OpenVote.Merkle.{MerkleTrees}
use bachelor_project.OpenVote.Util.{MerkleProof}
use bachelor_project.OpenVote.Crypto.{verify_merkle_proof}
use bachelor_project.OpenVote.Types.{
  RegisterMessage, CommitMessage, VoteMessage, VoteConfig, is_given,
}
use bachelor_project.OpenVote.Voting.Completing.Seats.{Seat, AllPass, none_left, one_more}
use bachelor_project.OpenVote.OffChain.Election.{voting_keys, cast_all}
use bachelor_project.OpenVote.OffChain.Outcome.{yes_or_no}
use bachelor_project.OpenVote.OffChain.Membership.{create_merkle_proof}
use bachelor_project.OpenVote.OffChain.Program.Passing.{IsReadable, seat-Passes}
use bachelor_project.OpenVote.OffChain.Program.Rounds

abbrev pub seats_of :
    List AccountAddress → List RegisterMessage → List CommitMessage → List VoteMessage → List Seat
seats_of (a ∷ accounts) (r ∷ registers) (c ∷ commits) (v ∷ votes) =
    record { voter = a; registering = r; committing = c; voting = v }
    ∷ seats_of accounts registers commits votes
seats_of _ _ _ _ = []

module _ (c : Curve) where
  abbrev pub AllReadable : List Seat → Type 0
  AllReadable [] = Unit {0}
  AllReadable (s ∷ seats) = IsReadable c s × AllReadable seats

  -- Every voter says yes.
  abbrev pub all_yes : List c.Scalar → List (c.Scalar × Bool)
  all_yes [] = []
  all_yes (x ∷ scalars) = (x, true) ∷ all_yes scalars

module _ (c : Curve) (m : MerkleTrees c) (h : Host) (config : VoteConfig) (tree : m.Tree) where
  -- The accounts exist and their proofs are accepted.
  abbrev pub AllListed : List AccountAddress → Type 0
  AllListed [] = Unit {0}
  AllListed (a ∷ accounts) =
      (h.is_account a ≡ true)
      × ((proof : MerkleProof)
          → create_merkle_proof c m a tree ≡ some proof
          → verify_merkle_proof c config.merkle_root config.merkle_leaf_count proof a ≡ some true)
      × AllListed accounts

module _ (c : Curve) (laws : CurveLaws c) (m : MerkleTrees c) (h : Host) (config : VoteConfig)
    (digest : (bytes : Bytes) → is_given (c.sha256 bytes) ≡ true) (tree : m.Tree) where
  pub all_pass :
      (accounts : List AccountAddress) (draws : List (c.Scalar × c.Scalar)) (all : List c.Point)
      {registers : List RegisterMessage} {scalars : List c.Scalar} {keys : List c.Point}
      {commits : List CommitMessage} {again : List c.Point}
      {vote_draws : List (c.Scalar × c.Scalar × c.Scalar)} {votes : List VoteMessage}
      → Rounds.Registers c m tree accounts draws registers scalars keys
      → Rounds.Commits c all scalars keys commits again
      → Rounds.Votes c vote_draws scalars keys again votes
      → AllListed c m h config tree accounts
      → AllReadable c (seats_of accounts registers commits votes)
      → length draws ≡ length accounts
      → (points : List c.Point) × AllPass c h config
          (seats_of accounts registers commits votes)
          points
        × (cast_all c all (yes_or_no c (all_yes c scalars)) ≡ some points)
        × (voting_keys c (yes_or_no c (all_yes c scalars)) ≡ keys)
        × (length (seats_of accounts registers commits votes) ≡ length accounts)
        × (length keys ≡ length accounts)
  unfolding cast_all voting_keys
  all_pass [] _ all Rounds.Registers.no_round Rounds.Commits.no_round Rounds.Votes.no_round listed
        readable same =
      ([], none_left, refl, refl, refl, refl)
  all_pass (a ∷ accounts) _ all Rounds.Registers.no_round Rounds.Commits.no_round
        Rounds.Votes.no_round listed readable same =
      absurd (omega (arith, same))
  all_pass (a ∷ accounts) ((x, w) ∷ draws) all
        (Rounds.Registers.next_round schnorr proof made proved rs)
        (Rounds.Commits.next_round g_y found cs)
        (Rounds.Votes.next_round {w = v} {r1 = r1} {d1 = d1} zkp voted vs)
        (known, authorized, listed) (read, readable) same =
      let (points, pass, cast, own, seated, keyed) =
        all_pass accounts draws all rs cs vs listed readable (omega (arith, same)) in
      (
        c.add (c.scale g_y x) c.generator ∷ points,
        one_more
            (seat-Passes c laws h config digest a x w v r1 d1 g_y schnorr proof zkp known
              (authorized proof proved) made voted read)
            pass,
        rw (found, cast) refl,
        ap (λ t. c.scale c.generator x ∷ t) own,
        omega (arith, seated),
        omega (arith, keyed),
      )
