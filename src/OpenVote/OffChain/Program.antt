-- ===== src/OpenVote/OffChain/Program.antt =====
-- open-vote-network/off-chain/src/main.rs: the messages of all voters of a test election. The random
-- scalars of a round are given, and there are as many rounds as are given; the source registers 40.
-- An index that counts up is the next element of its list, and `none` is a panic.
pub mod Passing
pub mod Rounds
pub mod Elected
pub mod Counted
pub mod TestElection
use bachelor_project.Prelude.{Option, none, some, List, [], ◌∷◌}
use bachelor_project.Contract.{AccountAddress}
use bachelor_project.OpenVote.Curve.{Curve}
use bachelor_project.OpenVote.Merkle.{MerkleTrees}
use bachelor_project.OpenVote.Util.{◌>>=◌}
use bachelor_project.OpenVote.Types.{i32, RegisterMessage, CommitMessage, VoteMessage, VoteConfig}
use bachelor_project.OpenVote.OffChain.{
  create_votingkey_pair, create_schnorr_zkp, create_one_in_two_zkp_yes, commit_to_vote,
}
use bachelor_project.OpenVote.OffChain.Keys.{compute_reconstructed_key}
use bachelor_project.OpenVote.OffChain.Membership.{create_merkle_tree, create_merkle_proof}

module _ (c : Curve) where
  -- The loop over the voting keys, which are all at hand for the reconstruction.
  unfoldable pub commit_rounds :
      List c.Point → List c.Scalar → List c.Point → Option (List CommitMessage × List c.Point)
  commit_rounds voting_keys scalars [] = some ([], [])
  commit_rounds voting_keys [] (k ∷ keys) = none
  commit_rounds voting_keys (x ∷ scalars) (k ∷ keys) = do
    g_y ← compute_reconstructed_key c voting_keys k
    (messages, reconstructed_keys) ← commit_rounds voting_keys scalars keys
    some (
      record {
        reconstructed_key = c.point_bytes g_y;
        commitment = commit_to_vote c x g_y c.generator;
      }
          ∷ messages,
      g_y ∷ reconstructed_keys,
    )

  abbrev pub make_commit_msg :
      List c.Scalar → List c.Point → Option (List CommitMessage × List c.Point)
  make_commit_msg scalars voting_keys = commit_rounds voting_keys scalars voting_keys

  -- The scalars of the proof are drawn in each round.
  unfoldable pub make_vote_msg :
      List (c.Scalar × c.Scalar × c.Scalar)
      → List c.Scalar
      → List c.Point
      → List c.Point
      → Option (List VoteMessage)
  make_vote_msg draws scalars [] reconstructed_keys = some []
  make_vote_msg ((w, r1, d1) ∷ draws) (x ∷ scalars) (k ∷ keys) (g_y ∷ reconstructed_keys) = do
    let vote = c.add (c.scale g_y x) c.generator
    vote_zkp ← create_one_in_two_zkp_yes c w r1 d1 k g_y x
    messages ← make_vote_msg draws scalars keys reconstructed_keys
    some (record { vote = c.point_bytes vote; vote_zkp = vote_zkp } ∷ messages)
  make_vote_msg _ _ (k ∷ keys) _ = none

module _ (c : Curve) (m : MerkleTrees c) where
  -- `make_voteconfig_json`, for the accounts that it lists: the parameter of `setup`, with the three
  -- deadlines of 2022-05-26 in milliseconds.
  abbrev pub make_voteconfig : List AccountAddress → VoteConfig
  make_voteconfig voter_accounts = record {
    merkle_root = m.root (create_merkle_tree c m voter_accounts);
    merkle_leaf_count = i32 (m.leaves_len (create_merkle_tree c m voter_accounts));
    voting_question = "Vote for x";
    deposit = 1000000;
    registration_timeout = 1653606301000;
    commit_timeout = 1653606361000;
    vote_timeout = 1653606421000;
  }

  -- The secret and the nonce of the proof, in each round.
  unfoldable pub make_register_msg :
      m.Tree
      → List AccountAddress
      → List (c.Scalar × c.Scalar)
      → Option (List RegisterMessage × List c.Scalar × List c.Point)
  make_register_msg merkle_tree accounts [] = some ([], [], [])
  make_register_msg merkle_tree [] (d ∷ draws) = none
  make_register_msg merkle_tree (a ∷ accounts) ((drawn, w) ∷ draws) = do
    let (x, g_x) = create_votingkey_pair c drawn
    schnorr ← create_schnorr_zkp c w g_x x
    merkle_proof ← create_merkle_proof c m a merkle_tree
    (messages, scalars, keys) ← make_register_msg merkle_tree accounts draws
    some (
      record {
        voting_key = c.point_bytes g_x;
        voting_key_zkp = schnorr;
        merkle_proof = merkle_proof;
      }
          ∷ messages,
      x ∷ scalars,
      g_x ∷ keys,
    )

  -- `main`, after the accounts were read.
  unfoldable pub main :
      List AccountAddress
      → List (c.Scalar × c.Scalar)
      → List (c.Scalar × c.Scalar × c.Scalar)
      → Option (List RegisterMessage × List CommitMessage × List VoteMessage)
  main voter_accounts draws vote_draws = do
    let merkle_tree = create_merkle_tree c m voter_accounts
    (registers, scalars, voting_keys) ← make_register_msg merkle_tree voter_accounts draws
    (commits, reconstructed_keys) ← make_commit_msg c scalars voting_keys
    votes ← make_vote_msg c vote_draws scalars voting_keys reconstructed_keys
    some (registers, commits, votes)
