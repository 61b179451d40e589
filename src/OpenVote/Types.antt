-- ===== src/OpenVote/Types.antt =====
-- open-vote-network/voting/src/types.rs, and the state and messages of voting/src/lib.rs.
use Prim.Native.String.{String}
use bachelor_project.Prelude.{ℕ, Bool, true, false, [], ◌∷◌, ◌%◌}
use bachelor_project.Contract.{Amount, Timestamp}
use bachelor_project.Contract.StateMap.{StateMap}
use bachelor_project.OpenVote.Curve.{Bytes}
use bachelor_project.OpenVote.Util.{OneInTwoZkp, SchnorrProof, MerkleProof}

-- An `i32` as its 32 bits.
abbrev pub i32 : ℕ → ℕ
i32 n = n % 4294967296

abbrev pub minus_one : ℕ
minus_one = 4294967295

pub data VotingPhase : Type 0 where
  registration commit vote result abort : VotingPhase

abbrev pub is_phase : VotingPhase → VotingPhase → Bool
is_phase registration registration = true
is_phase commit commit = true
is_phase vote vote = true
is_phase result result = true
is_phase abort abort = true
is_phase _ _ = false

pub data SetupError : Type 0 where
  parse_params invalid_registration_timeout invalid_precommit_timeout invalid_commit_timeout :
      SetupError
  invalid_vote_timeout negative_deposit invalid_number_of_voters : SetupError

pub data RegisterError : Type 0 where
  parse_params unauthorized_voter contract_sender account_sender : RegisterError
  invalid_contract_sender wrong_deposit not_registration_phase phase_ended : RegisterError
  voter_not_found already_registered invalid_zkp invalid_voting_key : RegisterError

pub data CommitError : Type 0 where
  parse_params unauthorized_voter contract_sender not_commit_phase : CommitError
  phase_ended voter_not_found invalid_commit_message : CommitError

pub data VoteError : Type 0 where
  parse_params do_transfer unauthorized_voter contract_sender : VoteError
  not_vote_phase phase_ended voter_not_found invalid_zkp : VoteError
  vote_commitment_mismatch already_voted : VoteError

pub data ResultError : Type 0 where
  parse_params not_result_phase : ResultError

pub data ChangeError : Type 0 where
  parse_params contract_sender transfer_refund : ChangeError

pub record VoteConfig : Type 0 where
  pub merkle_root : Bytes
  pub merkle_leaf_count : ℕ
  pub voting_question : String
  pub deposit : Amount
  pub registration_timeout : Timestamp
  pub commit_timeout : Timestamp
  pub vote_timeout : Timestamp

pub record RegisterMessage : Type 0 where
  pub voting_key : Bytes
  pub voting_key_zkp : SchnorrProof
  pub merkle_proof : MerkleProof

pub record CommitMessage : Type 0 where
  pub reconstructed_key : Bytes
  pub commitment : Bytes

pub record VoteMessage : Type 0 where
  pub vote : Bytes
  pub vote_zkp : OneInTwoZkp

pub record Voter : Type 0 where
  pub voting_key : Bytes
  pub voting_key_zkp : SchnorrProof
  pub reconstructed_key : Bytes
  pub commitment : Bytes
  pub vote : Bytes
  pub vote_zkp : OneInTwoZkp

-- `Default::default()`
abbrev pub no_zkp : OneInTwoZkp
no_zkp = record {
  r1 = [];
  r2 = [];
  d1 = [];
  d2 = [];
  x = [];
  y = [];
  a1 = [];
  b1 = [];
  a2 = [];
  b2 = [];
}

abbrev pub default_voter : Voter
default_voter = record {
  voting_key = [];
  voting_key_zkp = record { g_w = []; r = [] };
  reconstructed_key = [];
  commitment = [];
  vote = [];
  vote_zkp = no_zkp;
}

pub record VotingState : Type 0 where
  pub config : VoteConfig
  pub voting_phase : VotingPhase
  pub voting_result : ℕ × ℕ
  pub voters : StateMap Voter

-- `v != Vec::<u8>::new()`
abbrev pub is_given : Bytes → Bool
is_given [] = false
is_given (b ∷ bs) = true
