-- ===== src/OpenVote/OffChain/Program/Passing.antt =====
-- open-vote-network/off-chain/src/main.rs against voting/src/lib.rs: the messages for one voter and the
-- checks of the contract.
use bachelor_project.Prelude.{◌≡◌, ◌≢◌, inl, inr, true, none, some}
use bachelor_project.Contract.{AccountAddress, Host}
use bachelor_project.OpenVote.Curve.{Bytes, Curve, CurveLaws}
use bachelor_project.OpenVote.Util.{
  convert_vec_to_point, extract_primitives, MerkleProof, SchnorrProof, OneInTwoZkp,
}
use bachelor_project.OpenVote.Crypto.{verify_merkle_proof, check_commitment}
use bachelor_project.OpenVote.Types.{VoteConfig, is_given}
use bachelor_project.OpenVote.OffChain.{
  create_schnorr_zkp, create_one_in_two_zkp_yes, commit_to_vote,
}
use bachelor_project.OpenVote.OffChain.Algebra.{point_read}
use bachelor_project.OpenVote.OffChain.Proofs.{
  Readable, create_schnorr_zkp-verify, create_one_in_two_zkp_yes-verify,
}
use bachelor_project.OpenVote.OffChain.Membership.{same_bytes_refl}
use bachelor_project.OpenVote.Voting.Completing.Seats.{Seat, Passes}

module _ (c : Curve) where
  -- No part of the messages is the identity or zero, which cannot be read.
  abbrev pub IsReadable : Seat → Type 0
  IsReadable s =
      (convert_vec_to_point c s.registering.voting_key ≢ none)
      × (extract_primitives c s.registering.voting_key_zkp ≢ none)
      × (convert_vec_to_point c s.committing.reconstructed_key ≢ none)
      × (convert_vec_to_point c s.voting.vote ≢ none)
      × Readable c s.voting.vote_zkp

module _ (c : Curve) (laws : CurveLaws c) (h : Host) (config : VoteConfig)
    (digest : (bytes : Bytes) → is_given (c.sha256 bytes) ≡ true) where
  point_is :
      (p : c.Point)
      → convert_vec_to_point c (c.point_bytes p) ≢ none
      → convert_vec_to_point c (c.point_bytes p) ≡ some p
  unfolding convert_vec_to_point
  point_is p readable = elim (point_read c laws p) [
    | inl unread ↦ absurd (readable unread)
    | inr read ↦ read
  ]

  -- The messages that the program makes for one voter, who says yes.
  abbrev pub seat :
      AccountAddress → c.Scalar → SchnorrProof → MerkleProof → c.Point → OneInTwoZkp → Seat
  seat a x schnorr proof g_y zkp = record {
    voter = a;
    registering = record {
      voting_key = c.point_bytes (c.scale c.generator x);
      voting_key_zkp = schnorr;
      merkle_proof = proof;
    };
    committing = record {
      reconstructed_key = c.point_bytes g_y;
      commitment = commit_to_vote c x g_y c.generator;
    };
    voting = record { vote = c.point_bytes (c.add (c.scale g_y x) c.generator); vote_zkp = zkp };
  }

  pub seat-Passes :
      (a : AccountAddress) (x w v r1 d1 : c.Scalar) (g_y : c.Point) (schnorr : SchnorrProof)
      (proof : MerkleProof) (zkp : OneInTwoZkp)
      → h.is_account a ≡ true
      → verify_merkle_proof c config.merkle_root config.merkle_leaf_count proof a ≡ some true
      → create_schnorr_zkp c w (c.scale c.generator x) x ≡ some schnorr
      → create_one_in_two_zkp_yes c v r1 d1 (c.scale c.generator x) g_y x ≡ some zkp
      → IsReadable c (seat a x schnorr proof g_y zkp)
      → Passes c h config (seat a x schnorr proof g_y zkp) (c.add (c.scale g_y x) c.generator)
  unfolding commit_to_vote check_commitment
  seat-Passes a x w v r1 d1 g_y schnorr proof zkp known authorized made voted
        (key, primitives, again, vote, parts) =
      record {
        key = c.scale c.generator x;
        g_y = g_y;
        authorized = authorized;
        key_read = point_is _ key;
        key_proved = create_schnorr_zkp-verify c laws w x schnorr made primitives;
        given = digest _;
        key_reconstructed = point_is _ again;
        vote_proved = create_one_in_two_zkp_yes-verify c laws v r1 d1 x g_y zkp voted parts;
        vote_read = point_is _ vote;
        committed = same_bytes_refl (c.sha256 (c.point_bytes (c.add (c.scale g_y x) c.generator)));
        known = known;
      }
