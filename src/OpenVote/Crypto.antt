-- ===== src/OpenVote/Crypto.antt =====
-- open-vote-network/voting/src/crypto.rs: the checks of the contract and the tally. `none` is a trap.
pub mod Tally
use bachelor_project.Prelude.{
  ℕ, zero, suc, ◌+◌, Bool, true, false, not, ◌&&◌, Option, none, some, List, [], ◌∷◌, ◌==◌, length,
  if◌then◌else◌,
}
use bachelor_project.Contract.{AccountAddress, usize}
use bachelor_project.OpenVote.Curve.{Bytes, Curve}
use bachelor_project.OpenVote.Util.{
  ◌>>=◌, OneInTwoZkp, SchnorrProof, MerkleProof, convert_vec_to_point, hash_to_scalar,
  extract_scalars, extract_points, extract_primitives,
}

-- `==` of byte vectors
abbrev pub same_bytes : Bytes → Bytes → Bool
same_bytes [] [] = true
same_bytes [] (b ∷ bs) = false
same_bytes (a ∷ as') [] = false
same_bytes (a ∷ as') (b ∷ bs) = a == b && same_bytes as' bs

module _ (c : Curve) where
  abbrev sub_point : c.Point → c.Point → c.Point
  sub_point p q = c.add p (c.neg q)

  unfoldable pub verify_schnorr_zkp : c.Point → SchnorrProof → Option Bool
  verify_schnorr_zkp g_x schnorr = do
    (g_w, r) ← extract_primitives c schnorr
    z ← hash_to_scalar c (c.point_bytes (c.add (c.add c.generator g_w) g_x))
    let g_r = c.scale c.generator r
    let g_x_z = c.scale g_x z
    some (c.same_point (c.add g_x_z g_r) g_w)

  unfoldable pub verify_one_in_two_zkp : OneInTwoZkp → c.Point → Option Bool
  verify_one_in_two_zkp zkp g_y = do
    (r1, r2, d1, d2) ← extract_scalars c zkp
    (x, y, a1, b1, a2, b2) ← extract_points c zkp
    h ← hash_to_scalar c (c.point_bytes (c.add (c.add (c.add (c.add (c.add x y) a1) b1) a2) b2))
    some (
        if not (c.same_scalar h (c.plus d1 d2))
        then false
        else if not (c.same_point a1 (c.add (c.scale c.generator r1) (c.scale x d1)))
        then false
        else if not (c.same_point b1 (c.add (c.scale g_y r1) (c.scale y d1)))
        then false
        else if not (c.same_point a2 (c.add (c.scale c.generator r2) (c.scale x d2)))
        then false
        else if not
            (c.same_point b2 (c.add (c.scale g_y r2) (c.scale (sub_point y c.generator) d2)))
        then false
        else true)

  unfoldable pub check_commitment : c.Point → Bytes → Bool
  check_commitment vote commitment = same_bytes (c.sha256 (c.point_bytes vote)) commitment

  -- The first vote and then the rest, in order.
  unfoldable pub sum_votes : c.Point → List c.Point → c.Point
  sum_votes tally [] = tally
  sum_votes tally (v ∷ votes) = sum_votes (c.add tally v) votes

  -- `while current_g != tally`, with fuel for the energy of the call; `none` where it runs out.
  unfoldable pub count_up : ℕ → c.Point → c.Point → ℕ → Option ℕ
  count_up zero tally current_g yes_votes = none
  count_up (suc fuel) tally current_g yes_votes =
      let rest = count_up fuel tally (c.add current_g c.generator) (suc yes_votes) in
      if c.same_point current_g tally then some yes_votes else rest

  unfoldable pub brute_force_tally : ℕ → List c.Point → Option ℕ
  brute_force_tally fuel [] = none
  brute_force_tally fuel (v ∷ votes) = count_up fuel (sum_votes v votes) c.identity 0

  unfoldable pub verify_merkle_proof : Bytes → ℕ → MerkleProof → AccountAddress → Option Bool
  verify_merkle_proof merkle_root merkle_leaf_count merkle_proof sender = do
    proof ← c.proof_from_bytes merkle_proof.proof
    some (
        if c.proof_verify proof merkle_root (usize merkle_proof.index) merkle_proof.leaf
          (usize merkle_leaf_count)
        then same_bytes (c.sha256 (c.account_bytes sender)) merkle_proof.leaf
        else false)
