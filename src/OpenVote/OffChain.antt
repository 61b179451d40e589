-- ===== src/OpenVote/OffChain.antt =====
-- open-vote-network/off-chain/src/lib.rs: what a voter computes. Each random scalar is an argument,
-- and `none` is a trap or a panic.
pub mod Keys
pub mod Algebra
pub mod Proofs
pub mod Loops
pub mod Reconstruction
pub mod Cancelling
pub mod Election
pub mod Outcome
pub mod Membership
pub mod Program
use bachelor_project.Prelude.{
  ℕ, zero, suc, ◌+◌, ◌-◌, Bool, true, false, Option, none, some, List, [], ◌∷◌, ltb, ◌==◌, length,
  get_elem?, if◌then◌else◌,
}
use bachelor_project.OpenVote.Curve.{Bytes, Curve}
use bachelor_project.OpenVote.Util.{
  ◌>>=◌, OneInTwoZkp, SchnorrProof, hash_to_scalar, new_one_in_two_zkp, new_schnorr_proof,
}

module _ (c : Curve) where
  abbrev pub subtract : c.Scalar → c.Scalar → c.Scalar
  subtract a b = c.plus a (c.minus b)

  abbrev pub subtract_point : c.Point → c.Point → c.Point
  subtract_point p q = c.add p (c.neg q)

  unfoldable pub create_votingkey_pair : c.Scalar → c.Scalar × c.Point
  create_votingkey_pair x = (x, c.scale c.generator x)

  unfoldable pub create_schnorr_zkp : c.Scalar → c.Point → c.Scalar → Option SchnorrProof
  create_schnorr_zkp w g_x x = do
    let g_w = c.scale c.generator w
    let value_to_hash = c.add (c.add c.generator g_w) g_x
    z ← hash_to_scalar c (c.point_bytes value_to_hash)
    let r = subtract w (c.times x z)
    some (new_schnorr_proof c g_w r)

  unfoldable pub create_one_in_two_zkp_yes :
      c.Scalar → c.Scalar → c.Scalar → c.Point → c.Point → c.Scalar → Option OneInTwoZkp
  create_one_in_two_zkp_yes w r1 d1 g_x g_y x = do
    let y = c.add (c.scale g_y x) c.generator
    let a1 = c.add (c.scale c.generator r1) (c.scale g_x d1)
    let b1 = c.add (c.scale g_y r1) (c.scale y d1)
    let a2 = c.scale c.generator w
    let b2 = c.scale g_y w
    let value_to_hash = c.add (c.add (c.add (c.add (c.add g_x y) a1) b1) a2) b2
    h ← hash_to_scalar c (c.point_bytes value_to_hash)
    let d2 = subtract h d1
    let r2 = subtract w (c.times x d2)
    some (new_one_in_two_zkp c r1 r2 d1 d2 g_x y a1 b1 a2 b2)

  unfoldable pub create_one_in_two_zkp_no :
      c.Scalar → c.Scalar → c.Scalar → c.Point → c.Point → c.Scalar → Option OneInTwoZkp
  create_one_in_two_zkp_no w r2 d2 g_x g_y x = do
    let y = c.scale g_y x
    let a1 = c.scale c.generator w
    let b1 = c.scale g_y w
    let a2 = c.add (c.scale c.generator r2) (c.scale g_x d2)
    let b2 = c.add (c.scale g_y r2) (c.scale (subtract_point y c.generator) d2)
    let value_to_hash = c.add (c.add (c.add (c.add (c.add g_x y) a1) b1) a2) b2
    h ← hash_to_scalar c (c.point_bytes value_to_hash)
    let d1 = subtract h d2
    let r1 = subtract w (c.times x d1)
    some (new_one_in_two_zkp c r1 r2 d1 d2 g_x y a1 b1 a2 b2)

  unfoldable pub commit_to_vote : c.Scalar → c.Point → c.Point → Bytes
  commit_to_vote x g_y g_v = c.sha256 (c.point_bytes (c.add (c.scale g_y x) g_v))
