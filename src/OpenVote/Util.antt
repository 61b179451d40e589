-- ===== src/OpenVote/Util.antt =====
-- open-vote-network/util/src/lib.rs: the proofs as bytes, and the conversions, which trap where
-- the bytes are no point or scalar: `none` stands for the trap of `unwrap_abort`.
pub use bachelor_project.Prelude.Options.{◌>>=◌}
use bachelor_project.Prelude.{ℕ, Option, some}
use bachelor_project.OpenVote.Curve.{Bytes, Curve}

pub record OneInTwoZkp : Type 0 where
  pub r1 : Bytes
  pub r2 : Bytes
  pub d1 : Bytes
  pub d2 : Bytes
  pub x : Bytes
  pub y : Bytes
  pub a1 : Bytes
  pub b1 : Bytes
  pub a2 : Bytes
  pub b2 : Bytes

pub record SchnorrProof : Type 0 where
  pub g_w : Bytes
  pub r : Bytes

pub record MerkleProof : Type 0 where
  pub proof : Bytes
  pub leaf : Bytes
  pub index : ℕ

module _ (c : Curve) where
  unfoldable pub convert_vec_to_scalar : Bytes → Option c.Scalar
  convert_vec_to_scalar vec = c.from_be_bytes vec

  unfoldable pub convert_vec_to_point : Bytes → Option c.Point
  convert_vec_to_point vec = c.from_sec1_bytes vec

  unfoldable pub hash_to_scalar : Bytes → Option c.Scalar
  hash_to_scalar bytes = convert_vec_to_scalar (c.sha256 bytes)

  -- `OneInTwoZKP::new`
  unfoldable pub new_one_in_two_zkp :
      c.Scalar
      → c.Scalar
      → c.Scalar
      → c.Scalar
      → c.Point
      → c.Point
      → c.Point
      → c.Point
      → c.Point
      → c.Point
      → OneInTwoZkp
  new_one_in_two_zkp r1 r2 d1 d2 x y a1 b1 a2 b2 = record {
    r1 = c.scalar_bytes r1;
    r2 = c.scalar_bytes r2;
    d1 = c.scalar_bytes d1;
    d2 = c.scalar_bytes d2;
    x = c.point_bytes x;
    y = c.point_bytes y;
    a1 = c.point_bytes a1;
    b1 = c.point_bytes b1;
    a2 = c.point_bytes a2;
    b2 = c.point_bytes b2;
  }

  unfoldable pub extract_scalars : OneInTwoZkp → Option (c.Scalar × c.Scalar × c.Scalar × c.Scalar)
  extract_scalars zkp = do
    r1 ← convert_vec_to_scalar zkp.r1
    r2 ← convert_vec_to_scalar zkp.r2
    d1 ← convert_vec_to_scalar zkp.d1
    d2 ← convert_vec_to_scalar zkp.d2
    some (r1, r2, d1, d2)

  unfoldable pub extract_points :
      OneInTwoZkp → Option (c.Point × c.Point × c.Point × c.Point × c.Point × c.Point)
  extract_points zkp = do
    x ← convert_vec_to_point zkp.x
    y ← convert_vec_to_point zkp.y
    a1 ← convert_vec_to_point zkp.a1
    b1 ← convert_vec_to_point zkp.b1
    a2 ← convert_vec_to_point zkp.a2
    b2 ← convert_vec_to_point zkp.b2
    some (x, y, a1, b1, a2, b2)

  -- `SchnorrProof::new`
  unfoldable pub new_schnorr_proof : c.Point → c.Scalar → SchnorrProof
  new_schnorr_proof g_w r = record { g_w = c.point_bytes g_w; r = c.scalar_bytes r }

  unfoldable pub extract_primitives : SchnorrProof → Option (c.Point × c.Scalar)
  extract_primitives zkp = do
    g_w ← convert_vec_to_point zkp.g_w
    r ← convert_vec_to_scalar zkp.r
    some (g_w, r)
