-- ===== src/OpenVote/Curve.antt =====
-- The libraries that the Open Vote Network calls, as an interface: the curve and its scalars
-- (k256), the hash (sha2) and Merkle proofs (rs_merkle). Their laws are those of a commutative
-- group that the scalars act on.
use bachelor_project.Prelude.{ℕ, ◌≡◌, ◌≢◌, ◌↔◌, Bool, true, Option, none, some, List, []}
use bachelor_project.Contract.{AccountAddress}

abbrev pub Bytes : Type 0
Bytes = List ℕ

pub record Curve : Type 1 where
  pub Point : Type 0
  pub Scalar : Type 0
  -- `ProjectivePoint`
  pub identity : Point
  pub generator : Point
  pub add : Point → Point → Point
  pub neg : Point → Point
  pub scale : Point → Scalar → Point
  pub same_point : Point → Point → Bool
  -- `Scalar`
  pub zero_scalar : Scalar
  pub one_scalar : Scalar
  pub plus : Scalar → Scalar → Scalar
  pub minus : Scalar → Scalar
  pub times : Scalar → Scalar → Scalar
  pub same_scalar : Scalar → Scalar → Bool
  -- `to_bytes`, and `PublicKey::from_sec1_bytes` and `SecretKey::from_be_bytes`, which may fail
  pub point_bytes : Point → Bytes
  pub scalar_bytes : Scalar → Bytes
  pub from_sec1_bytes : Bytes → Option Point
  pub from_be_bytes : Bytes → Option Scalar
  -- `Sha256::digest`
  pub sha256 : Bytes → Bytes
  -- `MerkleProof::from_bytes`, `verify` at one leaf, and `to_bytes` of an account
  pub Proof : Type 0
  pub proof_from_bytes : Bytes → Option Proof
  pub proof_verify : Proof → Bytes → ℕ → Bytes → ℕ → Bool
  pub account_bytes : AccountAddress → Bytes

-- The laws of the points and scalars.
pub record CurveLaws (c : Curve) : Type 0 where
  pub add_comm : (p q : c.Point) → c.add p q ≡ c.add q p
  pub add_assoc : (p q r : c.Point) → c.add (c.add p q) r ≡ c.add p (c.add q r)
  pub add-identity : (p : c.Point) → c.add p c.identity ≡ p
  pub add-neg : (p : c.Point) → c.add p (c.neg p) ≡ c.identity
  pub plus_comm : (a b : c.Scalar) → c.plus a b ≡ c.plus b a
  pub plus_assoc : (a b d : c.Scalar) → c.plus (c.plus a b) d ≡ c.plus a (c.plus b d)
  pub plus-zero : (a : c.Scalar) → c.plus a c.zero_scalar ≡ a
  pub plus-minus : (a : c.Scalar) → c.plus a (c.minus a) ≡ c.zero_scalar
  pub times_comm : (a b : c.Scalar) → c.times a b ≡ c.times b a
  pub scale-plus :
      (p : c.Point) (a b : c.Scalar) → c.scale p (c.plus a b) ≡ c.add (c.scale p a) (c.scale p b)
  pub scale-add :
      (p q : c.Point) (a : c.Scalar) → c.scale (c.add p q) a ≡ c.add (c.scale p a) (c.scale q a)
  pub scale-times :
      (p : c.Point) (a b : c.Scalar) → c.scale p (c.times a b) ≡ c.scale (c.scale p a) b
  pub scale-one : (p : c.Point) → c.scale p c.one_scalar ≡ p
  pub same_point_iff : (p q : c.Point) → (c.same_point p q ≡ true) ↔ (p ≡ q)
  pub same_scalar_iff : (a b : c.Scalar) → (c.same_scalar a b ≡ true) ↔ (a ≡ b)
  -- What is written is read back, but the identity and zero are refused, and no bytes are a point.
  pub point_round : (p : c.Point) → p ≢ c.identity → c.from_sec1_bytes (c.point_bytes p) ≡ some p
  pub scalar_round :
      (a : c.Scalar) → a ≢ c.zero_scalar → c.from_be_bytes (c.scalar_bytes a) ≡ some a
  pub identity_refused : c.from_sec1_bytes (c.point_bytes c.identity) ≡ none
  pub zero_refused : c.from_be_bytes (c.scalar_bytes c.zero_scalar) ≡ none
  pub no_bytes : c.from_sec1_bytes [] ≡ none
