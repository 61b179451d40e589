-- ===== src/OpenVote/Merkle.antt =====
-- The Merkle trees of rs_merkle as an interface: open-vote-network/off-chain builds a tree over the
-- hashes of the accounts and takes proofs from it. The laws are what the library documents.
use bachelor_project.Prelude.{ℕ, ◌≡◌, ◌≢◌, true, Option, some, List, [], length, get_elem?}
use bachelor_project.OpenVote.Curve.{Bytes, Curve}

pub record MerkleTrees (c : Curve) : Type 1 where
  pub Tree : Type 0
  -- `MerkleTree::from_leaves`, `leaves`, `leaves_len`, and `root`
  pub from_leaves : List Bytes → Tree
  pub leaves : Tree → Option (List Bytes)
  pub leaves_len : Tree → ℕ
  pub root : Tree → Bytes
  -- `proof` of one index, and `to_bytes` of a proof
  pub proof : Tree → ℕ → c.Proof
  pub proof_to_bytes : c.Proof → Bytes

-- A tree keeps its leaves, a proof is read back, and the proof of a leaf is verified at its index.
pub record MerkleLaws (c : Curve) (t : MerkleTrees c) : Type 0 where
  pub leaves_kept : (ls : List Bytes) → ls ≢ [] → t.leaves (t.from_leaves ls) ≡ some ls
  pub leaves_counted : (ls : List Bytes) → t.leaves_len (t.from_leaves ls) ≡ length ls
  pub proof_round : (p : c.Proof) → c.proof_from_bytes (t.proof_to_bytes p) ≡ some p
  pub proof_verifies :
      (ls : List Bytes) (i : ℕ) (leaf : Bytes)
      → get_elem? ls i ≡ some leaf
      → let tree = t.from_leaves ls in
        c.proof_verify (t.proof tree i) (t.root tree) i leaf (length ls) ≡ true
