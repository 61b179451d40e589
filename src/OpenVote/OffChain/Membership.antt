-- ===== src/OpenVote/OffChain/Membership.antt =====
-- open-vote-network/off-chain/src/lib.rs: `create_merkle_tree` and `create_merkle_proof`, against
-- the check of voting/src/crypto.rs.
use mathlib.Core.Option.{some-injective}
use mathlib.Core.Path.{ap, ◌∙◌}
use bachelor_project.Prelude.{
  ℕ, zero, suc, ◌<◌, ◌%◌, ◌≡◌, refl, true, false, Option, none, some, List, [], ◌∷◌, length,
  get_elem?, arith, inl, inr, Bool-cases,
}
use bachelor_project.Contract.{AccountAddress}
use bachelor_project.OpenVote.Curve.{Bytes, Curve}
use bachelor_project.OpenVote.Merkle.{MerkleTrees, MerkleLaws}
use bachelor_project.OpenVote.Util.{◌>>=◌, MerkleProof}
use bachelor_project.OpenVote.Types.{i32}
use bachelor_project.OpenVote.Crypto.{same_bytes, verify_merkle_proof}

module _ (c : Curve) (m : MerkleTrees c) where
  -- `merkle_sha256::hash(&to_bytes(&account))`
  abbrev pub leaf_of : AccountAddress → Bytes
  leaf_of a = c.sha256 (c.account_bytes a)

  unfoldable pub leaves_of : List AccountAddress → List Bytes
  leaves_of [] = []
  leaves_of (a ∷ accounts) = leaf_of a ∷ leaves_of accounts

  unfoldable pub create_merkle_tree : List AccountAddress → m.Tree
  create_merkle_tree leaf_values = m.from_leaves (leaves_of leaf_values)

  -- `leaves.iter().position(|&l| l == …)`
  unfoldable pub position_of : Bytes → List Bytes → Option ℕ
  position_of leaf [] = none
  position_of leaf (l ∷ leaves) = elim (same_bytes l leaf) [
    | true ↦ some 0
    | false ↦ elim (position_of leaf leaves) [ none ↦ none | some i ↦ some (suc i) ]
  ]

  unfoldable pub create_merkle_proof : AccountAddress → m.Tree → Option MerkleProof
  create_merkle_proof account merkle_tree = do
    leaves ← m.leaves merkle_tree
    index_to_prove ← position_of (leaf_of account) leaves
    leaf_to_prove ← get_elem? leaves index_to_prove
    some (record {
      proof = m.proof_to_bytes (m.proof merkle_tree index_to_prove);
      leaf = leaf_to_prove;
      index = i32 index_to_prove;
    })

pub same_bytes_refl : (bs : Bytes) → same_bytes bs bs ≡ true
same_bytes_refl [] = refl
same_bytes_refl (b ∷ bs) = ground (arith, same_bytes_refl bs)

same_bytes_sound : (as' bs : Bytes) → same_bytes as' bs ≡ true → as' ≡ bs
same_bytes_sound [] [] e = refl
same_bytes_sound [] (b ∷ bs) e = cc
same_bytes_sound (a ∷ as') [] e = cc
same_bytes_sound (a ∷ as') (b ∷ bs) e = ground (arith, same_bytes_sound as' bs)

module _ (c : Curve) (m : MerkleTrees c) (laws : MerkleLaws c m) where
  -- A leaf that is there is found, and what is found is the leaf.
  position_of-found :
      (ls : List Bytes) (i : ℕ) (leaf : Bytes)
      → get_elem? ls i ≡ some leaf
      → (j : ℕ) × (position_of c m leaf ls ≡ some j)
        × (get_elem? ls j ≡ some leaf)
        × (j < length ls)
  unfolding position_of
  position_of-found [] i leaf e = cc
  position_of-found (l ∷ ls) zero leaf e =
      let same : same_bytes l leaf ≡ true = rw (some-injective l leaf e) (same_bytes_refl leaf) in
      (0, rw (same, position_of), e, omega arith)
  position_of-found (l ∷ ls) (suc i) leaf e = elim (Bool-cases (same_bytes l leaf)) [
    | inl same ↦ (0, rw (same, position_of), ap some (same_bytes_sound l leaf same), omega arith)
    | inr apart ↦
        let (j, found, there, within) = position_of-found ls i leaf e in
        (suc j, rw (apart, found, position_of), there, omega (arith, within))
  ]

  get_elem?-leaves_of :
      (accounts : List AccountAddress) (i : ℕ) {a : AccountAddress}
      → get_elem? accounts i ≡ some a
      → get_elem? (leaves_of c m accounts) i ≡ some (leaf_of c m a)
  unfolding leaves_of
  get_elem?-leaves_of [] i e = cc
  get_elem?-leaves_of (b ∷ accounts) zero e = cc
  get_elem?-leaves_of (b ∷ accounts) (suc i) e = get_elem?-leaves_of accounts i e

  length-leaves_of :
      (accounts : List AccountAddress) → length (leaves_of c m accounts) ≡ length accounts
  unfolding leaves_of
  length-leaves_of [] = refl
  length-leaves_of (a ∷ accounts) = ap suc (length-leaves_of accounts)

  -- A tree has as many leaves as accounts.
  pub leaves_len-tree :
      (accounts : List AccountAddress)
      → length accounts < 2147483648
      → i32 (m.leaves_len (create_merkle_tree c m accounts)) ≡ length accounts
  unfolding create_merkle_tree
  leaves_len-tree accounts few =
      omega (arith, few, laws.leaves_counted (leaves_of c m accounts), length-leaves_of accounts)

  -- The proof that is created for an account of the tree is accepted by the contract for that
  -- account, where the contract was given the tree's root and number of leaves, which are fewer than
  -- 2^31; it is created for every such account.
  pub create_merkle_proof-verify :
      (accounts : List AccountAddress) (i : ℕ) (a : AccountAddress)
      → get_elem? accounts i ≡ some a
      → length accounts < 2147483648
      → let tree = create_merkle_tree c m accounts in
        (proof : MerkleProof) × (create_merkle_proof c m a tree ≡ some proof)
        × (verify_merkle_proof c (m.root tree) (i32 (m.leaves_len tree)) proof a ≡ some true)
  unfolding create_merkle_tree create_merkle_proof verify_merkle_proof
  create_merkle_proof-verify accounts i a at_i few =
      let ls = leaves_of c m accounts in
      let tree = m.from_leaves ls in
      let (j, found, there, within) =
        position_of-found ls i (leaf_of c m a) (get_elem?-leaves_of accounts i at_i) in
      let kept = laws.leaves_kept ls (λ e. omega (arith, within, ap length e)) in
      let small : j % 4294967296 ≡ j = omega (arith, within, few, length-leaves_of accounts) in
      let whole : length ls % 4294967296 ≡ length ls =
        omega (arith, few, length-leaves_of accounts) in
      let all : m.leaves_len tree % 4294967296 ≡ length ls =
        omega (arith, laws.leaves_counted ls, few, length-leaves_of accounts) in
      (
        record { proof = m.proof_to_bytes (m.proof tree j); leaf = leaf_of c m a; index = i32 j },
        rw (kept, found, there),
        rw
            (
              laws.proof_round (m.proof tree j),
              ap (λ k. k % 4294967296) small ∙ small,
              ap (λ k. k % 4294967296) all ∙ whole,
              laws.proof_verifies ls j (leaf_of c m a) there,
            )
            (ap some (same_bytes_refl (leaf_of c m a))),
      )
