-- ===== src/OpenVote/OffChain/Loops.antt =====
-- open-vote-network/off-chain/src/lib.rs: what the loops of `compute_reconstructed_key` compute.
use mathlib.Core.Path.{subst}
use mathlib.Core.List.{append_assoc}
use bachelor_project.Prelude.{
  ℕ, suc, ◌+◌, ◌≤◌, ◌<◌, ◌≡◌, refl, ap, ◌∙◌, some, List, [], ◌∷◌, ◌++◌, length, length-append,
  get_elem?, arith,
}
use bachelor_project.OpenVote.Curve.{Curve}
use bachelor_project.OpenVote.Crypto.{sum_votes}
use bachelor_project.OpenVote.OffChain.Keys.{sum_keys, split_round, split_keys}

pub get_elem?-middle :
    {A : Type 0} (xs : List A) (y : A) (ys : List A) → get_elem? (xs ++ y ∷ ys) (length xs) ≡ some y
get_elem?-middle [] y ys = refl
get_elem?-middle (x ∷ xs) y ys = get_elem?-middle xs y ys

module _ (c : Curve) where
  pub sum_keys_step :
      (keys : List c.Point) (left i : ℕ) (acc m : c.Point)
      → get_elem? keys i ≡ some m
      → sum_keys c keys (suc left) i acc ≡ sum_keys c keys left (i + 1) (c.add acc m)
  unfolding sum_keys
  sum_keys_step keys left i acc m found = ground arith

  pub split_keys_step :
      (keys : List c.Point) (at left j : ℕ) (points : c.Point × c.Point) (m : c.Point)
      → get_elem? keys j ≡ some m
      → split_keys c keys at (suc left) j points
        ≡ split_keys c keys at left (j + 1) (split_round c at j m points)
  unfolding split_keys
  split_keys_step keys at left j points m found = ground arith

  sum_keys_end : (keys : List c.Point) (i : ℕ) (acc : c.Point) → sum_keys c keys 0 i acc ≡ some acc
  unfolding sum_keys
  sum_keys_end keys i acc = refl

  pub split_keys_end :
      (keys : List c.Point) (at j : ℕ) (points : c.Point × c.Point)
      → split_keys c keys at 0 j points ≡ some points
  unfolding split_keys
  split_keys_end keys at j points = refl

  split_round_before :
      (at j : ℕ) (m b a : c.Point) → j < at → split_round c at j m (b, a) ≡ (c.add b m, a)
  unfolding split_round
  split_round_before at j m b a l = ground arith

  split_round_after :
      (at j : ℕ) (m b a : c.Point) → at < j → split_round c at j m (b, a) ≡ (b, c.add a m)
  unfolding split_round
  split_round_after at j m b a l = ground arith

  pub split_round_at :
      (at : ℕ) (m : c.Point) (points : c.Point × c.Point) → split_round c at at m points ≡ points
  unfolding split_round
  split_round_at at m points = ground arith

  pub length_snoc : (pre : List c.Point) (m : c.Point) → length (pre ++ m ∷ []) ≡ length pre + 1
  length_snoc pre m = length-append pre (m ∷ [])

  -- The keys from an index on are added to the sum, in order.
  pub sum_keys-sum_votes :
      (pre mid post : List c.Point) (i : ℕ) (acc : c.Point)
      → i ≡ length pre
      → sum_keys c (pre ++ (mid ++ post)) (length mid) i acc ≡ some (sum_votes c acc mid)
  unfolding sum_votes
  sum_keys-sum_votes pre [] post i acc at = sum_keys_end (pre ++ post) i acc
  sum_keys-sum_votes pre (m ∷ mid) post i acc at =
      let keys = pre ++ m ∷ (mid ++ post) in
      sum_keys_step keys (length mid) i acc m (rw at (get_elem?-middle pre m (mid ++ post)))
      ∙ subst
          (λ ks.
            sum_keys c ks (length mid) (i + 1) (c.add acc m) ≡ some (sum_votes c (c.add acc m) mid))
          (append_assoc pre (m ∷ []) (mid ++ post))
          (sum_keys-sum_votes (pre ++ m ∷ []) mid post (i + 1) (c.add acc m)
            (omega (arith, at, length_snoc pre m)))

  -- Below the own position the keys are added to the first sum.
  pub split_keys-before :
      (pre mid post : List c.Point) (at left j : ℕ) (b a : c.Point)
      → j ≡ length pre
      → j + length mid ≤ at
      → split_keys c (pre ++ (mid ++ post)) at (length mid + left) j (b, a)
        ≡ split_keys c (pre ++ (mid ++ post)) at left (j + length mid) (sum_votes c b mid, a)
  unfolding sum_votes
  split_keys-before pre [] post at left j b a here below =
      ap (λ n. split_keys c (pre ++ post) at n j (b, a)) (omega arith)
      ∙ ap (λ n. split_keys c (pre ++ post) at left n (b, a)) (omega arith)
  split_keys-before pre (m ∷ mid) post at left j b a here below =
      let keys = pre ++ m ∷ (mid ++ post) in
      let key : get_elem? keys j ≡ some m = rw here (get_elem?-middle pre m (mid ++ post)) in
      ap (λ n. split_keys c keys at n j (b, a)) (omega arith)
      ∙ split_keys_step keys at (length mid + left) j (b, a) m key
      ∙ ap (split_keys c keys at (length mid + left) (j + 1))
          (split_round_before at j m b a (omega (arith, below)))
      ∙ subst
          (λ ks.
            split_keys c ks at (length mid + left) (j + 1) (c.add b m, a)
            ≡ split_keys c ks at left (j + 1 + length mid) (sum_votes c (c.add b m) mid, a))
          (append_assoc pre (m ∷ []) (mid ++ post))
          (split_keys-before (pre ++ m ∷ []) mid post at left (j + 1) (c.add b m) a
            (omega (arith, here, length_snoc pre m)) (omega (arith, below)))
      ∙ ap (λ n. split_keys c keys at left n (sum_votes c (c.add b m) mid, a)) (omega arith)

  -- Above it they are added to the second.
  pub split_keys-after :
      (pre mid post : List c.Point) (at j : ℕ) (b a : c.Point)
      → j ≡ length pre
      → at < j
      → split_keys c (pre ++ (mid ++ post)) at (length mid) j (b, a) ≡ some (b, sum_votes c a mid)
  unfolding sum_votes
  split_keys-after pre [] post at j b a here above = split_keys_end (pre ++ post) at j (b, a)
  split_keys-after pre (m ∷ mid) post at j b a here above =
      let keys = pre ++ m ∷ (mid ++ post) in
      split_keys_step keys at (length mid) j (b, a) m
        (rw here (get_elem?-middle pre m (mid ++ post)))
      ∙ ap (split_keys c keys at (length mid) (j + 1)) (split_round_after at j m b a above)
      ∙ subst
          (λ ks.
            split_keys c ks at (length mid) (j + 1) (b, c.add a m)
            ≡ some (b, sum_votes c (c.add a m) mid))
          (append_assoc pre (m ∷ []) (mid ++ post))
          (split_keys-after (pre ++ m ∷ []) mid post at (j + 1) b (c.add a m)
            (omega (arith, here, length_snoc pre m)) (omega (arith, above)))
