-- ===== src/OpenVote/OffChain/Reconstruction.antt =====
-- open-vote-network/off-chain/src/lib.rs: the key that `compute_reconstructed_key` computes.
use mathlib.Core.Path.{subst}
use mathlib.Core.List.{append_assoc}
use bachelor_project.Prelude.{
  ℕ, suc, ◌+◌, ◌-◌, ◌≤◌, ◌≡◌, refl, sym, ap, ◌∙◌, ◌⊎◌, inl, inr, some, List, [], ◌∷◌, ◌++◌, length,
  length-append, get_elem?, arith, if◌then◌else◌, ◌==◌,
}
use bachelor_project.OpenVote.Curve.{Curve, CurveLaws}
use bachelor_project.OpenVote.Crypto.{sum_votes}
use bachelor_project.OpenVote.OffChain.{subtract_point}
use bachelor_project.OpenVote.OffChain.Keys.{
  position, sum_keys, split_keys, compute_reconstructed_key,
}
use bachelor_project.OpenVote.OffChain.Loops.{
  get_elem?-middle, sum_keys-sum_votes, split_keys_step, split_keys_end, split_round_at,
  split_keys-before, split_keys-after,
}

-- The last of a list apart.
last_cases :
    {A : Type 0} (xs : List A) → (xs ≡ []) ⊎ ((ys : List A) × (y : A) × (xs ≡ ys ++ y ∷ []))
last_cases [] = inl refl
last_cases (x ∷ xs) = elim (last_cases xs) [
  | inl none_left ↦ inr ([], x, ap (λ t. x ∷ t) none_left)
  | inr (ys, y, e) ↦ inr (x ∷ ys, y, ap (λ t. x ∷ t) e)
]

-- The sum of points, in any order the same.
unfoldable pub total : (c : Curve) → List c.Point → c.Point
total c [] = c.identity
total c (k ∷ keys) = c.add k (total c keys)

module _ (c : Curve) (laws : CurveLaws c) where
  pub sum_votes-total :
      (acc : c.Point) (xs : List c.Point) → sum_votes c acc xs ≡ c.add acc (total c xs)
  unfolding sum_votes total
  sum_votes-total acc [] = sym (laws.add-identity acc)
  sum_votes-total acc (x ∷ xs) =
      sum_votes-total (c.add acc x) xs ∙ laws.add_assoc acc x (total c xs)

  total_snoc : (xs : List c.Point) (x : c.Point) → total c (xs ++ x ∷ []) ≡ c.add x (total c xs)
  unfolding total
  total_snoc [] x = refl
  total_snoc (y ∷ xs) x =
      ap (c.add y) (total_snoc xs x)
      ∙ sym (laws.add_assoc y x (total c xs))
      ∙ ap (λ p. c.add p (total c xs)) (laws.add_comm y x)
      ∙ laws.add_assoc x y (total c xs)

  identity_subtract : (p : c.Point) → subtract_point c c.identity p ≡ c.neg p
  identity_subtract p = laws.add_comm c.identity (c.neg p) ∙ laws.add-identity (c.neg p)

  subtract_identity : (p : c.Point) → subtract_point c p c.identity ≡ p
  subtract_identity p =
      ap (c.add p) (
        sym (laws.add-identity (c.neg c.identity))
        ∙ laws.add_comm (c.neg c.identity) c.identity
        ∙ laws.add-neg c.identity)
      ∙ laws.add-identity p

  run_first :
      (keys : List c.Point) (k last p : c.Point) (n : ℕ)
      → position c keys k ≡ some 0
      → length keys ≡ suc (suc n)
      → get_elem? keys (suc n) ≡ some last
      → sum_keys c keys n 1 last ≡ some p
      → compute_reconstructed_key c keys k ≡ some (c.neg p)
  unfolding compute_reconstructed_key
  run_first keys k last p n at size ends sum =
      let last_index : length keys - 1 ≡ suc n = omega (arith, size) in
      let left : length keys - 1 - 1 ≡ n = omega (arith, size) in
      ground (arith, at, last_index, left, ends, sum)

  run_split :
      (keys : List c.Point) (k first last b a : c.Point) (n own : ℕ)
      → position c keys k ≡ some (suc own)
      → length keys ≡ suc (suc n)
      → get_elem? keys (suc n) ≡ some last
      → get_elem? keys 0 ≡ some first
      → split_keys c keys (suc own) n 1 (first, last) ≡ some (b, a)
      → compute_reconstructed_key c keys k ≡ some (if own == n then b else subtract_point c b a)
  unfolding compute_reconstructed_key
  run_split keys k first last b a n own at size ends starts split =
      let last_index : length keys - 1 ≡ suc n = omega (arith, size) in
      let left : length keys - 1 - 1 ≡ n = omega (arith, size) in
      ground (arith, at, last_index, left, ends, starts, split)

  -- The first voter, the last one, and one between.
  first_key :
      (k last : c.Point) (mid : List c.Point)
      → let keys = k ∷ (mid ++ last ∷ []) in
        position c keys k ≡ some 0
        → compute_reconstructed_key c keys k ≡ some (c.neg (sum_votes c last mid))
  first_key k last mid at =
      let keys = k ∷ (mid ++ last ∷ []) in
      run_first keys k last (sum_votes c last mid) (length mid) at
        (omega (arith, length-append mid (last ∷ []))) (get_elem?-middle (k ∷ mid) last [])
        (sum_keys-sum_votes c (k ∷ []) mid (last ∷ []) 1 last refl)

  last_key :
      (first k : c.Point) (mid : List c.Point)
      → let keys = first ∷ (mid ++ k ∷ []) in
        position c keys k ≡ some (suc (length mid))
        → compute_reconstructed_key c keys k ≡ some (sum_votes c first mid)
  last_key first k mid at =
      let keys = first ∷ (mid ++ k ∷ []) in
      let n = length mid in
      let b = sum_votes c first mid in
      run_split keys k first k b k n n at (omega (arith, length-append mid (k ∷ [])))
        (get_elem?-middle (first ∷ mid) k []) refl
        (ap (λ left. split_keys c keys (suc n) left 1 (first, k)) (omega arith)
          ∙ split_keys-before c (first ∷ []) mid (k ∷ []) (suc n) 0 1 first k refl (omega arith)
          ∙ split_keys_end c keys (suc n) (1 + n) (b, k))
      ∙ ground arith

  middle_key :
      (first k last : c.Point) (before after : List c.Point)
      → let keys = first ∷ (before ++ k ∷ (after ++ last ∷ [])) in
        position c keys k ≡ some (suc (length before))
        → compute_reconstructed_key c keys k
          ≡ some (subtract_point c (sum_votes c first before) (sum_votes c last after))
  middle_key first k last before after at =
      let keys = first ∷ (before ++ k ∷ (after ++ last ∷ [])) in
      let own = length before in
      let n = own + suc (length after) in
      let b = sum_votes c first before in
      let size = length-append before (k ∷ (after ++ last ∷ [])) in
      let size' = length-append after (last ∷ []) in
      let prefix = length-append before (k ∷ after) in
      run_split keys k first last b (sum_votes c last after) n own at (omega (arith, size, size'))
        (subst (λ ks. get_elem? ks n ≡ some last) (append_assoc before (k ∷ after) (last ∷ []))
          (ap (get_elem? ((before ++ k ∷ after) ++ last ∷ [])) (sym prefix)
            ∙ get_elem?-middle (before ++ k ∷ after) last []))
        refl
        (split_keys-before c (first ∷ []) before (k ∷ (after ++ last ∷ [])) (suc own)
            (suc (length after)) 1 first last refl (omega arith)
          ∙ ap (λ j. split_keys c keys (suc own) (suc (length after)) j (b, last)) (omega arith)
          ∙ split_keys_step c keys (suc own) (length after) (suc own) (b, last) k
              (get_elem?-middle (first ∷ before) k (after ++ last ∷ []))
          ∙ ap (split_keys c keys (suc own) (length after) (suc own + 1))
              (split_round_at c (suc own) k (b, last))
          ∙ subst
              (λ ks.
                split_keys c (first ∷ ks) (suc own) (length after) (suc own + 1) (b, last)
                ≡ some (b, sum_votes c last after))
              (append_assoc before (k ∷ []) (after ++ last ∷ []))
              (split_keys-after c (first ∷ (before ++ k ∷ [])) after (last ∷ []) (suc own)
                (suc own + 1) b last (omega (arith, length-append before (k ∷ []))) (omega arith)))
      ∙ ground arith

  -- In a list of two keys or more, the key that is reconstructed for a voting key at its first place
  -- is the sum of the keys before it less the sum of the keys after it.
  pub compute_reconstructed_key-total :
      (before after : List c.Point) (k : c.Point)
      → let keys = before ++ k ∷ after in
        position c keys k ≡ some (length before)
        → 2 ≤ length keys
        → compute_reconstructed_key c keys k
          ≡ some (subtract_point c (total c before) (total c after))
  unfolding total
  compute_reconstructed_key-total [] after k at many = elim (last_cases after) [
    | inl none_after ↦ absurd (omega (arith, many, ap length none_after))
    | inr (mid, last, e) ↦ rw e (
        first_key k last mid (rw e at at)
        ∙ ap (λ p. some p)
            (ap c.neg (sum_votes-total last mid ∙ sym (total_snoc mid last))
              ∙ sym (identity_subtract (total c (mid ++ last ∷ [])))))
  ]
  compute_reconstructed_key-total (first ∷ before) after k at many = elim (last_cases after) [
    | inl none_after ↦ rw none_after (
        last_key first k before (rw none_after at at)
        ∙ ap (λ p. some p)
            (sum_votes-total first before ∙ sym (subtract_identity (total c (first ∷ before)))))
    | inr (mid, last, e) ↦ rw e (
        middle_key first k last before mid (rw e at at)
        ∙ ap (λ p. some p)
            (ap (λ p. subtract_point c p (sum_votes c last mid)) (sum_votes-total first before)
              ∙ ap (subtract_point c (total c (first ∷ before)))
                  (sum_votes-total last mid ∙ sym (total_snoc mid last))))
  ]
