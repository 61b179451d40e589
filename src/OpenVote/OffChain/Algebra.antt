-- ===== src/OpenVote/OffChain/Algebra.antt =====
-- open-vote-network/off-chain/src/lib.rs: the equations of points and scalars that the proofs rest
-- on, and that what is written is read back.
use bachelor_project.Prelude.{◌≡◌, ◌≢◌, sym, ap, ◌∙◌, ◌⊎◌, inl, inr, none, some, Bool-cases, arith}
use bachelor_project.OpenVote.Curve.{Curve, CurveLaws}
use bachelor_project.OpenVote.Util.{
  new_one_in_two_zkp, extract_scalars, extract_points, convert_vec_to_point, convert_vec_to_scalar,
  new_schnorr_proof, extract_primitives,
}
use bachelor_project.OpenVote.OffChain.{subtract, subtract_point}

module _ (c : Curve) (laws : CurveLaws c) where
  pub plus-subtract : (a w : c.Scalar) → c.plus a (subtract c w a) ≡ w
  plus-subtract a w =
      ap (c.plus a) (laws.plus_comm w (c.minus a))
      ∙ sym (laws.plus_assoc a (c.minus a) w)
      ∙ ap (λ s. c.plus s w) (laws.plus-minus a)
      ∙ laws.plus_comm c.zero_scalar w
      ∙ laws.plus-zero w

  -- What a response and a challenge add up to.
  pub add-subtract :
      (p : c.Point) (x d w : c.Scalar)
      → c.add (c.scale p (subtract c w (c.times x d))) (c.scale (c.scale p x) d) ≡ c.scale p w
  add-subtract p x d w =
      laws.add_comm (c.scale p (subtract c w (c.times x d))) (c.scale (c.scale p x) d)
      ∙ ap (λ q. c.add q (c.scale p (subtract c w (c.times x d)))) (sym (laws.scale-times p x d))
      ∙ sym (laws.scale-plus p (c.times x d) (subtract c w (c.times x d)))
      ∙ ap (c.scale p) (plus-subtract (c.times x d) w)

  pub subtract_point-add : (p q : c.Point) → subtract_point c (c.add p q) q ≡ p
  subtract_point-add p q =
      laws.add_assoc p q (c.neg q) ∙ ap (c.add p) (laws.add-neg q) ∙ laws.add-identity p

  pub point_read :
      (p : c.Point)
      → (c.from_sec1_bytes (c.point_bytes p) ≡ none)
        ⊎ (c.from_sec1_bytes (c.point_bytes p) ≡ some p)
  point_read p = elim (Bool-cases (c.same_point p c.identity)) [
    | inl same ↦ inl (rw ((laws.same_point_iff p c.identity).0 same) laws.identity_refused)
    | inr other ↦
        inr
          (laws.point_round p (λ e. ground (arith, other, (laws.same_point_iff p c.identity).1 e)))
  ]

  scalar_read :
      (a : c.Scalar)
      → (c.from_be_bytes (c.scalar_bytes a) ≡ none) ⊎ (c.from_be_bytes (c.scalar_bytes a) ≡ some a)
  scalar_read a = elim (Bool-cases (c.same_scalar a c.zero_scalar)) [
    | inl same ↦ inl (rw ((laws.same_scalar_iff a c.zero_scalar).0 same) laws.zero_refused)
    | inr other ↦ inr (
        laws.scalar_round a
          (λ e. ground (arith, other, (laws.same_scalar_iff a c.zero_scalar).1 e)))
  ]

  pub extract_scalars-new :
      (r1 r2 d1 d2 : c.Scalar) (x y a1 b1 a2 b2 : c.Point)
      → extract_scalars c (new_one_in_two_zkp c r1 r2 d1 d2 x y a1 b1 a2 b2) ≢ none
      → extract_scalars c (new_one_in_two_zkp c r1 r2 d1 d2 x y a1 b1 a2 b2) ≡ some (r1, r2, d1, d2)
  unfolding extract_scalars new_one_in_two_zkp convert_vec_to_scalar
  extract_scalars-new r1 r2 d1 d2 x y a1 b1 a2 b2 readable =
      ground (arith, readable, scalar_read r1, scalar_read r2, scalar_read d1, scalar_read d2)

  pub extract_points-new :
      (r1 r2 d1 d2 : c.Scalar) (x y a1 b1 a2 b2 : c.Point)
      → extract_points c (new_one_in_two_zkp c r1 r2 d1 d2 x y a1 b1 a2 b2) ≢ none
      → extract_points c (new_one_in_two_zkp c r1 r2 d1 d2 x y a1 b1 a2 b2)
        ≡ some (x, y, a1, b1, a2, b2)
  unfolding extract_points new_one_in_two_zkp convert_vec_to_point
  extract_points-new r1 r2 d1 d2 x y a1 b1 a2 b2 readable = ground (
    arith,
    readable,
    point_read x,
    point_read y,
    point_read a1,
    point_read b1,
    point_read a2,
    point_read b2,
  )

  pub extract_primitives-new :
      (g_w : c.Point) (r : c.Scalar)
      → extract_primitives c (new_schnorr_proof c g_w r) ≢ none
      → extract_primitives c (new_schnorr_proof c g_w r) ≡ some (g_w, r)
  unfolding extract_primitives new_schnorr_proof convert_vec_to_point convert_vec_to_scalar
  extract_primitives-new g_w r readable = ground (arith, readable, point_read g_w, scalar_read r)
