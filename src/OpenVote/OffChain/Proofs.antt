-- ===== src/OpenVote/OffChain/Proofs.antt =====
-- open-vote-network/off-chain/src/lib.rs against voting/src/crypto.rs: the proofs of an honest voter
-- are accepted by the contract.
use bachelor_project.Prelude.{
  ◌≡◌, ◌≢◌, refl, sym, ap, ◌∙◌, inl, inr, true, none, some, Option-cases, arith,
}
use bachelor_project.OpenVote.Curve.{Curve, CurveLaws}
use bachelor_project.OpenVote.Util.{
  OneInTwoZkp, SchnorrProof, new_one_in_two_zkp, new_schnorr_proof, hash_to_scalar, extract_scalars,
  extract_points, extract_primitives,
}
use bachelor_project.OpenVote.Crypto.{verify_schnorr_zkp, verify_one_in_two_zkp}
use bachelor_project.OpenVote.OffChain.{
  subtract, subtract_point, create_schnorr_zkp, create_one_in_two_zkp_yes, create_one_in_two_zkp_no,
}
use bachelor_project.OpenVote.OffChain.Algebra.{
  plus-subtract, add-subtract, subtract_point-add, extract_scalars-new, extract_points-new,
  extract_primitives-new,
}

-- The parts of a proof can be read: none is the identity or zero.
abbrev pub Readable : (c : Curve) → OneInTwoZkp → Type 0
Readable c zkp = (extract_scalars c zkp ≢ none) × (extract_points c zkp ≢ none)

module _ (c : Curve) (laws : CurveLaws c) where
  same : (p q : c.Point) → p ≡ q → c.same_point p q ≡ true
  same p q = (laws.same_point_iff p q).1

  schnorr_checks :
      (w x z : c.Scalar)
      → let g_x = c.scale c.generator x in
        let g_w = c.scale c.generator w in
        let r = subtract c w (c.times x z) in
        hash_to_scalar c (c.point_bytes (c.add (c.add c.generator g_w) g_x)) ≡ some z
        → extract_primitives c (new_schnorr_proof c g_w r) ≡ some (g_w, r)
        → verify_schnorr_zkp c g_x (new_schnorr_proof c g_w r) ≡ some true
  unfolding verify_schnorr_zkp
  schnorr_checks w x z hashed read =
      let g = c.generator in
      let r = subtract c w (c.times x z) in
      rw (read, hashed, verify_schnorr_zkp)
        (ap (λ b. some b)
          (same (c.add (c.scale (c.scale g x) z) (c.scale g r)) (c.scale g w)
            (laws.add_comm (c.scale (c.scale g x) z) (c.scale g r) ∙ add-subtract c laws g x z w)))

  -- The proof that a voter creates for a voting key is accepted for it, whatever the random scalar,
  -- unless one of its parts is the identity or zero, which cannot be read.
  pub create_schnorr_zkp-verify :
      (w x : c.Scalar) (zkp : SchnorrProof)
      → create_schnorr_zkp c w (c.scale c.generator x) x ≡ some zkp
      → extract_primitives c zkp ≢ none
      → verify_schnorr_zkp c (c.scale c.generator x) zkp ≡ some true
  unfolding create_schnorr_zkp
  create_schnorr_zkp-verify w x zkp made readable =
      let g_x = c.scale c.generator x in
      let g_w = c.scale c.generator w in
      elim (Option-cases (hash_to_scalar c (c.point_bytes (c.add (c.add c.generator g_w) g_x)))) [
        | inl unhashed ↦ ground (arith, made)
        | inr (z, hashed) ↦
            let r = subtract c w (c.times x z) in
            let it : zkp ≡ new_schnorr_proof c g_w r = ground (arith, made) in
            let read = extract_primitives-new c laws g_w r (rw it at readable) in
            rw it (schnorr_checks w x z hashed read)
      ]

  -- The four equations and the hash are what the contract checks.
  one_in_two_checks :
      (r1 r2 d1 d2 h : c.Scalar) (x y a1 b1 a2 b2 g_y : c.Point)
      → let zkp = new_one_in_two_zkp c r1 r2 d1 d2 x y a1 b1 a2 b2 in
        Readable c zkp
        → hash_to_scalar c (c.point_bytes (c.add (c.add (c.add (c.add (c.add x y) a1) b1) a2) b2))
          ≡ some h
        → h ≡ c.plus d1 d2
        → a1 ≡ c.add (c.scale c.generator r1) (c.scale x d1)
        → b1 ≡ c.add (c.scale g_y r1) (c.scale y d1)
        → a2 ≡ c.add (c.scale c.generator r2) (c.scale x d2)
        → b2 ≡ c.add (c.scale g_y r2) (c.scale (subtract_point c y c.generator) d2)
        → verify_one_in_two_zkp c zkp g_y ≡ some true
  unfolding verify_one_in_two_zkp
  one_in_two_checks r1 r2 d1 d2 h x y a1 b1 a2 b2 g_y readable hashed e0 e1 e2 e3 e4 = ground (
    arith,
    extract_scalars-new c laws r1 r2 d1 d2 x y a1 b1 a2 b2 readable.0,
    extract_points-new c laws r1 r2 d1 d2 x y a1 b1 a2 b2 readable.1,
    hashed,
    (laws.same_scalar_iff h (c.plus d1 d2)).1 e0,
    same _ _ e1,
    same _ _ e2,
    same _ _ e3,
    same _ _ e4,
  )

  -- The proof that a voter creates for a yes is accepted, whatever the random scalars, unless one of
  -- its parts is the identity or zero, which cannot be read.
  pub create_one_in_two_zkp_yes-verify :
      (w r1 d1 x : c.Scalar) (g_y : c.Point) (zkp : OneInTwoZkp)
      → create_one_in_two_zkp_yes c w r1 d1 (c.scale c.generator x) g_y x ≡ some zkp
      → Readable c zkp
      → verify_one_in_two_zkp c zkp g_y ≡ some true
  unfolding create_one_in_two_zkp_yes
  create_one_in_two_zkp_yes-verify w r1 d1 x g_y zkp made readable =
      let g = c.generator in
      let g_x = c.scale g x in
      let y = c.add (c.scale g_y x) g in
      let a1 = c.add (c.scale g r1) (c.scale g_x d1) in
      let b1 = c.add (c.scale g_y r1) (c.scale y d1) in
      let a2 = c.scale g w in
      let b2 = c.scale g_y w in
      let sum = c.add (c.add (c.add (c.add (c.add g_x y) a1) b1) a2) b2 in
      elim (Option-cases (hash_to_scalar c (c.point_bytes sum))) [
        | inl unhashed ↦ ground (arith, made)
        | inr (h, hashed) ↦
            let d2 = subtract c h d1 in
            let r2 = subtract c w (c.times x d2) in
            let it : zkp ≡ new_one_in_two_zkp c r1 r2 d1 d2 g_x y a1 b1 a2 b2 =
              ground (arith, made) in
            rw it (
              one_in_two_checks r1 r2 d1 d2 h g_x y a1 b1 a2 b2 g_y (rw it at readable) hashed
                (sym (plus-subtract c laws d1 h)) refl refl (sym (add-subtract c laws g x d2 w))
                (sym (
                  ap (λ q. c.add (c.scale g_y r2) (c.scale q d2))
                    (subtract_point-add c laws (c.scale g_y x) g)
                  ∙ add-subtract c laws g_y x d2 w)))
      ]

  -- The proof that a voter creates for a no is accepted, whatever the random scalars, unless one of
  -- its parts is the identity or zero, which cannot be read.
  pub create_one_in_two_zkp_no-verify :
      (w r2 d2 x : c.Scalar) (g_y : c.Point) (zkp : OneInTwoZkp)
      → create_one_in_two_zkp_no c w r2 d2 (c.scale c.generator x) g_y x ≡ some zkp
      → Readable c zkp
      → verify_one_in_two_zkp c zkp g_y ≡ some true
  unfolding create_one_in_two_zkp_no
  create_one_in_two_zkp_no-verify w r2 d2 x g_y zkp made readable =
      let g = c.generator in
      let g_x = c.scale g x in
      let y = c.scale g_y x in
      let a1 = c.scale g w in
      let b1 = c.scale g_y w in
      let a2 = c.add (c.scale g r2) (c.scale g_x d2) in
      let b2 = c.add (c.scale g_y r2) (c.scale (subtract_point c y g) d2) in
      let sum = c.add (c.add (c.add (c.add (c.add g_x y) a1) b1) a2) b2 in
      elim (Option-cases (hash_to_scalar c (c.point_bytes sum))) [
        | inl unhashed ↦ ground (arith, made)
        | inr (h, hashed) ↦
            let d1 = subtract c h d2 in
            let r1 = subtract c w (c.times x d1) in
            let it : zkp ≡ new_one_in_two_zkp c r1 r2 d1 d2 g_x y a1 b1 a2 b2 =
              ground (arith, made) in
            rw it (
              one_in_two_checks r1 r2 d1 d2 h g_x y a1 b1 a2 b2 g_y (rw it at readable) hashed
                (sym (laws.plus_comm d1 d2 ∙ plus-subtract c laws d2 h))
                (sym (add-subtract c laws g x d1 w)) (sym (add-subtract c laws g_y x d1 w)) refl
                refl)
      ]
