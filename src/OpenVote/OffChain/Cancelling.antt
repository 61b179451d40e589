-- ===== src/OpenVote/OffChain/Cancelling.antt =====
-- open-vote-network/off-chain/src/lib.rs: the equations by which the keys of the voters cancel out.
use bachelor_project.Prelude.{◌≡◌, sym, ap, ◌∙◌}
use bachelor_project.OpenVote.Curve.{Curve, CurveLaws}
use bachelor_project.OpenVote.OffChain.{subtract_point}

module _ (c : Curve) (laws : CurveLaws c) where
  swap_middle : (p q r s : c.Point) → c.add (c.add p q) (c.add r s) ≡ c.add (c.add p r) (c.add q s)
  swap_middle p q r s =
      laws.add_assoc p q (c.add r s)
      ∙ ap (c.add p) (
          sym (laws.add_assoc q r s)
          ∙ ap (λ t. c.add t s) (laws.add_comm q r)
          ∙ laws.add_assoc r q s)
      ∙ sym (laws.add_assoc p r (c.add q s))

  -- Two parts that cancel out go.
  cancel :
      (a n e b q f : c.Point)
      → c.add n q ≡ c.identity
      → c.add (c.add (c.add a n) e) (c.add (c.add b q) f) ≡ c.add (c.add a b) (c.add e f)
  cancel a n e b q f gone =
      swap_middle (c.add a n) e (c.add b q) f
      ∙ ap (λ t. c.add t (c.add e f))
          (swap_middle a n b q ∙ ap (c.add (c.add a b)) gone ∙ laws.add-identity (c.add a b))

  identity_only : (p : c.Point) → c.add p p ≡ p → p ≡ c.identity
  identity_only p twice =
      sym (laws.add-identity p)
      ∙ ap (c.add p) (sym (laws.add-neg p))
      ∙ sym (laws.add_assoc p p (c.neg p))
      ∙ ap (λ t. c.add t (c.neg p)) twice
      ∙ laws.add-neg p

  pub scale-identity : (x : c.Scalar) → c.scale c.identity x ≡ c.identity
  scale-identity x = identity_only (c.scale c.identity x) (
      sym (laws.scale-add c.identity c.identity x)
      ∙ ap (λ p. c.scale p x) (laws.add-identity c.identity))

  pub scale-zero : (p : c.Point) → c.scale p c.zero_scalar ≡ c.identity
  scale-zero p = identity_only (c.scale p c.zero_scalar) (
      sym (laws.scale-plus p c.zero_scalar c.zero_scalar)
      ∙ ap (c.scale p) (laws.plus-zero c.zero_scalar))

  scale-scale : (p : c.Point) (a b : c.Scalar) → c.scale (c.scale p a) b ≡ c.scale (c.scale p b) a
  scale-scale p a b =
      sym (laws.scale-times p a b) ∙ ap (c.scale p) (laws.times_comm a b) ∙ laws.scale-times p b a

  -- One voter of secret `x`, after keys of sum `p` and before voters of secrets `s`.
  pub one_cancels :
      (p choice rest : c.Point) (x s : c.Scalar)
      → c.add
          (c.add (c.scale (subtract_point c p (c.scale c.generator s)) x) choice)
          (c.add (c.scale (c.add p (c.scale c.generator x)) s) rest)
        ≡ c.add (c.scale p (c.plus x s)) (c.add choice rest)
  one_cancels p choice rest x s =
      let g = c.generator in
      let r = c.scale g s in
      ap (λ t. c.add (c.add t choice) (c.add (c.scale (c.add p (c.scale g x)) s) rest))
        (laws.scale-add p (c.neg r) x)
      ∙ ap (λ t. c.add (c.add (c.add (c.scale p x) (c.scale (c.neg r) x)) choice) (c.add t rest))
          (laws.scale-add p (c.scale g x) s)
      ∙ cancel (c.scale p x) (c.scale (c.neg r) x) choice (c.scale p s) (c.scale (c.scale g x) s)
          rest
          (ap (c.add (c.scale (c.neg r) x)) (scale-scale g x s)
            ∙ sym (laws.scale-add (c.neg r) r x)
            ∙ ap (λ t. c.scale t x) (laws.add_comm (c.neg r) r ∙ laws.add-neg r)
            ∙ scale-identity x)
      ∙ ap (λ t. c.add t (c.add choice rest)) (sym (laws.scale-plus p x s))
