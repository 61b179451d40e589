-- ===== src/Commerce/Paths/Arriving.antt =====
-- The states along the paths of the property test of Commerce/src/lib.rs, from their ends back to
-- the request.
use bachelor_project.Prelude.{
  ℕ, ◌*◌, ◌<◌, ◌≡◌, ◌≢◌, refl, Bool, true, false, ◌⊎◌, inl, inr, if◌then◌else◌, arith,
}
use bachelor_project.Contract.{AccountAddress, Amount}
use bachelor_project.Contract.Ledger.{Ledger}
use bachelor_project.Commerce.Types.{
  State, null, requested, accepted, rejected, delivered, completed, dispute, counter, failed,
}
use bachelor_project.Commerce.Paths.{state_mappings}
use bachelor_project.Commerce.Paths.Check.{payback, paid_back}
use bachelor_project.Commerce.Paths.Steps.{
  at, full, paid_to, Takes-open, Takes-accept, Takes-abort, Takes-reject, Takes-timeout,
  Takes-delivered, Takes-confirm, Takes-seller_timeout, Takes-dispute, Takes-dispute_timeout,
  Takes-forfeit, Takes-counter,
}
use bachelor_project.Commerce.Paths.Passing.{Good, PassesBy, Passes, passes-choices, passes-end}

module _ (vendor buyer : AccountAddress) (value : Amount) where
  module _ (distinct : vendor ≢ buyer) (small : value < 256) where
    module _ (b : Bool) where
      Good-rejected :
          (prev : State) (time : ℕ)
          → Good vendor buyer value b prev rejected
              (at vendor buyer value rejected time (paid_to buyer value))
      unfolding payback paid_back
      Good-rejected prev time = (omega arith, ground arith)

      Good-completed :
          (prev : State) (time : ℕ)
          → Good vendor buyer value b prev completed
              (at vendor buyer value completed time (paid_to vendor value))
      unfolding payback paid_back
      Good-completed prev time = (omega arith, ground arith)

      Good-failed_early :
          (prev : State) (time : ℕ)
          → (prev ≡ null) ⊎ (prev ≡ requested) ⊎ (prev ≡ accepted)
          → Good vendor buyer value b prev failed
              (at vendor buyer value failed time (paid_to buyer value))
      unfolding payback paid_back
      Good-failed_early prev time at_prev = (omega arith, ground arith)

      Good-failed_disputed :
          (time : ℕ)
          → Good vendor buyer value b dispute failed
              (at vendor buyer value failed time (paid_to buyer (value * 2)))
      unfolding payback paid_back
      Good-failed_disputed time = (omega arith, ground arith)

    Good-failed_opened :
        (b : Bool) (time : ℕ)
        → Good vendor buyer value b counter failed
            (at vendor buyer value failed time (paid_to (if b then vendor else buyer) (value * 2)))
    unfolding payback paid_back
    Good-failed_opened true time = (omega arith, ground arith)
    Good-failed_opened false time = (omega arith, ground arith)

    module _ (b : Bool) where
      ends_rejected :
          (prev : State)
          → Passes vendor buyer value b prev rejected
              (at vendor buyer value rejected 0 (paid_to buyer value))
      ends_rejected prev = passes-end vendor buyer value b _ prev rejected (Good-rejected b prev 0)

      ends_completed :
          (prev : State) (time : ℕ)
          → Passes vendor buyer value b prev completed
              (at vendor buyer value completed time (paid_to vendor value))
      ends_completed prev time =
          passes-end vendor buyer value b _ prev completed (Good-completed b prev time)

      ends_failed :
          (prev : State) (time : ℕ) (l : Ledger)
          → Good vendor buyer value b prev failed (at vendor buyer value failed time l)
          → Passes vendor buyer value b prev failed (at vendor buyer value failed time l)
      ends_failed prev time l good = passes-end vendor buyer value b _ prev failed good

      from_counter :
          (prev : State)
          → Passes vendor buyer value b prev counter (at vendor buyer value counter 40 full)
      from_counter prev = passes-choices vendor buyer value b _ prev counter _ _ (
        (
          40,
          _,
          Takes-open vendor buyer value small b,
          ends_failed counter 40 _ (Good-failed_opened b 40),
        ),
        (
          (
            40,
            _,
            Takes-seller_timeout vendor buyer value small b counter 40 (inr refl) (omega arith),
            ends_completed counter 40,
          ),
          tt,
        ),
      )

      from_dispute :
          (prev : State)
          → Passes vendor buyer value b prev dispute (at vendor buyer value dispute 30 full)
      from_dispute prev =
          let refunded = ends_failed dispute 30 _ (Good-failed_disputed b 30) in
          passes-choices vendor buyer value b _ prev dispute _ _ (
            (30, _, Takes-dispute_timeout vendor buyer value small b, refunded),
            (
              (30, _, Takes-forfeit vendor buyer value small b, refunded),
              ((40, _, Takes-counter vendor buyer value small b, from_counter dispute), tt),
            ),
          )

      from_delivered :
          (prev : State)
          → Passes vendor buyer value b prev delivered (at vendor buyer value delivered 20 full)
      from_delivered prev =
          let ended = ends_completed delivered 20 in
          passes-choices vendor buyer value b _ prev delivered _ _ (
            (20, _, Takes-confirm vendor buyer value small b, ended),
            (
              (
                20,
                _,
                Takes-seller_timeout vendor buyer value small b delivered 20 (inl refl)
                    (omega arith),
                ended,
              ),
              ((30, _, Takes-dispute vendor buyer value small b, from_dispute delivered), tt),
            ),
          )

      from_accepted :
          (prev : State)
          → Passes vendor buyer value b prev accepted (at vendor buyer value accepted 10 full)
      from_accepted prev = passes-choices vendor buyer value b _ prev accepted _ _ (
        (
          10,
          _,
          Takes-timeout vendor buyer value small b,
          ends_failed accepted 10 _ (Good-failed_early b accepted 10 (inr (inr refl))),
        ),
        ((20, _, Takes-delivered vendor buyer value small b, from_delivered accepted), tt),
      )

      -- The first choice is made while `state` is still `Null`.
      pub from_start :
          PassesBy vendor buyer value b
            (state_mappings requested)
            null
            null
            (at vendor buyer value requested 0 full)
      from_start = passes-choices vendor buyer value b _ null null _ _ (
        (10, _, Takes-accept vendor buyer value small b, from_accepted null),
        (
          (
            0,
            _,
            Takes-abort vendor buyer value small b,
            ends_failed null 0 _ (Good-failed_early b null 0 (inl refl)),
          ),
          ((0, _, Takes-reject vendor buyer value small b, ends_rejected null), tt),
        ),
      )
