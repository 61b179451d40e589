-- ===== src/Commerce/Paths/Passing.antt =====
-- `property_check` of Commerce/src/lib.rs: a walk along a path, by its first choice.
use mathlib.Core.Path.{ap, ◌∙◌}
use bachelor_project.Prelude.{ℕ, ◌<◌, ◌≡◌, refl, Bool, true, Option, some, List, [], ◌∷◌, length}
use bachelor_project.Contract.{AccountAddress, Amount, Outcome, ok, unwrap, gets, ◌>>=◌, ◌>>◌}
use bachelor_project.Contract.Ledger.{Ledger, ledger_host}
use bachelor_project.Commerce.Types.{
  State, null, requested, accepted, rejected, delivered, completed, dispute, counter, failed,
  is_state, purchase_at,
}
use bachelor_project.Commerce.Entry.{Escrow}
use bachelor_project.Commerce.Paths.{Choice, state_mappings, All}
use bachelor_project.Commerce.Paths.Draws.{Along, done, take, All-get_elem?}
use bachelor_project.Commerce.Paths.Check.{assert, expect_taken, walk, payback, paid_back}
use bachelor_project.Commerce.Paths.Steps.{at, Takes}

is_state_refl : (s : State) → is_state s s ≡ true
is_state_refl null = refl
is_state_refl requested = refl
is_state_refl accepted = refl
is_state_refl rejected = refl
is_state_refl delivered = refl
is_state_refl completed = refl
is_state_refl dispute = refl
is_state_refl counter = refl
is_state_refl failed = refl

module _ (vendor buyer : AccountAddress) (value : Amount) where
  module _ (b : Bool) where
    -- The assertions at the end hold.
    abbrev pub Good : State → State → Escrow ledger_host → Type 0
    Good prev s w =
        (0 < length w.chain.paid)
        × (paid_back vendor buyer value b prev s (payback vendor buyer value b buyer 0 w.chain.paid)
              (payback vendor buyer value b vendor 0 w.chain.paid)
            ≡ true)

    -- Every path along the choices passes, and every path from the state.
    abbrev pub PassesBy : Option (List Choice) → State → State → Escrow ledger_host → Type 0
    PassesBy choices prev s w =
        (path : List Choice)
        → Along choices path
        → (t : State × State) × (v : Escrow ledger_host) × (walk vendor buyer value b 0 path prev s
              w
            ≡ (ok t, v))
          × Good t.0 t.1 v

    abbrev pub Passes : State → State → Escrow ledger_host → Type 0
    Passes prev s w = PassesBy (state_mappings s) prev s w

    abbrev pub Passed : Escrow ledger_host → State → Choice → Type 0
    Passed w s c =
        (time : ℕ) × (l : Ledger) × Takes vendor buyer value b c.func w
          (at vendor buyer value c.state time l)
        × Passes s c.state (at vendor buyer value c.state time l)

    walk-taken :
        (w : Escrow ledger_host) (prev s : State) (c : Choice) (path : List Choice) (time : ℕ)
        (l : Ledger)
        → Takes vendor buyer value b c.func w (at vendor buyer value c.state time l)
        → walk vendor buyer value b 0 (c ∷ path) prev s w
          ≡ walk vendor buyer value b 0 path s c.state (at vendor buyer value c.state time l)
    unfolding walk
    walk-taken w prev s c path time l e =
        ap (λ r. after (expect_taken vendor buyer value b r)) e ∙ rw (is_state_refl c.state)
      where
        after :
            Outcome Bool (Unit {0}) × Escrow ledger_host
            → Outcome Bool (State × State) × Escrow ledger_host
        after r =
            ((λ u. r) >>= λ t. do
              purchase ← unwrap (← gets (purchase_at 0))
              assert (is_state purchase.state c.state)
              walk vendor buyer value b 0 path s purchase.state)
              w

    pub passes-choices :
        (w : Escrow ledger_host) (prev s : State) (c : Choice) (cs : List Choice)
        → All (Passed w s) (c ∷ cs)
        → PassesBy (some (c ∷ cs)) prev s w
    passes-choices w prev s c cs ps [] p = elim p [ ]
    passes-choices w prev s c cs ps (d ∷ path) (take i at_i rest) =
        let (time, l, taken, passes) = All-get_elem? (Passed w s) (c ∷ cs) i ps at_i in
        let (t, v, walked, good) = passes path rest in
        (t, v, walk-taken w prev s d path time l taken ∙ walked, good)

    -- A state with no choices passes when the assertions hold.
    pub passes-end :
        (w : Escrow ledger_host) (prev s : State) → Good prev s w → PassesBy (some []) prev s w
    unfolding walk
    passes-end w prev s good [] done = ((prev, s), w, refl, good)
    passes-end w prev s good (d ∷ path) (take i at_i rest) = cc
