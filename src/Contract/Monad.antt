-- ===== src/Contract/Monad.antt =====
-- An entrypoint acts on the contract's state and the chain. What was written before a rejection
-- stays written in the host's copy, so the world comes back beside the error; that the chain then
-- throws the copy away is `transact`.
use bachelor_project.Prelude.{
  ◌≡◌, refl, ap, ◌⊎◌, inl, inr, ℕ, Bool, true, false, Option, none, some, ◌%◌,
}

-- `AccountAddress` is 32 bytes that the contracts only compare, so it is one number.
abbrev pub AccountAddress : Type 0
AccountAddress = ℕ

-- Micro CCD, a `u64`.
abbrev pub Amount : Type 0
Amount = ℕ

-- Milliseconds, a `u64`.
abbrev pub Timestamp : Type 0
Timestamp = ℕ

pub data Address : Type 0 where
  account : AccountAddress → Address
  contract : ℕ → ℕ → Address

pub Address-cases :
    (s : Address) → ((a : AccountAddress) × (s ≡ account a)) ⊎ ((i j : ℕ) × (s ≡ contract i j))
Address-cases (account a) = inl (a, refl)
Address-cases (contract i j) = inr (i, j, refl)

-- A contract runs as wasm32, where `x as usize` keeps the low 32 bits.
abbrev pub usize : ℕ → ℕ
usize n = n % 4294967296

-- `ReceiveContext`, the parts that the contracts read.
pub record ReceiveContext : Type 0 where
  pub sender : Address
  pub owner : AccountAddress
  pub slot_time : Timestamp

-- The error of `InitResult` and `ReceiveResult`: the default code of a bare `ensure!` or `bail!`,
-- and that of a parameter which does not parse.
pub data Reject : Type 0 where
  default_reject parse_error : Reject

pub data Outcome (E A : Type 0) : Type 0 where
  ok : A → Outcome E A
  err : E → Outcome E A
  trap : Outcome E A

-- The contract's state beside the chain's.
pub record World (S C : Type 0) : Type 0 where
  pub state : S
  pub chain : C

abbrev pub Receive : Type 0 → Type 0 → Type 0 → Type 0
Receive W E A = W → Outcome E A × W

module _ {W E A : Type 0} where
  abbrev pub pure : A → Receive W E A
  pure a w = (ok a, w)

  -- `bail!(e)`
  abbrev pub bail : E → Receive W E A
  bail e w = (err e, w)

  abbrev pub gets : (W → A) → Receive W E A
  gets f w = (ok (f w), w)

  -- `unwrap`, and `unwrap_abort`
  abbrev pub unwrap : Option A → Receive W E A
  unwrap none w = (trap, w)
  unwrap (some a) w = (ok a, w)

  -- `match o { Some(a) => a, None => bail!(e) }`, and a parameter that may not parse
  abbrev pub or_bail : Option A → E → Receive W E A
  or_bail none e w = (err e, w)
  or_bail (some a) e w = (ok a, w)

module _ {W E : Type 0} where
  -- `ensure!(b, e)`
  abbrev pub ensure : Bool → E → Receive W E (Unit {0})
  ensure true e w = (ok tt, w)
  ensure false e w = (err e, w)

  abbrev pub modify : (W → W) → Receive W E (Unit {0})
  modify f w = (ok tt, f w)

infixl 5 ◌>>=◌ ◌>>◌
abbrev pub ◌>>=◌ : {W E A B : Type 0} → Receive W E A → (A → Receive W E B) → Receive W E B
◌>>=◌ m f w =
    let (r, w') = m w in elim r [ ok a ↦ f a w' | err e ↦ (err e, w') | trap ↦ (trap, w') ]

-- A step that succeeds is followed by the rest.
pub bind_ok :
    {W E A B : Type 0} (m : Receive W E A) (f : A → Receive W E B) (w : W) {a : A} {v : W}
    → m w ≡ (ok a, v)
    → (m >>= f) w ≡ f a v
bind_ok {W} {E} {A} m f w e = ap (λ (r : Outcome E A × W). ((λ (u : W). r) >>= f) w) e

abbrev pub ◌>>◌ : {W E A B : Type 0} → Receive W E A → Receive W E B → Receive W E B
m >> k = m >>= λ _. k

-- A transaction keeps what a successful entrypoint did, and undoes a rejection or a trap.
abbrev pub commit : {W E A : Type 0} → W → Outcome E A × W → W
commit w (ok _, w') = w'
commit w (err _, _) = w
commit w (trap, _) = w

-- What holds before a transaction, and of the world that a success leaves, holds after it.
pub commit_keeps :
    {E A W : Type 0} (P : W → Type 0) (w : W) (r : Outcome E A × W)
    → P w
    → ((a : A) → r.0 ≡ ok a → P r.1)
    → P (commit w r)
commit_keeps P w (ok a, v) before after = after a refl
commit_keeps P w (err e, v) before after = before
commit_keeps P w (trap, v) before after = before
