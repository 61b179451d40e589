-- ===== src/OpenVote/Voting/Refunds.antt =====
-- open-vote-network/voting/src/lib.rs: whom `refund_deposits` pays, and when it can.
use mathlib.Core.List.{append_assoc, append-nil}
use bachelor_project.Prelude.{
  ℕ, ◌+◌, ◌-◌, ◌*◌, ◌≤◌, ◌≡◌, refl, true, not, ◌&&◌, none, some, List, [], ◌∷◌, ◌++◌, ltb, length,
  arith, sym, ◌∙◌, if◌then◌else◌,
}
use bachelor_project.Contract.{AccountAddress, Amount, ok, Host, HostLaws}
use bachelor_project.OpenVote.Curve.{Curve}
use bachelor_project.OpenVote.Voting.{Election}
use bachelor_project.OpenVote.Voting.Phases.{
  stalling_accounts, honest_accounts, is_among, refund_all, refund_deposits,
}

abbrev pub AllAccounts : Host → List AccountAddress → Type 0
AllAccounts h [] = Unit {0}
AllAccounts h (a ∷ accounts) = (h.is_account a ≡ true) × AllAccounts h accounts

-- Each of the accounts with the same amount.
abbrev pub payments : Amount → List AccountAddress → List (AccountAddress × Amount)
payments x [] = []
payments x (a ∷ accounts) = (a, x) ∷ payments x accounts

-- The caller, where a bounty is due, and then the honest voters.
abbrev pub payees :
    AccountAddress → List AccountAddress → List AccountAddress → ℕ → List AccountAddress
payees sender stalling honest voters =
    if not (is_among sender stalling) && ltb 0 (voters - length honest)
    then sender ∷ honest
    else honest

module _ (c : Curve) (h : Host) where
  -- The state is as before and exactly these transfers were made.
  pub record Pays (payees : List AccountAddress) (w v : Election c h) : Type 0 where
    pub same : v.state ≡ w.state
    pub logged : h.transfers v.chain ≡ h.transfers w.chain ++ payments w.state.config.deposit payees
    pub spent :
        h.self_balance v.chain + w.state.config.deposit * length payees ≡ h.self_balance w.chain

module _ (c : Curve) (h : Host) (laws : HostLaws h) where
  refund_all_step :
      (a : AccountAddress) (accounts : List AccountAddress) (w : Election c h)
      → let r = h.invoke_transfer a w.state.config.deposit w.chain in
        r.0 ≡ none
        → refund_all c h (a ∷ accounts) w ≡ refund_all c h accounts (record w { chain = r.1 })
  unfolding refund_all
  refund_all_step a accounts w made = ground arith

  refund_all_stop :
      (a : AccountAddress) (accounts : List AccountAddress) (w : Election c h)
      → (refund_all c h (a ∷ accounts) w).0 ≡ ok tt
      → (h.invoke_transfer a w.state.config.deposit w.chain).0 ≡ none
  unfolding refund_all
  refund_all_stop a accounts w e = ground arith

  -- Payments that all succeed are made in order.
  pub refund_all-Pays :
      (accounts : List AccountAddress) (w : Election c h)
      → (refund_all c h accounts w).0 ≡ ok tt
      → Pays c h accounts w (refund_all c h accounts w).1
  unfolding refund_all
  refund_all-Pays [] w e = record {
    same = refl;
    logged = sym (append-nil (h.transfers w.chain));
    spent = omega arith;
  }
  refund_all-Pays (a ∷ accounts) w e =
      let made = refund_all_stop a accounts w e in
      let step = refund_all_step a accounts w made in
      let d = w.state.config.deposit in
      let w' = record w { chain = (h.invoke_transfer a d w.chain).1 } in
      let rest = refund_all-Pays accounts w' (rw step at e) in
      rw step (record {
        same = rest.same;
        logged =
            rest.logged
            ∙ (rw (laws.transfer_logged a d w.chain made)
                (append_assoc (h.transfers w.chain) ((a, d) ∷ []) (payments d accounts)));
        spent = omega (arith, rest.spent, laws.transfer_pays a d w.chain made);
      })

  -- Payments that the balance covers all succeed.
  pub refund_all_made :
      (accounts : List AccountAddress) (w : Election c h)
      → AllAccounts h accounts
      → w.state.config.deposit * length accounts ≤ h.self_balance w.chain
      → (refund_all c h accounts w).0 ≡ ok tt
  unfolding refund_all
  refund_all_made [] w known covered = refl
  refund_all_made (a ∷ accounts) w (one, known) covered =
      let d = w.state.config.deposit in
      let made = laws.transfer_made a d w.chain one (omega (arith, covered)) in
      rw (refund_all_step a accounts w made) (
        refund_all_made accounts (record w { chain = (h.invoke_transfer a d w.chain).1 }) known
          (omega (arith, covered, laws.transfer_pays a d w.chain made)))

module _ (c : Curve) (h : Host) where
  pub refund_deposits_run :
      (sender : AccountAddress) (w : Election c h) {stalling honest : List AccountAddress}
      → stalling_accounts w.state.voting_phase w.state.voters ≡ some stalling
      → honest_accounts w.state.voting_phase w.state.voters ≡ some honest
      → refund_deposits c h sender w
        ≡ refund_all c h (payees sender stalling honest (length w.state.voters)) w
  unfolding refund_deposits refund_all
  refund_deposits_run sender w s g = ground arith
