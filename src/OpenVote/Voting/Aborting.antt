-- ===== src/OpenVote/Voting/Aborting.antt =====
-- open-vote-network/voting/src/lib.rs: when the abort in `change_phase` has the funds it needs.
use native.Mathlib.Nat.{mul-le-mul_left}
use bachelor_project.Prelude.{
  ◌-◌, ◌&&◌, ℕ, ◌*◌, ◌≤◌, ◌<◌, ◌≡◌, ◌≢◌, refl, inl, inr, Bool, true, not, ltb, some, List, [], ◌∷◌,
  length, Bool-cases, arith,
}
use bachelor_project.Contract.{AccountAddress, account, ReceiveContext, ok, Host, HostLaws}
use bachelor_project.Contract.StateMap.{StateMap}
use bachelor_project.OpenVote.Curve.{Curve}
use bachelor_project.OpenVote.Types.{VotingPhase, registration, commit, vote, result, abort, Voter}
use bachelor_project.OpenVote.Voting.{has_voted, Election}
use bachelor_project.OpenVote.Voting.Phases.{
  accounts_where, is_registered, is_among, has_reconstructed, stalling_accounts, honest_accounts,
  change_phase,
}
use bachelor_project.OpenVote.Voting.Refunds.{
  AllAccounts, payees, refund_deposits_run, refund_all-Pays, refund_all_made,
}
use bachelor_project.OpenVote.Voting.Changing.{deadline, is_stalled, change_phase_stalled}

module _ (c : Curve) (h : Host) (laws : HostLaws h) (ctx : ReceiveContext) (w : Election c h) where
  length-accounts_where :
      (test : Voter → Bool) (voters : StateMap Voter)
      → length (accounts_where test voters) ≤ length voters
  length-accounts_where test [] = omega arith
  length-accounts_where test (e ∷ voters) = ground (arith, length-accounts_where test voters)

  honest_at_most :
      (p : VotingPhase) (voters : StateMap Voter) {honest : List AccountAddress}
      → honest_accounts p voters ≡ some honest
      → length honest ≤ length voters
  honest_at_most registration voters e = ground (arith, length-accounts_where is_registered voters)
  honest_at_most commit voters e = ground (arith, length-accounts_where has_reconstructed voters)
  honest_at_most vote voters e = ground (arith, length-accounts_where has_voted voters)
  honest_at_most result voters e = ground arith
  honest_at_most abort voters e = ground arith

  payees_at_most :
      (a : AccountAddress) (stalling honest : List AccountAddress) (n : ℕ)
      → length honest ≤ n
      → length (payees a stalling honest n) ≤ n
  payees_at_most a stalling honest n l = ground arith

  payees_known :
      (a : AccountAddress) (stalling honest : List AccountAddress) (n : ℕ)
      → AllAccounts h (a ∷ honest)
      → AllAccounts h (payees a stalling honest n)
  payees_known a stalling honest n known =
      elim (Bool-cases (not (is_among a stalling) && ltb 0 (n - length honest))) [
        | inl bounty ↦ rw (bounty, payees) known
        | inr no_bounty ↦ rw (no_bounty, payees) known.1
      ]

  -- Funds of one deposit for each voter are enough for the abort of a phase that is stalled past
  -- its deadline, whoever calls, if the accounts to pay exist.
  pub change_phase_aborts :
      (a : AccountAddress) {stalling honest : List AccountAddress}
      → ctx.sender ≡ account a
      → is_stalled w.state.voting_phase w.state.voters ≡ true
      → deadline w.state.voting_phase w.state.config < ctx.slot_time
      → stalling_accounts w.state.voting_phase w.state.voters ≡ some stalling
      → honest_accounts w.state.voting_phase w.state.voters ≡ some honest
      → AllAccounts h (a ∷ honest)
      → w.state.config.deposit * length w.state.voters ≤ h.self_balance w.chain
      → ((change_phase c h ctx w).0 ≡ ok tt)
        × ((change_phase c h ctx w).1.state.voting_phase ≡ abort)
  change_phase_aborts a {stalling} {honest} sender stalled late s g known funds =
      let p = w.state.voting_phase in
      let n = length w.state.voters in
      let ps = payees a stalling honest n in
      let few = payees_at_most a stalling honest n (honest_at_most p w.state.voters g) in
      let made =
        refund_all_made c h laws ps w (payees_known a stalling honest n known)
          (omega (arith, funds, mul-le-mul_left w.state.config.deposit few)) in
      ground (
        arith,
        change_phase_stalled c h laws ctx w a sender p refl stalled,
        refund_deposits_run c h a w s g,
        made,
      )

  -- An abort that the funds do not cover fails: where the payments that are due to the honest voters
  -- and the caller exceed the balance, `change_phase` does not succeed.
  pub change_phase_underfunded :
      (a : AccountAddress) {stalling honest : List AccountAddress}
      → ctx.sender ≡ account a
      → is_stalled w.state.voting_phase w.state.voters ≡ true
      → deadline w.state.voting_phase w.state.config < ctx.slot_time
      → stalling_accounts w.state.voting_phase w.state.voters ≡ some stalling
      → honest_accounts w.state.voting_phase w.state.voters ≡ some honest
      → h.self_balance w.chain
        < w.state.config.deposit * length (payees a stalling honest (length w.state.voters))
      → (change_phase c h ctx w).0 ≢ ok tt
  change_phase_underfunded a {stalling} {honest} sender stalled late s g short e =
      let p = w.state.voting_phase in
      let ps = payees a stalling honest (length w.state.voters) in
      let run = change_phase_stalled c h laws ctx w a sender p refl stalled in
      let pays =
        refund_all-Pays c h laws ps w (ground (arith, run, e, refund_deposits_run c h a w s g)) in
      absurd (omega (arith, pays.spent, short))
