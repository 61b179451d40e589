-- ===== src/OpenVote/Voting/Ending.antt =====
-- open-vote-network/voting/src/lib.rs: `change_phase` called again and again after every deadline.
use bachelor_project.Prelude.{
  ℕ, suc, ◌*◌, ◌≤◌, ◌<◌, ◌≡◌, ◌⊎◌, refl, inl, inr, true, false, List, [], ◌∷◌, length, Bool-cases,
  arith,
}
use bachelor_project.Contract.{
  AccountAddress, Amount, account, Timestamp, ReceiveContext, Outcome, ok, Host, HostLaws,
}
use bachelor_project.Contract
use bachelor_project.OpenVote.Curve.{Curve}
use bachelor_project.OpenVote.Types.{
  VotingPhase, registration, commit, vote, result, abort, ChangeError,
}
use bachelor_project.OpenVote.Voting.{Election, set_phase}
use bachelor_project.OpenVote.Voting.Phases.{change_phase}
use bachelor_project.OpenVote.Voting.Refunds.{AllAccounts}
use bachelor_project.OpenVote.Voting.Changing.{deadline, is_stalled, next_phase, lists_of_stalled}
use bachelor_project.OpenVote.Voting.Aborting.{change_phase_aborts}
use bachelor_project.OpenVote.Voting.History.{Call, change_call, credited, transact, run}

-- How many phases there are to go.
abbrev pub to_go : VotingPhase → ℕ
to_go registration = 3
to_go commit = 2
to_go vote = 1
to_go result = 0
to_go abort = 0

abbrev pub callers :
    AccountAddress → Timestamp → List AccountAddress → List (ReceiveContext × Amount × Call)
callers owner now [] = []
callers owner now (a ∷ accounts) =
    (record { sender = account a; owner = owner; slot_time = now }, 0, change_call)
    ∷ callers owner now accounts

module _ (c : Curve) (h : Host) (laws : HostLaws h)
    (known : (a : AccountAddress) → h.is_account a ≡ true) (owner : AccountAddress)
    (now : Timestamp) where
  abbrev by : AccountAddress → ReceiveContext
  by a = record { sender = account a; owner = owner; slot_time = now }

  -- The time is past every deadline, and the funds are one deposit for each voter.
  pub record IsLate (w : Election c h) : Type 0 where
    pub registered_by : w.state.config.registration_timeout < now
    pub committed_by : w.state.config.commit_timeout < now
    pub voted_by : w.state.config.vote_timeout < now
    pub funded : w.state.config.deposit * length w.state.voters ≤ h.self_balance w.chain

  change_phase_moves :
      (a : AccountAddress) (w : Election c h) (p : VotingPhase)
      → IsLate w
      → w.state.voting_phase ≡ p
      → is_stalled p w.state.voters ≡ false
      → change_phase c h (by a) w ≡ (ok tt, set_phase c h (next_phase p) w)
  unfolding change_phase
  change_phase_moves a w registration late at clear = ground arith
  change_phase_moves a w commit late at clear = ground arith
  change_phase_moves a w vote late at clear = ground arith
  change_phase_moves a w result late at clear = ground arith
  change_phase_moves a w abort late at clear = ground arith

  all_known : (accounts : List AccountAddress) → AllAccounts h accounts
  all_known [] = tt
  all_known (a ∷ accounts) = (known a, all_known accounts)

  late_deadline :
      (p : VotingPhase) (w : Election c h)
      → IsLate w
      → is_stalled p w.state.voters ≡ true
      → deadline p w.state.config < now
  late_deadline registration w late stalled = late.registered_by
  late_deadline commit w late stalled = late.committed_by
  late_deadline vote w late stalled = late.voted_by
  late_deadline result w late stalled = cc
  late_deadline abort w late stalled = cc

  to_go-next_phase : (p : VotingPhase) (n : ℕ) → to_go p ≤ suc n → to_go (next_phase p) ≤ n
  to_go-next_phase registration n l = omega (arith, l)
  to_go-next_phase commit n l = omega (arith, l)
  to_go-next_phase vote n l = omega (arith, l)
  to_go-next_phase result n l = omega arith
  to_go-next_phase abort n l = omega arith

  commit_ok :
      (w : Election c h) (r : Outcome ChangeError (Unit {0}) × Election c h)
      → r.0 ≡ ok tt
      → bachelor_project.Contract.commit w r ≡ r.1
  commit_ok w r e = ground (arith, e)

  -- A call ends in an abort, or leaves one phase less to go.
  change_step :
      (a : AccountAddress) (n : ℕ) (w : Election c h)
      → IsLate w
      → to_go w.state.voting_phase ≤ suc n
      → let v = transact c h (by a) 0 change_call w in
        (v.state.voting_phase ≡ abort) ⊎ (IsLate v × (to_go v.state.voting_phase ≤ n))
  unfolding transact
  change_step a n w late left =
      let u = credited c h 0 w in
      let p = w.state.voting_phase in
      let later : IsLate u = record {
        registered_by = late.registered_by;
        committed_by = late.committed_by;
        voted_by = late.voted_by;
        funded = omega (arith, late.funded, laws.credit_balance 0 w.chain);
      } in
      elim (Bool-cases (is_stalled p w.state.voters)) [
        | inl stalled ↦
            let (s, g) = lists_of_stalled p w.state.voters stalled in
            let (done, over) =
              change_phase_aborts c h laws (by a) u a refl stalled (late_deadline p u later stalled)
                s.1 g.1 (all_known (a ∷ g.0)) later.funded in
            inl (rw (commit_ok w (change_phase c h (by a) u) done) over)
        | inr clear ↦ rw (change_phase_moves a u p later refl clear) (
            inr (
              record {
                registered_by = late.registered_by;
                committed_by = late.committed_by;
                voted_by = late.voted_by;
                funded = later.funded;
              },
              to_go-next_phase p n left,
            ))
      ]

  abort_stays :
      (accounts : List AccountAddress) (w : Election c h)
      → w.state.voting_phase ≡ abort
      → (run c h (callers owner now accounts) w).state.voting_phase ≡ abort
  unfolding run transact change_phase
  abort_stays [] w at = at
  abort_stays (a ∷ accounts) w at = abort_stays accounts _ (ground (arith, at))

  over : (p : VotingPhase) → to_go p ≤ 0 → (p ≡ result) ⊎ (p ≡ abort)
  over registration l = absurd (omega (arith, l))
  over commit l = absurd (omega (arith, l))
  over vote l = absurd (omega (arith, l))
  over result l = inl refl
  over abort l = inr refl

  -- After every deadline, as many calls of `change_phase` as there are phases to go, three at most, by
  -- any accounts, end the election in `Result` or `Abort`, if the balance is one deposit for each
  -- voter and every account exists.
  pub run-ends :
      (accounts : List AccountAddress) (w : Election c h)
      → IsLate w
      → to_go w.state.voting_phase ≤ length accounts
      → let v = run c h (callers owner now accounts) w in
        (v.state.voting_phase ≡ result) ⊎ (v.state.voting_phase ≡ abort)
  unfolding run
  run-ends [] w late left = over w.state.voting_phase left
  run-ends (a ∷ accounts) w late left = elim (change_step a (length accounts) w late left) [
    | inl aborted ↦ inr (abort_stays accounts _ aborted)
    | inr (later, fewer) ↦ run-ends accounts _ later fewer
  ]
