-- ===== src/OpenVote/Voting/Changing.antt =====
-- open-vote-network/voting/src/lib.rs: what `change_phase` changes, and when an abort is made.
use bachelor_project.Prelude.{
  ℕ, ◌<◌, ◌≡◌, refl, inl, inr, Bool, true, false, not, leb, ltb, ◌⊎◌, if◌then◌else◌, some, List,
  length, Bool-cases, arith,
}
use bachelor_project.Contract.{
  AccountAddress, Timestamp, account, contract, err, ReceiveContext, ok, Address-cases, Host,
  HostLaws,
}
use bachelor_project.Contract.StateMap.{StateMap}
use bachelor_project.OpenVote.Curve.{Curve}
use bachelor_project.OpenVote.Types.{
  VotingPhase, registration, commit, vote, result, abort, VoteConfig, Voter, contract_sender,
}
use bachelor_project.OpenVote.Voting.{all_voters, has_committed, has_voted, Election, set_phase}
use bachelor_project.OpenVote.Voting.Phases.{
  accounts_where, is_registered, stalling_accounts, honest_accounts, refund_all, refund_and_abort,
  change_phase,
}
use bachelor_project.OpenVote.Voting.Refunds.{Pays, payees, refund_all-Pays, refund_deposits_run}

abbrev pub deadline : VotingPhase → VoteConfig → Timestamp
deadline registration config = config.registration_timeout
deadline commit config = config.commit_timeout
deadline vote config = config.vote_timeout
deadline result config = 0
deadline abort config = 0

-- The phase is not over: too few have registered, or somebody has not committed or not voted.
abbrev pub is_stalled : VotingPhase → StateMap Voter → Bool
is_stalled registration voters = leb (length (accounts_where is_registered voters)) 2
is_stalled commit voters = not (all_voters has_committed voters)
is_stalled vote voters = not (all_voters has_voted voters)
is_stalled result voters = false
is_stalled abort voters = false

-- The phase that follows when nobody stalls.
abbrev pub next_phase : VotingPhase → VotingPhase
next_phase registration = commit
next_phase commit = vote
next_phase vote = result
next_phase result = result
next_phase abort = abort

module _ (c : Curve) (h : Host) where
  -- The election is aborted by `sender`: it was late and stalled, the honest voters and, where it is
  -- due, the caller were paid, and the phase is `Abort`.
  pub record Aborts (sender : AccountAddress) (now : Timestamp) (w v : Election c h) : Type 0 where
    pub stalling : List AccountAddress
    pub honest : List AccountAddress
    pub paid : Election c h
    pub stalling_read : stalling_accounts w.state.voting_phase w.state.voters ≡ some stalling
    pub honest_read : honest_accounts w.state.voting_phase w.state.voters ≡ some honest
    pub late : deadline w.state.voting_phase w.state.config < now
    pub stalled : is_stalled w.state.voting_phase w.state.voters ≡ true
    pub pays : Pays c h (payees sender stalling honest (length w.state.voters)) w paid
    pub after : v ≡ set_phase c h abort paid

  pub data Changes (sender : AccountAddress) (now : Timestamp) (w v : Election c h) : Type 0 where
    stays : v ≡ w → Changes sender now w v
    advances :
        is_stalled w.state.voting_phase w.state.voters ≡ false
        → v ≡ set_phase c h (next_phase w.state.voting_phase) w
        → Changes sender now w v
    aborts : Aborts sender now w v → Changes sender now w v

module _ (c : Curve) (h : Host) (laws : HostLaws h) (sender : AccountAddress) (now : Timestamp)
    (w : Election c h) where
  refund_and_abort-Aborts :
      {stalling honest : List AccountAddress}
      → stalling_accounts w.state.voting_phase w.state.voters ≡ some stalling
      → honest_accounts w.state.voting_phase w.state.voters ≡ some honest
      → deadline w.state.voting_phase w.state.config < now
      → is_stalled w.state.voting_phase w.state.voters ≡ true
      → (refund_and_abort c h sender w).0 ≡ ok tt
      → Aborts c h sender now w (refund_and_abort c h sender w).1
  refund_and_abort-Aborts {stalling} {honest} s g late stalled e =
      let run = refund_deposits_run c h sender w s g in
      let ps = payees sender stalling honest (length w.state.voters) in
      record {
        stalling = stalling;
        honest = honest;
        paid = (refund_all c h ps w).1;
        stalling_read = s;
        honest_read = g;
        late = late;
        stalled = stalled;
        pays = refund_all-Pays c h laws ps w (ground (arith, run));
        after = ground (arith, run);
      }

module _ (c : Curve) (h : Host) (laws : HostLaws h) (ctx : ReceiveContext) (w : Election c h)
    (a : AccountAddress) (sender : ctx.sender ≡ account a) where
  abbrev due : VotingPhase → Bool
  due p = ltb (deadline p w.state.config) ctx.slot_time

  -- What a phase that can stall does.
  change_phase_run :
      (p : VotingPhase)
      → w.state.voting_phase ≡ p
      → (not (is_stalled p w.state.voters) ≡ true)
      → (change_phase c h ctx w ≡ (ok tt, w))
        ⊎ (change_phase c h ctx w ≡ (ok tt, set_phase c h (next_phase p) w))
  unfolding change_phase
  change_phase_run registration at clear = ground arith
  change_phase_run commit at clear = ground arith
  change_phase_run vote at clear = ground arith
  change_phase_run result at clear = ground arith
  change_phase_run abort at clear = ground arith

  pub change_phase_stalled :
      (p : VotingPhase)
      → w.state.voting_phase ≡ p
      → is_stalled p w.state.voters ≡ true
      → change_phase c h ctx w ≡ (if due p then refund_and_abort c h a w else (ok tt, w))
  unfolding change_phase
  change_phase_stalled registration at stalled = ground arith
  change_phase_stalled commit at stalled = ground arith
  change_phase_stalled vote at stalled = ground arith
  change_phase_stalled result at stalled = ground arith
  change_phase_stalled abort at stalled = ground arith

-- The lists of a phase that can stall.
pub lists_of_stalled :
    (p : VotingPhase) (voters : StateMap Voter)
    → is_stalled p voters ≡ true
    → ((s : List AccountAddress) × (stalling_accounts p voters ≡ some s))
      × ((g : List AccountAddress) × (honest_accounts p voters ≡ some g))
lists_of_stalled registration voters e =
    ((accounts_where _ voters, refl), (accounts_where _ voters, refl))
lists_of_stalled commit voters e =
    ((accounts_where _ voters, refl), (accounts_where _ voters, refl))
lists_of_stalled vote voters e = ((accounts_where _ voters, refl), (accounts_where _ voters, refl))
lists_of_stalled result voters e = ground arith
lists_of_stalled abort voters e = ground arith

module _ (c : Curve) (h : Host) (laws : HostLaws h) (ctx : ReceiveContext) (w : Election c h) where
  change_phase_contract :
      (i j : ℕ) → ctx.sender ≡ contract i j → (change_phase c h ctx w).0 ≡ err contract_sender
  unfolding change_phase
  change_phase_contract i j sender = ground arith

  stalled-Changes :
      (a : AccountAddress)
      → ctx.sender ≡ account a
      → is_stalled w.state.voting_phase w.state.voters ≡ true
      → (change_phase c h ctx w).0 ≡ ok tt
      → Changes c h a ctx.slot_time w (change_phase c h ctx w).1
  stalled-Changes a sender stalled e =
      let p = w.state.voting_phase in
      let run = change_phase_stalled c h laws ctx w a sender p refl stalled in
      let (s, g) = lists_of_stalled p w.state.voters stalled in
      elim (Bool-cases (ltb (deadline p w.state.config) ctx.slot_time)) [
        | inl late ↦
            let run' = rw late at run in
            rw run' (
              Changes.aborts (
                refund_and_abort-Aborts c h laws a ctx.slot_time w s.1 g.1 (ground arith) stalled
                  (rw run' at e)))
        | inr in_time ↦ rw (rw in_time at run) (Changes.stays refl)
      ]

  pub change_phase-Changes :
      (change_phase c h ctx w).0 ≡ ok tt
      → (a : AccountAddress) × (ctx.sender ≡ account a)
        × Changes c h a ctx.slot_time w (change_phase c h ctx w).1
  change_phase-Changes e = elim (Address-cases ctx.sender) [
    | inl (a, sender) ↦ (
      a,
      sender,
      elim (Bool-cases (is_stalled w.state.voting_phase w.state.voters)) [
        | inl stalled ↦ stalled-Changes a sender stalled e
        | inr clear ↦
            elim (change_phase_run c h laws ctx w a sender w.state.voting_phase refl
              (ground arith)) [
                | inl same ↦ rw same (Changes.stays refl)
                | inr next ↦ rw next (Changes.advances clear refl)
              ]
      ],
    )
    | inr (i, j, sender) ↦ ground (arith, change_phase_contract i j sender)
  ]
