-- ===== src/OpenVote/Voting/History.antt =====
-- open-vote-network/voting/src/lib.rs: histories of calls to the contract, by anyone, in any order.
use bachelor_project.Prelude.{
  ℕ, ◌≡◌, inl, inr, true, false, Option, List, [], ◌∷◌, ◌==◌, Bool-cases, arith,
}
use bachelor_project.Contract.{
  AccountAddress, Amount, account, ReceiveContext, Outcome, ok, err, trap, commit_keeps, Host,
  HostLaws,
}
use bachelor_project.Contract
use bachelor_project.OpenVote.Curve.{Curve}
use bachelor_project.OpenVote.Types.{RegisterMessage, CommitMessage, VoteMessage}
use bachelor_project.OpenVote.Voting.{Election, register, commit, vote, result}
use bachelor_project.OpenVote.Voting.Phases.{change_phase}
use bachelor_project.OpenVote.Voting.Accepted.{Registers, register-Registers}
use bachelor_project.OpenVote.Voting.Accepted.Ballots.{Commits, commit-Commits, Votes, vote-Votes}
use bachelor_project.OpenVote.Voting.Changing.{Changes, change_phase-Changes}

-- `result` with the energy of the call.
pub data Call : Type 0 where
  register_call : Option RegisterMessage → Call
  commit_call : Option CommitMessage → Call
  vote_call : Option VoteMessage → Call
  result_call : ℕ → Call
  change_call : Call

module _ (c : Curve) (h : Host) where
  abbrev pub credited : Amount → Election c h → Election c h
  credited x w = record w { chain = h.credit x w.chain }

  abbrev unpaid : {E A : Type 0} → Amount → Election c h → Outcome E A × Election c h → Election c h
  unpaid x w r = elim (x == 0) [ true ↦ bachelor_project.Contract.commit w r | false ↦ w ]

  -- Only `register` is payable.
  unfoldable pub transact : ReceiveContext → Amount → Call → Election c h → Election c h
  transact ctx x (register_call p) w =
      bachelor_project.Contract.commit w (register c h ctx p x (credited x w))
  transact ctx x (commit_call p) w = unpaid x w (commit c h ctx p (credited 0 w))
  transact ctx x (vote_call p) w = unpaid x w (vote c h ctx p (credited 0 w))
  transact ctx x (result_call fuel) w = unpaid x w (result c h fuel (credited 0 w))
  transact ctx x change_call w = unpaid x w (change_phase c h ctx (credited 0 w))

  -- What the calls that are accepted do.
  pub data Effect (ctx : ReceiveContext) (w v : Election c h) : Type 0 where
    registers :
        (p : Option RegisterMessage) (x : Amount) → Registers c h ctx p x w v → Effect ctx w v
    commits : (p : Option CommitMessage) → Commits c h ctx p w v → Effect ctx w v
    votes : (p : Option VoteMessage) → Votes c h ctx p w v → Effect ctx w v
    tallies :
        (yes no : ℕ)
        → v ≡ record w { state = record w.state { voting_result = (yes, no) } }
        → Effect ctx w v
    changes : (a : AccountAddress) → Changes c h a ctx.slot_time w v → Effect ctx w v

module _ (c : Curve) (h : Host) (laws : HostLaws h) (ctx : ReceiveContext) where
  result_tallies :
      (fuel : ℕ) (w : Election c h) {r : ℕ × ℕ}
      → (result c h fuel w).0 ≡ ok r
      → (result c h fuel w).1 ≡ record w { state = record w.state { voting_result = (r.0, r.1) } }
  unfolding result
  result_tallies fuel w e = ground arith

  unpaid_keeps :
      {E A : Type 0} (P : Election c h → Type 0) (x : Amount) (w : Election c h)
      (r : Outcome E A × Election c h)
      → P w
      → ((a : A) → r.0 ≡ ok a → P r.1)
      → P (unpaid c h x w r)
  unpaid_keeps P x w r before after = elim (Bool-cases (x == 0)) [
    | inl free ↦ rw (free, unpaid) (commit_keeps P w r before after)
    | inr paid ↦ rw (paid, unpaid) before
  ]

  -- A transaction keeps what every effect keeps.
  pub transact_keeps :
      (P : Election c h → Type 0) (x : Amount) (call : Call) (w : Election c h)
      → P w
      → ((y : Amount) (v : Election c h) → Effect c h ctx (credited c h y w) v → P v)
      → P (transact c h ctx x call w)
  unfolding transact
  transact_keeps P x (register_call p) w before after =
      commit_keeps P w (register c h ctx p x (credited c h x w)) before (λ a e.
        after x _ (Effect.registers p x (register-Registers c h ctx (credited c h x w) p x e)))
  transact_keeps P x (commit_call p) w before after =
      unpaid_keeps P x w (commit c h ctx p (credited c h 0 w)) before
        (λ a e. after 0 _ (Effect.commits p (commit-Commits c h ctx (credited c h 0 w) p e)))
  transact_keeps P x (vote_call p) w before after =
      unpaid_keeps P x w (vote c h ctx p (credited c h 0 w)) before
        (λ a e. after 0 _ (Effect.votes p (vote-Votes c h ctx (credited c h 0 w) p e)))
  transact_keeps P x (result_call fuel) w before after =
      unpaid_keeps P x w (result c h fuel (credited c h 0 w)) before
        (λ r e. after 0 _ (Effect.tallies r.0 r.1 (result_tallies fuel (credited c h 0 w) e)))
  transact_keeps P x change_call w before after =
      unpaid_keeps P x w (change_phase c h ctx (credited c h 0 w)) before (λ a e.
        let changed = change_phase-Changes c h laws ctx (credited c h 0 w) e in
        after 0 _ (Effect.changes changed.0 changed.2))

module _ (c : Curve) (h : Host) where
  -- Calls one after the other, each by a caller, with an amount.
  unfoldable pub run : List (ReceiveContext × Amount × Call) → Election c h → Election c h
  run [] w = w
  run ((ctx, x, call) ∷ calls) w = run calls (transact c h ctx x call w)

  -- A history keeps what every call keeps.
  pub run_keeps :
      (P : Election c h → Type 0)
      → ((ctx : ReceiveContext) (x : Amount) (call : Call) (w : Election c h)
          → P w
          → P (transact c h ctx x call w))
      → (calls : List (ReceiveContext × Amount × Call)) (w : Election c h) → P w
      → P (run calls w)
  unfolding run
  run_keeps P step [] w p = p
  run_keeps P step ((ctx, x, call) ∷ calls) w p =
      run_keeps P step calls (transact c h ctx x call w) (step ctx x call w p)
