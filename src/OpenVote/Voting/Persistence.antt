-- ===== src/OpenVote/Voting/Persistence.antt =====
-- open-vote-network/voting/src/lib.rs: what later calls can no longer change.
use mathlib.Core.Option.{some-injective}
use bachelor_project.Prelude.{
  ◌≡◌, refl, sym, ap, ◌∙◌, inl, inr, Bool, true, false, some, List, ◌==◌, Bool-cases, arith, length,
}
use bachelor_project.Contract.{AccountAddress, Amount, ReceiveContext, Host, HostLaws}
use bachelor_project.Contract.StateMap.{StateMap, lookup, insert, lookup-insert}
use bachelor_project.OpenVote.Curve.{Curve}
use bachelor_project.OpenVote.Types.{
  VotingPhase, is_phase, registration, commit, vote, result, abort, Voter, VotingState, is_given,
  default_voter, i32,
}
use bachelor_project.OpenVote.Voting.{Election, set_voters, all_voters, has_committed, has_voted}
use bachelor_project.OpenVote.Voting.Integrity.{phase_eq}
use bachelor_project.OpenVote.Voting.Accepted.{advance}
use bachelor_project.OpenVote.Voting.Changing.{stays, advances, aborts, next_phase, is_stalled}
use bachelor_project.OpenVote.Voting.History.{
  Call, credited, Effect, registers, commits, votes, tallies, changes, transact_keeps, run,
  run_keeps,
}

-- A voter stays the same but for commitments that are replaced before the vote and a first vote.
pub record Continues (old new : Voter) : Type 0 where
  pub same_key : new.voting_key ≡ old.voting_key
  pub same_vote : is_given old.vote ≡ true → new.vote ≡ old.vote

abbrev pub Registered : AccountAddress → Voter → VotingState → Type 0
Registered a old s = (new : Voter) × (lookup a s.voters ≡ some new) × Continues old new

abbrev pub is_over : VotingPhase → Bool
is_over result = true
is_over abort = true
is_over _ = false

Continues-trans : {old mid new : Voter} → Continues old mid → Continues mid new → Continues old new
Continues-trans k l = record {
  same_key = l.same_key ∙ k.same_key;
  same_vote = λ e. l.same_vote (ap is_given (k.same_vote e) ∙ e) ∙ k.same_vote e;
}

insert-Registered :
    (a b : AccountAddress) (old new : Voter) (s : VotingState)
    → Registered a old s
    → ((u : Voter) → lookup b s.voters ≡ some u → Continues u new)
    → (new' : Voter) × (lookup a (insert b new s.voters) ≡ some new') × Continues old new'
insert-Registered a b old new s (u, found, kept) step = elim (Bool-cases (b == a)) [
  | inl same ↦ (
    new,
    rw (lookup-insert b a new s.voters, same) refl,
    Continues-trans kept (step u (ground (arith, found))),
  )
  | inr other ↦ (u, rw (lookup-insert b a new s.voters, other) found, kept)
]

module _ (c : Curve) (h : Host) where
  advance_voters :
      (test : Bool) (p : VotingPhase) (w : Election c h)
      → (advance c h test p w).state.voters ≡ w.state.voters
  advance_voters true p w = refl
  advance_voters false p w = refl

  Effect-Registered :
      (ctx : ReceiveContext) (a : AccountAddress) (old : Voter) (w v : Election c h)
      → Registered a old w.state
      → Effect c h ctx w v
      → Registered a old v.state
  Effect-Registered ctx a old w v s (registers p x r) =
      let voter = record default_voter {
        voting_key = r.message.voting_key;
        voting_key_zkp = r.message.voting_key_zkp;
      } in
      let voters = insert r.sender voter w.state.voters in
      let same =
        advance_voters (i32 (length voters) == w.state.config.merkle_leaf_count) commit
          (set_voters c h voters w) in
      rw (ap (λ (u : Election c h). u.state.voters) r.after ∙ same) (
        insert-Registered a r.sender old voter w.state s
          (λ u found. ground (arith, found, r.fresh)))
  Effect-Registered ctx a old w v s (commits p r) =
      let voter = record r.voter {
        reconstructed_key = r.message.reconstructed_key;
        commitment = r.message.commitment;
      } in
      let voters = insert r.sender voter w.state.voters in
      let same = advance_voters (all_voters has_committed voters) vote (set_voters c h voters w) in
      rw (ap (λ (u : Election c h). u.state.voters) r.after ∙ same) (
        insert-Registered a r.sender old voter w.state s (λ u found.
          let same = some-injective u r.voter (sym found ∙ r.registered) in
          rw same (record { same_key = refl; same_vote = λ e. refl })))
  Effect-Registered ctx a old w v s (votes p r) =
      let voter = record r.voter { vote = r.message.vote; vote_zkp = r.message.vote_zkp } in
      let voters = insert r.sender voter w.state.voters in
      let same = advance_voters (all_voters has_voted voters) result (set_voters c h voters w) in
      rw (ap (λ (u : VotingState). u.voters) r.after ∙ same) (
        insert-Registered a r.sender old voter w.state s (λ u found.
          let same = some-injective u r.voter (sym found ∙ r.registered) in
          rw same (record { same_key = refl; same_vote = λ e. ground (arith, r.first) })))
  Effect-Registered ctx a old w v s (tallies y n after) = rw after s
  Effect-Registered ctx a old w v s (changes b (stays same)) = rw same s
  Effect-Registered ctx a old w v s (changes b (advances clear after)) = rw after s
  Effect-Registered ctx a old w v s (changes b (aborts r)) = rw (r.after, r.pays.same) s

  -- Whatever is called after a voter has registered, by whom and in whatever order, the voter stays
  -- registered with the same voting key, and a vote that was cast stays the same.
  pub run-Registered :
      (laws : HostLaws h) (a : AccountAddress) (old : Voter)
      (calls : List (ReceiveContext × Amount × Call)) (w : Election c h)
      → lookup a w.state.voters ≡ some old
      → Registered a old (run c h calls w).state
  run-Registered laws a old calls w found =
      run_keeps c h (λ v. Registered a old v.state)
        (λ ctx x call v before.
          transact_keeps c h laws ctx (λ u. Registered a old u.state) x call v before
            (λ y u e. Effect-Registered ctx a old (credited c h y v) u before e))
        calls w (old, found, record { same_key = refl; same_vote = λ e. refl })

  over_elsewhere :
      {C : Type 0} (p q : VotingPhase)
      → is_over p ≡ true
      → is_over q ≡ false
      → is_phase p q ≡ true
      → C
  over_elsewhere p q over open' e = ground (arith, phase_eq p q e)

  next_over : (p : VotingPhase) → is_over p ≡ true → next_phase p ≡ p
  next_over result over = refl
  next_over abort over = refl
  next_over _ over = ground arith

  over_unstalled :
      (p : VotingPhase) (voters : StateMap Voter) → is_over p ≡ true → is_stalled p voters ≡ false
  over_unstalled result voters over = refl
  over_unstalled abort voters over = refl
  over_unstalled _ voters over = ground arith

  -- The phase and the voters are those that are given.
  abbrev pub Rests : VotingPhase → StateMap Voter → VotingState → Type 0
  Rests p voters s = (s.voting_phase ≡ p) × (s.voters ≡ voters)

  Effect-Rests :
      (ctx : ReceiveContext) (p : VotingPhase) (voters : StateMap Voter) (w v : Election c h)
      → is_over p ≡ true
      → Rests p voters w.state
      → Effect c h ctx w v
      → Rests p voters v.state
  Effect-Rests ctx p voters w v over (at, same) e =
      let here = ap is_over at ∙ over in
      elim e [
        | registers m x r ↦ over_elsewhere w.state.voting_phase registration here refl r.in_phase
        | commits m r ↦ over_elsewhere w.state.voting_phase commit here refl r.in_phase
        | votes m r ↦ over_elsewhere w.state.voting_phase vote here refl r.in_phase
        | tallies y n after ↦ rw after (at, same)
        | changes b change ↦ elim change [
          | stays still ↦ rw still (at, same)
          | advances clear after ↦ rw after (next_over w.state.voting_phase here ∙ at, same)
          | aborts r ↦
              ground (arith, r.stalled, over_unstalled w.state.voting_phase w.state.voters here)
        ]
      ]

  -- Once the phase is `Result` or `Abort`, no call changes the phase or any voter.
  pub run-Rests :
      (laws : HostLaws h) (calls : List (ReceiveContext × Amount × Call)) (w : Election c h)
      → is_over w.state.voting_phase ≡ true
      → Rests w.state.voting_phase w.state.voters (run c h calls w).state
  run-Rests laws calls w over =
      let p = w.state.voting_phase in
      let voters = w.state.voters in
      run_keeps c h (λ v. Rests p voters v.state)
        (λ ctx x call v before.
          transact_keeps c h laws ctx (λ u. Rests p voters u.state) x call v before
            (λ y u e. Effect-Rests ctx p voters (credited c h y v) u over before e))
        calls w (refl, refl)
