-- ===== src/OpenVote/Voting/Integrity.antt =====
-- open-vote-network/voting/src/lib.rs: what is known of every voter is kept by every call.
use mathlib.Core.Path.{subst}
use bachelor_project.Prelude.{
  ◌≡◌, refl, Bool, true, false, Option, List, [], ◌∷◌, ◌==◌, arith, length,
}
use bachelor_project.Contract.{AccountAddress, Amount, Timestamp, ReceiveContext, Host, HostLaws}
use bachelor_project.Contract.StateMap.{StateMap, insert}
use bachelor_project.OpenVote.Curve.{Curve}
use bachelor_project.OpenVote.Types.{
  i32, VotingPhase, is_phase, registration, commit, vote, result, abort, Voter, VotingState,
  default_voter, RegisterMessage, CommitMessage, VoteMessage,
}
use bachelor_project.OpenVote.Voting.{all_voters, has_committed, has_voted, Election, set_voters}
use bachelor_project.OpenVote.Voting.Accepted.{advance, Registers}
use bachelor_project.OpenVote.Voting.Accepted.Ballots.{Commits, Votes}
use bachelor_project.OpenVote.Voting.Changing.{
  next_phase, is_stalled, Changes, stays, advances, aborts,
}
use bachelor_project.OpenVote.Voting.History.{
  Call, credited, Effect, registers, commits, votes, tallies, changes, transact_keeps, run,
  run_keeps,
}
use bachelor_project.OpenVote.Voting.Soundness.{
  EachVoter, EachVoter-insert, EachVoter-lookup, EachVoter-map, Sound, asks, advance-Sound,
  abort-Sound,
}

pub phase_eq : (p q : VotingPhase) → is_phase p q ≡ true → p ≡ q
phase_eq registration registration e = refl
phase_eq commit commit e = refl
phase_eq vote vote e = refl
phase_eq result result e = refl
phase_eq abort abort e = refl
phase_eq _ _ e = ground arith

module _ (c : Curve) where
  -- Every voter has registered with a point and a valid proof of knowledge; in the vote and result
  -- phases everybody has committed, before them nobody has voted, and in the result phase all
  -- have; and every vote was committed to and is kept with a valid one-in-two proof.
  abbrev pub IsSound : VotingState → Type 0
  IsSound s = EachVoter (Sound c s.voting_phase) s.voters

  all_free : (voters : StateMap Voter) → all_voters (asks c registration) voters ≡ true
  all_free [] = refl
  all_free (e ∷ voters) = all_free voters

  advance_all :
      (p : VotingPhase) (voters : StateMap Voter)
      → all_voters (asks c p) voters ≡ true
      → EachVoter (Sound c p) voters
      → EachVoter (Sound c (next_phase p)) voters
  advance_all p voters met s =
      EachVoter-map {P = Sound c p} (asks c p) (advance-Sound c p) voters met s

  abort_all :
      (p : VotingPhase) (voters : StateMap Voter)
      → EachVoter (Sound c p) voters
      → EachVoter (Sound c abort) voters
  abort_all p [] s = tt
  abort_all p ((a, v) ∷ voters) s = (abort-Sound c p v s.0, abort_all p voters s.1)

module _ (c : Curve) (h : Host) where
  advance-IsSound :
      (test : Bool) (p : VotingPhase) (voters : StateMap Voter) (w : Election c h)
      → w.state.voting_phase ≡ p
      → EachVoter (Sound c p) voters
      → (test ≡ true → all_voters (asks c p) voters ≡ true)
      → IsSound c (advance c h test (next_phase p) (set_voters c h voters w)).state
  advance-IsSound true p voters w at s met = advance_all c p voters (met refl) s
  advance-IsSound false p voters w at s met = rw at s

  Registers-IsSound :
      (ctx : ReceiveContext) (m : Option RegisterMessage) (x : Amount) (w v : Election c h)
      → IsSound c w.state
      → Registers c h ctx m x w v
      → IsSound c v.state
  Registers-IsSound ctx m x w v s r =
      let at = phase_eq w.state.voting_phase registration r.in_phase in
      let voter = record default_voter {
        voting_key = r.message.voting_key;
        voting_key_zkp = r.message.voting_key_zkp;
      } in
      let voters = insert r.sender voter w.state.voters in
      rw r.after (
        advance-IsSound (i32 (length voters) == w.state.config.merkle_leaf_count) registration
          voters w at
          (EachVoter-insert (Sound c registration) r.sender voter w.state.voters
            (record {
              key = r.key;
              key_read = r.key_read;
              key_proved = r.proved;
              has_commitment = λ e. ground arith;
              unvoted = λ e. refl;
              checked = λ e. ground arith;
              counted = λ e. ground arith;
            })
            (subst (λ p. EachVoter (Sound c p) w.state.voters) at s))
          (λ e. all_free c voters))

  Commits-IsSound :
      (ctx : ReceiveContext) (m : Option CommitMessage) (w v : Election c h)
      → IsSound c w.state
      → Commits c h ctx m w v
      → IsSound c v.state
  Commits-IsSound ctx m w v s r =
      let at = phase_eq w.state.voting_phase commit r.in_phase in
      let s' = subst (λ p. EachVoter (Sound c p) w.state.voters) at s in
      let old = EachVoter-lookup (Sound c commit) r.sender w.state.voters s' r.registered in
      let voter = record r.voter {
        reconstructed_key = r.message.reconstructed_key;
        commitment = r.message.commitment;
      } in
      let voters = insert r.sender voter w.state.voters in
      rw r.after (
        advance-IsSound (all_voters has_committed voters) commit voters w at
          (EachVoter-insert (Sound c commit) r.sender voter w.state.voters
            (record {
              key = old.key;
              key_read = old.key_read;
              key_proved = old.key_proved;
              has_commitment = λ e. ground arith;
              unvoted = old.unvoted;
              checked = λ e. ground (arith, old.unvoted refl);
              counted = λ e. ground arith;
            })
            s')
          (λ e. e))

  Votes-IsSound :
      (ctx : ReceiveContext) (m : Option VoteMessage) (w v : Election c h)
      → IsSound c w.state
      → Votes c h ctx m w v
      → IsSound c v.state
  Votes-IsSound ctx m w v s r =
      let at = phase_eq w.state.voting_phase vote r.in_phase in
      let s' = subst (λ p. EachVoter (Sound c p) w.state.voters) at s in
      let old = EachVoter-lookup (Sound c vote) r.sender w.state.voters s' r.registered in
      let voter = record r.voter { vote = r.message.vote; vote_zkp = r.message.vote_zkp } in
      let voters = insert r.sender voter w.state.voters in
      rw r.after (
        advance-IsSound (all_voters has_voted voters) vote voters w at
          (EachVoter-insert (Sound c vote) r.sender voter w.state.voters
            (record {
              key = old.key;
              key_read = old.key_read;
              key_proved = old.key_proved;
              has_commitment = λ e. old.has_commitment refl;
              unvoted = λ e. ground arith;
              checked = λ e. record {
                point = r.point;
                g_y = r.g_y;
                vote_read = r.vote_read;
                key_read = r.key_read;
                proved = r.proved;
                committed = r.committed;
              };
              counted = λ e. ground arith;
            })
            s')
          (λ e. e))

module _ (c : Curve) (h : Host) where
  all_asked :
      (p : VotingPhase) (voters : StateMap Voter)
      → is_stalled p voters ≡ false
      → all_voters (asks c p) voters ≡ true
  all_asked registration voters clear = all_free c voters
  all_asked commit voters clear = ground arith
  all_asked vote voters clear = ground arith
  all_asked result voters clear = all_free c voters
  all_asked abort voters clear = all_free c voters

  Changes-IsSound :
      (a : AccountAddress) (now : Timestamp) (w v : Election c h)
      → IsSound c w.state
      → Changes c h a now w v
      → IsSound c v.state
  Changes-IsSound a now w v s (stays same) = rw same s
  Changes-IsSound a now w v s (advances clear after) =
      let p = w.state.voting_phase in
      rw after (advance_all c p w.state.voters (all_asked p w.state.voters clear) s)
  Changes-IsSound a now w v s (aborts r) =
      rw (r.after, r.pays.same) (abort_all c w.state.voting_phase w.state.voters s)

  Effect-IsSound :
      (ctx : ReceiveContext) (w v : Election c h)
      → IsSound c w.state
      → Effect c h ctx w v
      → IsSound c v.state
  Effect-IsSound ctx w v s (registers p x r) = Registers-IsSound c h ctx p x w v s r
  Effect-IsSound ctx w v s (commits p r) = Commits-IsSound c h ctx p w v s r
  Effect-IsSound ctx w v s (votes p r) = Votes-IsSound c h ctx p w v s r
  Effect-IsSound ctx w v s (tallies y n after) = rw after s
  Effect-IsSound ctx w v s (changes a r) = Changes-IsSound a ctx.slot_time w v s r

  -- After any calls by anyone, in any order, accepted or not, of an election that starts sound:
  -- every voter has registered with a point as key and a valid proof of knowledge; nobody has voted
  -- before the vote phase; in the vote and result phases everybody has committed, and in the
  -- result phase everybody has voted; and every vote is a point that its voter committed to, and is
  -- kept with a one-in-two proof that is valid under the voter's reconstructed key.
  pub run-Sound :
      (laws : HostLaws h) (calls : List (ReceiveContext × Amount × Call)) (w : Election c h)
      → IsSound c w.state
      → IsSound c (run c h calls w).state
  run-Sound laws calls w s =
      run_keeps c h (λ v. IsSound c v.state)
        (λ ctx x call v before.
          transact_keeps c h laws ctx (λ u. IsSound c u.state) x call v before
            (λ y u e. Effect-IsSound ctx (credited c h y v) u before e))
        calls w s
