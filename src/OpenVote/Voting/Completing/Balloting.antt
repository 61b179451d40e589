-- ===== src/OpenVote/Voting/Completing/Balloting.antt =====
-- open-vote-network/voting/src/lib.rs: the vote phase of an election of given voters.
use bachelor_project.Prelude.{
  ℕ, suc, ◌+◌, ◌≤◌, ◌≡◌, refl, ap, ◌∙◌, none, some, List, [], ◌∷◌, length, ◌==◌, arith,
}
use bachelor_project.Contract.{
  AccountAddress, Amount, Host, HostLaws, Outcome, ok, account, ReceiveContext, Timestamp,
}
use bachelor_project.Contract
use bachelor_project.Contract.StateMap.{StateMap, insert}
use bachelor_project.Contract.StateMap.Sums.{
  numbers, count, weigh-insert_old, weigh-insert_same, length-insert_old, one_if,
}
use bachelor_project.OpenVote.Curve.{Curve, CurveLaws}
use bachelor_project.OpenVote.Util.{convert_vec_to_point}
use bachelor_project.OpenVote.Types.{VotingPhase, Voter, VoteConfig}
use bachelor_project.OpenVote.Voting.{Election, has_committed, has_voted, all_voters}
use bachelor_project.OpenVote.Voting.History.{Call, vote_call, credited, transact, run}
use bachelor_project.OpenVote.Voting.Completing.Accepts.{vote_accepts}
use bachelor_project.OpenVote.Voting.Completing.Seats.{
  Seat, Holds, Passes, AllPass, none_left, one_more, voted_entry, all_voters-count, read-given,
  committed_entry, shift, Holds-shift, deposits,
}
use bachelor_project.OpenVote.Voting.Completing.Stages.{
  point_or_identity, phase_for, is_last, by, points, vote_point, sum_of, settled, advance_settles,
  Stage, Stage-next,
}

module _ (owner : AccountAddress) (clock : Seat → Timestamp) where
  -- Every voter votes.
  abbrev pub vote_calls : List Seat → List (ReceiveContext × Amount × Call)
  vote_calls [] = []
  vote_calls (s ∷ seats) = (by owner clock s, 0, vote_call (some s.voting)) ∷ vote_calls seats

-- The votes added one by one.
abbrev pub add_all : (c : Curve) → c.Point → List c.Point → c.Point
add_all c sum [] = sum
add_all c sum (p ∷ ps) = add_all c (c.add p sum) ps

module _ (c : Curve) (laws : CurveLaws c) (h : Host) (host_laws : HostLaws h) (config : VoteConfig)
    (owner : AccountAddress) (clock : Seat → Timestamp)
    (in_time : (s : Seat) → clock s ≤ config.vote_timeout) (n : ℕ) where
  abbrev pub Voting : VotingPhase → List Seat → List Seat → c.Point → Amount → Election c h → Type 0
  Voting phase done todo sum funds w =
      Stage c laws h config phase (λ s. some (voted_entry c h s))
        (λ s. some (committed_entry c h s)) done todo n n (length done) sum funds w

  vote_unread : (s : Seat) → vote_point c (committed_entry c h s) ≡ c.identity
  unfolding convert_vec_to_point
  vote_unread s = ground (arith, laws.no_bytes)

  last_one : (k : ℕ) (todo : List Seat) → suc k + length todo ≡ n → (suc k == n) ≡ is_last todo
  last_one k [] e = ground arith
  last_one k (s ∷ todo) e = ground arith

  module _ (done todo : List Seat) (s : Seat) (p sum : c.Point) (w : Election c h)
      (g : Voting VotingPhase.vote done (s ∷ todo) sum (deposits config.deposit (s ∷ todo)) w)
      (passes : Passes c h config s p) (all : length done + length (s ∷ todo) ≡ n) where
    abbrev voters : StateMap Voter
    voters = insert s.voter (voted_entry c h s) w.state.voters

    -- The deposit is paid back.
    abbrev refunded : Election c h
    refunded = record (credited c h 0 w) {
      chain = (h.invoke_transfer s.voter w.state.config.deposit (h.credit 0 w.chain)).1;
    }

    covered : w.state.config.deposit ≤ h.self_balance (h.credit 0 w.chain)
    covered =
        omega
          (arith, g.funded, host_laws.credit_balance 0 w.chain, ap (λ k. k.deposit) g.configured)

    made : (h.invoke_transfer s.voter w.state.config.deposit (h.credit 0 w.chain)).0 ≡ none
    made =
        host_laws.transfer_made s.voter w.state.config.deposit (h.credit 0 w.chain) passes.known
          covered

    same_size : length voters ≡ n
    same_size =
        length-insert_old s.voter (voted_entry c h s) (committed_entry c h s) w.state.voters
          g.ordered g.todo_entries.0
        ∙ g.sized

    counted : count has_voted voters ≡ suc (length done)
    counted =
        let one : one_if (has_voted (voted_entry c h s)) ≡ 1 =
          ap one_if (read-given c laws s.voting.vote passes.vote_read) in
        omega (
          arith,
          weigh-insert_old numbers (λ v. one_if (has_voted v)) s.voter (voted_entry c h s)
              (committed_entry c h s) w.state.voters g.ordered g.todo_entries.0 refl,
          g.voted_so_far,
          one,
        )

    votes :
        transact c h (by owner clock s) 0 (vote_call (some s.voting)) w
        ≡ settled c laws h config
            (phase_for VotingPhase.result VotingPhase.vote todo)
            voters
            refunded
    unfolding transact
    votes =
        ap (bachelor_project.Contract.commit w) (
          vote_accepts c h (by owner clock s) (credited c h 0 w) s.voter refl s.voting
            (committed_entry c h s) passes.g_y p g.at (rw g.configured (in_time s)) g.todo_entries.0
            refl passes.key_reconstructed passes.vote_proved passes.vote_read passes.committed made)
        ∙ ap (λ (v : Election c h). record v { chain = refunded.chain })
            (advance_settles c laws h config (all_voters has_voted voters) VotingPhase.result
              VotingPhase.vote todo voters (credited c h 0 w)
              (all_voters-count has_voted voters
                ∙ rw (counted, same_size) (last_one (length done) todo (omega (arith, all))))
              g.at)

    committed_still : count has_committed voters ≡ n
    committed_still =
        weigh-insert_same numbers (λ v. one_if (has_committed v)) s.voter (voted_entry c h s)
          (committed_entry c h s) w.state.voters g.ordered g.todo_entries.0 refl
        ∙ g.committed_so_far

    vote_step :
        Voting
          (phase_for VotingPhase.result VotingPhase.vote todo)
          (s ∷ done)
          todo
          (c.add p sum)
          (deposits config.deposit todo)
          (transact c h (by owner clock s) 0 (vote_call (some s.voting)) w)
    vote_step =
        let read : vote_point c (voted_entry c h s) ≡ p =
          ap (point_or_identity c) passes.vote_read in
        rw votes (
          Stage-next c laws h config VotingPhase.result VotingPhase.vote _ _ done todo s
            (voted_entry c h s) w refunded g refl same_size committed_still counted
            (weigh-insert_old (points c laws) (vote_point c) s.voter (voted_entry c h s)
                (committed_entry c h s) w.state.voters g.ordered g.todo_entries.0 (vote_unread s)
              ∙ ap (λ q. c.add q (sum_of c laws h config w.state.voters)) read
              ∙ ap (c.add p) g.summed)
            refl
            (omega (
              arith,
              g.funded,
              host_laws.credit_balance 0 w.chain,
              host_laws.transfer_pays s.voter w.state.config.deposit (h.credit 0 w.chain) made,
              ap (λ k. k.deposit) g.configured,
            )))

  vote_all :
      (done todo : List Seat) (ps : List c.Point) (sum : c.Point) (w : Election c h)
      → Voting
          (phase_for VotingPhase.result VotingPhase.vote todo)
          done
          todo
          sum
          (deposits config.deposit todo)
          w
      → AllPass c h config todo ps
      → length done + length todo ≡ n
      → Voting VotingPhase.result
          (shift done todo)
          []
          (add_all c sum ps)
          0
          (run c h (vote_calls owner clock todo) w)
  unfolding run
  vote_all done [] [] sum w g none_left all = g
  vote_all done [] (p ∷ ps) sum w g pass all = elim pass [ ]
  vote_all done (s ∷ todo) [] sum w g pass all = elim pass [ ]
  vote_all done (s ∷ todo) (p ∷ ps) sum w g (one_more passes rest) all =
      vote_all (s ∷ done) todo ps (c.add p sum) _ (vote_step done todo s p sum w g passes all) rest
        (omega (arith, all))

  -- After all have voted, the phase is Result and the sum of the votes is that of the points.
  pub voted_all :
      (s : Seat) (seats : List Seat) (ps : List c.Point) (w : Election c h)
      → Voting VotingPhase.vote [] (s ∷ seats) c.identity (deposits config.deposit (s ∷ seats)) w
      → AllPass c h config (s ∷ seats) ps
      → length (s ∷ seats) ≡ n
      → let v = run c h (vote_calls owner clock (s ∷ seats)) w in
        (v.state.voting_phase ≡ VotingPhase.result)
        × (length v.state.voters ≡ n)
        × (sum_of c laws h config v.state.voters ≡ add_all c c.identity ps)
        × Holds (λ t. some (voted_entry c h t)) v.state.voters (s ∷ seats)
  voted_all s seats ps w g pass all =
      let v = run c h (vote_calls owner clock (s ∷ seats)) w in
      let r = vote_all [] (s ∷ seats) ps c.identity w g pass (omega (arith, all)) in
      (
        r.at,
        r.sized,
        r.summed,
        (Holds-shift (λ t. some (voted_entry c h t)) v.state.voters [] (s ∷ seats)
            r.done_entries).1,
      )
