-- ===== src/OpenVote/Voting/Completing/Committing.antt =====
-- open-vote-network/voting/src/lib.rs: the commit phase of an election of given voters.
use bachelor_project.Prelude.{
  ℕ, suc, ◌+◌, ◌≤◌, ◌≡◌, refl, ap, ◌∙◌, true, some, List, [], ◌∷◌, length, ◌==◌, arith,
}
use bachelor_project.Contract.{
  AccountAddress, Amount, Host, HostLaws, Outcome, ok, account, ReceiveContext, Timestamp,
}
use bachelor_project.Contract
use bachelor_project.Contract.StateMap.{StateMap, insert}
use bachelor_project.Contract.StateMap.Sums.{
  numbers, count, weigh-insert_old, length-insert_old, one_if,
}
use bachelor_project.OpenVote.Curve.{Curve, CurveLaws}
use bachelor_project.OpenVote.Util.{convert_vec_to_point}
use bachelor_project.OpenVote.Types.{VotingPhase, Voter, VoteConfig, is_given}
use bachelor_project.OpenVote.Voting.{Election, has_committed, has_voted, all_voters}
use bachelor_project.OpenVote.Voting.History.{Call, commit_call, credited, transact, run}
use bachelor_project.OpenVote.Voting.Completing.Accepts.{commit_accepts}
use bachelor_project.OpenVote.Voting.Completing.Seats.{
  Seat, Passes, AllPass, none_left, one_more, voted_entry, all_voters-count, read-given, entry,
  committed_entry, shift, Holds-shift, length-shift, Apart-none,
}
use bachelor_project.OpenVote.Voting.Completing.Stages.{
  phase_for, is_last, by, points, vote_point, sum_of, settled, advance_settles, Stage, Stage-next,
}

module _ (owner : AccountAddress) (clock : Seat → Timestamp) where
  -- Every voter commits.
  abbrev pub commit_calls : List Seat → List (ReceiveContext × Amount × Call)
  commit_calls [] = []
  commit_calls (s ∷ seats) =
      (by owner clock s, 0, commit_call (some s.committing)) ∷ commit_calls seats

module _ (c : Curve) (laws : CurveLaws c) (h : Host) (host_laws : HostLaws h) (config : VoteConfig)
    (owner : AccountAddress) (clock : Seat → Timestamp)
    (in_time : (s : Seat) → clock s ≤ config.commit_timeout) (n : ℕ) where
  abbrev pub Committing : VotingPhase → List Seat → List Seat → Amount → Election c h → Type 0
  Committing phase done todo funds w =
      Stage c laws h config phase (λ s. some (committed_entry c h s)) (λ s. some (entry c h s)) done
        todo n (length done) 0 c.identity funds w

  vote_unread :
      (s : Seat)
      → (vote_point c (entry c h s) ≡ c.identity)
        × (vote_point c (committed_entry c h s) ≡ c.identity)
  unfolding convert_vec_to_point
  vote_unread s = (ground (arith, laws.no_bytes), ground (arith, laws.no_bytes))

  last_one : (k : ℕ) (todo : List Seat) → suc k + length todo ≡ n → (suc k == n) ≡ is_last todo
  last_one k [] e = ground arith
  last_one k (s ∷ todo) e = ground arith

  module _ (done todo : List Seat) (s : Seat) (p : c.Point) (funds : Amount) (w : Election c h)
      (g : Committing VotingPhase.commit done (s ∷ todo) funds w) (passes : Passes c h config s p)
      (all : length done + length (s ∷ todo) ≡ n) where
    abbrev voters : StateMap Voter
    voters = insert s.voter (committed_entry c h s) w.state.voters

    key_given : is_given s.committing.reconstructed_key ≡ true
    key_given = read-given c laws s.committing.reconstructed_key passes.key_reconstructed

    same_size : length voters ≡ n
    same_size =
        length-insert_old s.voter (committed_entry c h s) (entry c h s) w.state.voters g.ordered
          g.todo_entries.0
        ∙ g.sized

    counted : count has_committed voters ≡ suc (length done)
    counted =
        let one : one_if (has_committed (committed_entry c h s)) ≡ 1 =
          ground (arith, key_given, passes.given) in
        omega (
          arith,
          weigh-insert_old numbers (λ v. one_if (has_committed v)) s.voter (committed_entry c h s)
              (entry c h s) w.state.voters g.ordered g.todo_entries.0 refl,
          g.committed_so_far,
          one,
        )

    commits :
        transact c h (by owner clock s) 0 (commit_call (some s.committing)) w
        ≡ settled c laws h config
            (phase_for VotingPhase.vote VotingPhase.commit todo)
            voters
            (credited c h 0 w)
    unfolding transact
    commits =
        ap (bachelor_project.Contract.commit w) (
          commit_accepts c h (by owner clock s) (credited c h 0 w) s.voter refl s.committing
            (entry c h s) key_given passes.given g.at (rw g.configured (in_time s))
            g.todo_entries.0)
        ∙ advance_settles c laws h config (all_voters has_committed voters) VotingPhase.vote
            VotingPhase.commit todo voters (credited c h 0 w)
            (all_voters-count has_committed voters
              ∙ rw (counted, same_size) (last_one (length done) todo (omega (arith, all))))
            g.at

    commit_step :
        Committing
          (phase_for VotingPhase.vote VotingPhase.commit todo)
          (s ∷ done)
          todo
          funds
          (transact c h (by owner clock s) 0 (commit_call (some s.committing)) w)
    commit_step = rw commits (
        Stage-next c laws h config VotingPhase.vote VotingPhase.commit _ _ done todo s
          (committed_entry c h s) w (credited c h 0 w) g refl same_size counted
          (omega (
            arith,
            weigh-insert_old numbers (λ v. one_if (has_voted v)) s.voter (committed_entry c h s)
                (entry c h s) w.state.voters g.ordered g.todo_entries.0 refl,
            g.voted_so_far,
          ))
          (weigh-insert_old (points c laws) (vote_point c) s.voter (committed_entry c h s)
              (entry c h s) w.state.voters g.ordered g.todo_entries.0 (vote_unread s).0
            ∙ ap (λ q. c.add q (sum_of c laws h config w.state.voters)) (vote_unread s).1
            ∙ laws.add_comm c.identity (sum_of c laws h config w.state.voters)
            ∙ laws.add-identity (sum_of c laws h config w.state.voters)
            ∙ g.summed)
          refl (omega (arith, g.funded, host_laws.credit_balance 0 w.chain)))

  commit_all :
      (done todo : List Seat) (ps : List c.Point) (funds : Amount) (w : Election c h)
      → Committing (phase_for VotingPhase.vote VotingPhase.commit todo) done todo funds w
      → AllPass c h config todo ps
      → length done + length todo ≡ n
      → Committing VotingPhase.vote
          (shift done todo)
          []
          funds
          (run c h (commit_calls owner clock todo) w)
  unfolding run
  commit_all done [] [] funds w g none_left all = g
  commit_all done [] (p ∷ ps) funds w g pass all = elim pass [ ]
  commit_all done (s ∷ todo) [] funds w g pass all = elim pass [ ]
  commit_all done (s ∷ todo) (p ∷ ps) funds w g (one_more passes rest) all =
      commit_all (s ∷ done) todo ps funds _ (commit_step done todo s p funds w g passes all) rest
        (omega (arith, all))

  -- After all have committed, each is to vote.
  pub committed_all :
      (s : Seat) (seats : List Seat) (ps : List c.Point) (funds : Amount) (w : Election c h)
      → Committing VotingPhase.commit [] (s ∷ seats) funds w
      → AllPass c h config (s ∷ seats) ps
      → length (s ∷ seats) ≡ n
      → Stage c laws h config VotingPhase.vote
          (λ t. some (voted_entry c h t))
          (λ t. some (committed_entry c h t))
          []
          (s ∷ seats)
          n
          n
          0
          c.identity
          funds
          (run c h (commit_calls owner clock (s ∷ seats)) w)
  committed_all s seats ps funds w g pass all =
      let v = run c h (commit_calls owner clock (s ∷ seats)) w in
      let r = commit_all [] (s ∷ seats) ps funds w g pass (omega (arith, all)) in
      record {
        at = r.at;
        configured = r.configured;
        ordered = r.ordered;
        sized = r.sized;
        committed_so_far = r.committed_so_far ∙ length-shift [] (s ∷ seats) ∙ omega (arith, all);
        voted_so_far = r.voted_so_far;
        summed = r.summed;
        done_entries = tt;
        todo_entries =
            (Holds-shift (λ t. some (committed_entry c h t)) v.state.voters [] (s ∷ seats)
              r.done_entries).1;
        apart = Apart-none (s ∷ seats);
        distinct = g.distinct;
        funded = r.funded;
      }
