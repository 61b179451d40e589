-- ===== src/OpenVote/Voting/Completing/Registering.antt =====
-- open-vote-network/voting/src/lib.rs: the registration phase of an election of given voters.
use bachelor_project.Prelude.{
  ℕ, suc, ◌+◌, ◌≤◌, ◌<◌, ◌≡◌, refl, ap, ◌∙◌, some, List, [], ◌∷◌, length, ◌==◌, arith,
}
use bachelor_project.Contract.{
  AccountAddress, Amount, Host, HostLaws, Outcome, ok, account, ReceiveContext, Timestamp,
}
use bachelor_project.Contract
use bachelor_project.Contract.StateMap.{StateMap, insert}
use bachelor_project.Contract.StateMap.Sums.{numbers, weigh-insert_new, length-insert_new, one_if}
use bachelor_project.OpenVote.Curve.{Curve, CurveLaws}
use bachelor_project.OpenVote.Util.{convert_vec_to_point}
use bachelor_project.OpenVote.Types.{i32, VotingPhase, Voter, VoteConfig}
use bachelor_project.OpenVote.Voting.{Election, has_committed, has_voted}
use bachelor_project.OpenVote.Voting.History.{Call, register_call, credited, transact, run}
use bachelor_project.OpenVote.Voting.Completing.Accepts.{register_accepts}
use bachelor_project.OpenVote.Voting.Completing.Seats.{
  Seat, Passes, AllPass, none_left, one_more, unregistered, entry, committed_entry, shift,
  Holds-shift, length-shift, deposits, Apart-none,
}
use bachelor_project.OpenVote.Voting.Completing.Stages.{
  phase_for, is_last, by, points, vote_point, sum_of, settled, advance_settles, Stage, Stage-next,
}

plus_zero : (a : ℕ) → a + 0 ≡ a
plus_zero a = omega arith

plus_more : (a b d : ℕ) → a + (b + d) ≡ (a + b) + d
plus_more a b d = omega arith

module _ (owner : AccountAddress) (clock : Seat → Timestamp) (deposit : Amount) where
  -- Every voter registers with the deposit.
  abbrev pub register_calls : List Seat → List (ReceiveContext × Amount × Call)
  register_calls [] = []
  register_calls (s ∷ seats) =
      (by owner clock s, deposit, register_call (some s.registering)) ∷ register_calls seats

module _ (c : Curve) (laws : CurveLaws c) (h : Host) (host_laws : HostLaws h) (config : VoteConfig)
    (owner : AccountAddress) (clock : Seat → Timestamp)
    (in_time : (s : Seat) → clock s ≤ config.registration_timeout)
    (few : config.merkle_leaf_count < 4294967296) where
  abbrev pub Registering : VotingPhase → List Seat → List Seat → Amount → Election c h → Type 0
  Registering phase done todo funds w =
      Stage c laws h config phase (λ s. some (entry c h s)) (unregistered c h) done todo
        (length done) 0 0 c.identity funds w

  vote_unread : (s : Seat) → vote_point c (entry c h s) ≡ c.identity
  unfolding convert_vec_to_point
  vote_unread s = ground (arith, laws.no_bytes)

  last_one :
      (k : ℕ) (todo : List Seat)
      → suc k + length todo ≡ config.merkle_leaf_count
      → (i32 (suc k) == config.merkle_leaf_count) ≡ is_last todo
  last_one k [] e = ground arith
  last_one k (s ∷ todo) e = ground arith

  module _ (done todo : List Seat) (s : Seat) (p : c.Point) (funds : Amount) (w : Election c h)
      (g : Registering VotingPhase.registration done (s ∷ todo) funds w)
      (passes : Passes c h config s p)
      (all : length done + length (s ∷ todo) ≡ config.merkle_leaf_count) where
    abbrev voters : StateMap Voter
    voters = insert s.voter (entry c h s) w.state.voters

    grown : length voters ≡ suc (length done)
    grown = length-insert_new s.voter (entry c h s) w.state.voters g.todo_entries.0 ∙ ap suc g.sized

    registers :
        transact c h (by owner clock s) config.deposit (register_call (some s.registering)) w
        ≡ settled c laws h config
            (phase_for VotingPhase.commit VotingPhase.registration todo)
            voters
            (credited c h config.deposit w)
    unfolding transact
    registers =
        ap (bachelor_project.Contract.commit w) (
          register_accepts c h (by owner clock s) (credited c h config.deposit w) s.voter refl
            s.registering config.deposit passes.key (ap (λ k. k.deposit) g.configured) g.at
            (rw g.configured passes.authorized) (rw g.configured (in_time s)) g.todo_entries.0
            passes.key_read passes.key_proved)
        ∙ advance_settles c laws h config (i32 (length voters) == w.state.config.merkle_leaf_count)
            VotingPhase.commit VotingPhase.registration todo voters (credited c h config.deposit w)
            (rw (grown, g.configured) (last_one (length done) todo (omega (arith, all)))) g.at

    register_step :
        Registering
          (phase_for VotingPhase.commit VotingPhase.registration todo)
          (s ∷ done)
          todo
          (funds + config.deposit)
          (transact c h (by owner clock s) config.deposit (register_call (some s.registering)) w)
    register_step =
        let fresh = g.todo_entries.0 in
        rw registers (
          Stage-next c laws h config VotingPhase.commit VotingPhase.registration _ _ done todo s
            (entry c h s) w (credited c h config.deposit w) g refl grown
            (omega (
              arith,
              weigh-insert_new numbers (λ v. one_if (has_committed v)) s.voter (entry c h s)
                  w.state.voters fresh,
              g.committed_so_far,
            ))
            (omega (
              arith,
              weigh-insert_new numbers (λ v. one_if (has_voted v)) s.voter (entry c h s)
                  w.state.voters fresh,
              g.voted_so_far,
            ))
            (weigh-insert_new (points c laws) (vote_point c) s.voter (entry c h s) w.state.voters
                fresh
              ∙ ap (λ q. c.add q (sum_of c laws h config w.state.voters)) (vote_unread s)
              ∙ laws.add_comm c.identity (sum_of c laws h config w.state.voters)
              ∙ laws.add-identity (sum_of c laws h config w.state.voters)
              ∙ g.summed)
            refl (omega (arith, g.funded, host_laws.credit_balance config.deposit w.chain)))

  register_all :
      (done todo : List Seat) (ps : List c.Point) (funds : Amount) (w : Election c h)
      → Registering (phase_for VotingPhase.commit VotingPhase.registration todo) done todo funds w
      → AllPass c h config todo ps
      → length done + length todo ≡ config.merkle_leaf_count
      → Registering VotingPhase.commit
          (shift done todo)
          []
          (funds + deposits config.deposit todo)
          (run c h (register_calls owner clock config.deposit todo) w)
  unfolding run
  register_all done [] [] funds w g none_left all = rw (plus_zero funds) g
  register_all done [] (p ∷ ps) funds w g pass all = elim pass [ ]
  register_all done (s ∷ todo) [] funds w g pass all = elim pass [ ]
  register_all done (s ∷ todo) (p ∷ ps) funds w g (one_more passes rest) all =
      rw (plus_more funds config.deposit (deposits config.deposit todo)) (
        register_all (s ∷ done) todo ps (funds + config.deposit) _
          (register_step done todo s p funds w g passes all) rest (omega (arith, all)))

  -- After all have registered, each is to commit.
  pub registered_all :
      (s : Seat) (seats : List Seat) (ps : List c.Point) (w : Election c h)
      → Registering VotingPhase.registration [] (s ∷ seats) 0 w
      → AllPass c h config (s ∷ seats) ps
      → length (s ∷ seats) ≡ config.merkle_leaf_count
      → Stage c laws h config VotingPhase.commit
          (λ t. some (committed_entry c h t))
          (λ t. some (entry c h t))
          []
          (s ∷ seats)
          (length (s ∷ seats))
          0
          0
          c.identity
          (deposits config.deposit (s ∷ seats))
          (run c h (register_calls owner clock config.deposit (s ∷ seats)) w)
  registered_all s seats ps w g pass all =
      let v = run c h (register_calls owner clock config.deposit (s ∷ seats)) w in
      let r = register_all [] (s ∷ seats) ps 0 w g pass (omega (arith, all)) in
      record {
        at = r.at;
        configured = r.configured;
        ordered = r.ordered;
        sized = r.sized ∙ length-shift [] (s ∷ seats) ∙ omega arith;
        committed_so_far = r.committed_so_far;
        voted_so_far = r.voted_so_far;
        summed = r.summed;
        done_entries = tt;
        todo_entries =
            (Holds-shift (λ t. some (entry c h t)) v.state.voters [] (s ∷ seats) r.done_entries).1;
        apart = Apart-none (s ∷ seats);
        distinct = g.distinct;
        funded = omega (arith, r.funded);
      }
