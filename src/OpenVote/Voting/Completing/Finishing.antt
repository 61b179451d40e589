-- ===== src/OpenVote/Voting/Completing/Finishing.antt =====
-- open-vote-network/voting/src/lib.rs: an election of voters whose messages meet the checks, from
-- `setup` to the votes that `result` counts.
use bachelor_project.Prelude.{
  ◌≤◌, ◌<◌, ◌≡◌, refl, sym, ap, ◌∙◌, inl, inr, Option-cases, some, List, [], ◌∷◌, ◌++◌, length,
  arith,
}
use bachelor_project.Contract.{
  AccountAddress, Amount, Host, HostLaws, ok, ReceiveContext, Timestamp,
}
use bachelor_project.Contract.StateMap.{StateMap}
use bachelor_project.Contract.StateMap.Sums.{weigh}
use bachelor_project.OpenVote.Curve.{Curve, CurveLaws}
use bachelor_project.OpenVote.Util.{convert_vec_to_point}
use bachelor_project.OpenVote.Types.{VotingPhase, Voter, VoteConfig, VotingState}
use bachelor_project.OpenVote.Voting.{Election, setup, vote_points}
use bachelor_project.OpenVote.Voting.Starting.{initial, setup-initial}
use bachelor_project.OpenVote.Voting.Outcomes.{vote_points-IsSound}
use bachelor_project.OpenVote.Voting.Integrity.{run-Sound}
use bachelor_project.OpenVote.Voting.History.{Call, run}
use bachelor_project.OpenVote.OffChain.Reconstruction.{total}
use bachelor_project.OpenVote.Voting.Completing.Seats.{
  Seat, AllPass, Distinct, deposits, Apart-none, Holds, unregistered, entry,
}
use bachelor_project.OpenVote.Voting.Completing.Stages.{
  points, vote_point, point_or_identity, Stage,
}
use bachelor_project.OpenVote.Voting.Completing.Registering.{register_calls, registered_all}
use bachelor_project.OpenVote.Voting.Completing.Committing.{commit_calls, committed_all}
use bachelor_project.OpenVote.Voting.Completing.Balloting.{vote_calls, add_all, voted_all}

run-append :
    (c : Curve) (h : Host) (xs ys : List (ReceiveContext × Amount × Call)) (w : Election c h)
    → run c h (xs ++ ys) w ≡ run c h ys (run c h xs w)
unfolding run
run-append c h [] ys w = refl
run-append c h (x ∷ xs) ys w = run-append c h xs ys _

module _ (c : Curve) (laws : CurveLaws c) where
  add_all-total : (sum : c.Point) (ps : List c.Point) → add_all c sum ps ≡ c.add sum (total c ps)
  unfolding total
  add_all-total sum [] = sym (laws.add-identity sum)
  add_all-total sum (p ∷ ps) =
      add_all-total (c.add p sum) ps
      ∙ ap (λ t. c.add t (total c ps)) (laws.add_comm p sum)
      ∙ laws.add_assoc sum p (total c ps)

  -- The votes that are read are those that were added up.
  vote_points-sum :
      (voters : StateMap Voter) (votes : List c.Point)
      → vote_points c voters ≡ some votes
      → weigh (points c laws) (vote_point c) voters ≡ total c votes
  unfolding vote_points weigh total
  vote_points-sum [] [] e = refl
  vote_points-sum [] (p ∷ votes) e = cc
  vote_points-sum ((a, v) ∷ voters) votes e = elim (Option-cases (convert_vec_to_point c v.vote)) [
    | inl unread ↦ ground (arith, e, unread)
    | inr (p, read) ↦ elim (Option-cases (vote_points c voters)) [
      | inl stuck ↦ ground (arith, e, read, stuck)
      | inr (rest, others) ↦
          let it : votes ≡ p ∷ rest = ground (arith, e, read, others) in
          rw it (
            ap (λ o. c.add (point_or_identity c o) (weigh (points c laws) (vote_point c) voters))
              read
            ∙ ap (c.add p) (vote_points-sum voters rest others))
    ]
  ]

module _ (owner : AccountAddress) (deposit : Amount)
    (register_at commit_at vote_at : Seat → Timestamp) where
  -- All register, then all commit, then all vote, each at a time of their own.
  abbrev pub election_calls : List Seat → List (ReceiveContext × Amount × Call)
  election_calls seats =
      register_calls owner register_at deposit seats
      ++ (commit_calls owner commit_at seats ++ vote_calls owner vote_at seats)

module _ (c : Curve) (laws : CurveLaws c) (h : Host) (host_laws : HostLaws h) (config : VoteConfig)
    (owner : AccountAddress) (register_at commit_at vote_at : Seat → Timestamp) where
  -- The result phase is reached, with a vote of every voter, and the sum of the votes is that of the points.
  pub record Completes (points : List c.Point) (v : Election c h) : Type 0 where
    pub votes : List c.Point
    pub reached : v.state.voting_phase ≡ VotingPhase.result
    pub read : vote_points c v.state.voters ≡ some votes
    pub as_many : length votes ≡ config.merkle_leaf_count
    pub same_sum : total c votes ≡ total c points

  empty-Holds : (seats : List Seat) → Holds (unregistered c h) [] seats
  empty-Holds [] = tt
  empty-Holds (s ∷ seats) = (refl, empty-Holds seats)

  opens :
      (chain : h.Chain) (seats : List Seat)
      → Distinct seats
      → Stage c laws h config VotingPhase.registration
          (λ s. some (entry c h s))
          (unregistered c h)
          []
          seats
          0
          0
          0
          c.identity
          0
          (record { state = initial config; chain = chain })
  unfolding weigh
  opens chain seats distinct = record {
    at = refl;
    configured = refl;
    ordered = tt;
    sized = refl;
    committed_so_far = refl;
    voted_so_far = refl;
    summed = refl;
    done_entries = tt;
    todo_entries = empty-Holds seats;
    apart = Apart-none seats;
    distinct = distinct;
    funded = omega arith;
  }

  finishes :
      (chain : h.Chain) (s : Seat) (seats : List Seat) (points : List c.Point)
      → AllPass c h config (s ∷ seats) points
      → Distinct (s ∷ seats)
      → length (s ∷ seats) ≡ config.merkle_leaf_count
      → config.merkle_leaf_count < 4294967296
      → ((t : Seat) → register_at t ≤ config.registration_timeout)
      → ((t : Seat) → commit_at t ≤ config.commit_timeout)
      → ((t : Seat) → vote_at t ≤ config.vote_timeout)
      → Completes points (
          run c h
            (election_calls owner config.deposit register_at commit_at vote_at (s ∷ seats))
            (record { state = initial config; chain = chain }))
  finishes chain s seats ps pass distinct all few in_time1 in_time2 in_time3 =
      let start : Election c h = record { state = initial config; chain = chain } in
      let n = length (s ∷ seats) in
      let first = register_calls owner register_at config.deposit (s ∷ seats) in
      let second = commit_calls owner commit_at (s ∷ seats) in
      let third = vote_calls owner vote_at (s ∷ seats) in
      let w1 = run c h first start in
      let w2 = run c h second w1 in
      let registered =
        registered_all c laws h host_laws config owner register_at in_time1 few s seats ps start
          (opens chain (s ∷ seats) distinct) pass all in
      let committed =
        committed_all c laws h host_laws config owner commit_at in_time2 n s seats ps
          (deposits config.deposit (s ∷ seats)) w1 registered pass refl in
      let (at, sized, summed, entries) =
        voted_all c laws h host_laws config owner vote_at in_time3 n s seats ps w2 committed pass
          refl in
      let path : run c h (first ++ (second ++ third)) start ≡ run c h third w2 =
        run-append c h first (second ++ third) start ∙ run-append c h second third w1 in
      rw path (
        let v = run c h third w2 in
        let kept =
          run-Sound c h host_laws third w2
            (run-Sound c h host_laws second w1 (run-Sound c h host_laws first start tt)) in
        let (votes, read, same) = vote_points-IsSound c v.state kept at in
        record {
          votes = votes;
          reached = at;
          read = read;
          as_many = same ∙ sized ∙ all;
          same_sum =
              sym (vote_points-sum c laws v.state.voters votes read)
              ∙ summed
              ∙ add_all-total c laws c.identity ps
              ∙ laws.add_comm c.identity (total c ps)
              ∙ laws.add-identity (total c ps);
        })

  -- An election that is set up for as many voters as it has, whose accounts differ and whose
  -- messages meet the checks of the contract, runs to the result phase when they all register,
  -- commit and vote in time, whatever the balance was: every vote is read, there is one for
  -- each voter, and their sum is that of the points voted.
  pub run-Completes :
      (now : Timestamp) (chain : h.Chain) (s : Seat) (seats : List Seat) (points : List c.Point)
      {st : VotingState}
      → setup now (some config) ≡ ok st
      → AllPass c h config (s ∷ seats) points
      → Distinct (s ∷ seats)
      → length (s ∷ seats) ≡ config.merkle_leaf_count
      → config.merkle_leaf_count < 4294967296
      → ((t : Seat) → register_at t ≤ config.registration_timeout)
      → ((t : Seat) → commit_at t ≤ config.commit_timeout)
      → ((t : Seat) → vote_at t ≤ config.vote_timeout)
      → Completes points (
          run c h
            (election_calls owner config.deposit register_at commit_at vote_at (s ∷ seats))
            (record { state = st; chain = chain }))
  run-Completes now chain s seats ps up pass distinct all few in_time1 in_time2 in_time3 =
      rw (setup-initial now config up)
        (finishes chain s seats ps pass distinct all few in_time1 in_time2 in_time3)
