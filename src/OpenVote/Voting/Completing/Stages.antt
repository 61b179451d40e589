-- ===== src/OpenVote/Voting/Completing/Stages.antt =====
-- open-vote-network/voting/src/lib.rs: where an election of given voters stands, in the middle of a
-- phase, and that one more entry takes it one voter further.
use bachelor_project.Prelude.{
  ℕ, ◌≤◌, ◌≡◌, refl, sym, ap, ◌∙◌, Bool, true, false, Option, none, some, List, [], ◌∷◌, length,
}
use bachelor_project.Contract.{AccountAddress, Amount, Host, account, ReceiveContext, Timestamp}
use bachelor_project.Contract.StateMap.{
  StateMap, insert, lookup-insert_self, IsOrdered, insert-IsOrdered,
}
use bachelor_project.Contract.StateMap.Sums.{Sums, count, weigh}
use bachelor_project.OpenVote.Curve.{Curve, CurveLaws}
use bachelor_project.OpenVote.Util.{convert_vec_to_point}
use bachelor_project.OpenVote.Types.{VotingPhase, Voter, VoteConfig}
use bachelor_project.OpenVote.Voting.{Election, set_voters, has_committed, has_voted}
use bachelor_project.OpenVote.Voting.Accepted.{advance}
use bachelor_project.OpenVote.Voting.Completing.Seats.{
  Seat, Holds, Distinct, Apart, Apart-next, Holds-insert,
}

-- The next phase where nobody is left, and otherwise this one.
abbrev pub phase_for : VotingPhase → VotingPhase → List Seat → VotingPhase
phase_for next now [] = next
phase_for next now (s ∷ todo) = now

abbrev pub is_last : List Seat → Bool
is_last [] = true
is_last (s ∷ todo) = false

-- A call at the voter's time.
abbrev pub by : AccountAddress → (Seat → Timestamp) → Seat → ReceiveContext
by owner clock s = record { sender = account s.voter; owner = owner; slot_time = clock s }

abbrev pub points : (c : Curve) → CurveLaws c → Sums c.Point
points c laws = record {
  empty = c.identity;
  plus = c.add;
  plus_comm = laws.add_comm;
  plus_assoc = laws.add_assoc;
  plus-empty = laws.add-identity;
}

-- A vote that is not read, as that of a voter who has not voted, is the identity.
abbrev pub point_or_identity : (c : Curve) → Option c.Point → c.Point
point_or_identity c none = c.identity
point_or_identity c (some p) = p

abbrev pub vote_point : (c : Curve) → Voter → c.Point
vote_point c v = point_or_identity c (convert_vec_to_point c v.vote)

module _ (c : Curve) (laws : CurveLaws c) (h : Host) (config : VoteConfig) where
  abbrev pub settled : VotingPhase → StateMap Voter → Election c h → Election c h
  settled phase voters w = record w {
    state = record w.state { voters = voters; voting_phase = phase };
  }

  pub advance_settles :
      (test : Bool) (next now : VotingPhase) (todo : List Seat) (voters : StateMap Voter)
      (w : Election c h)
      → test ≡ is_last todo
      → w.state.voting_phase ≡ now
      → advance c h test next (set_voters c h voters w) ≡ settled (phase_for next now todo) voters w
  advance_settles test next now [] voters w last at = rw last refl
  advance_settles test next now (s ∷ todo) voters w last at =
      rw last (ap (λ p. settled p voters w) at)

  abbrev pub sum_of : StateMap Voter → c.Point
  sum_of voters = weigh (points c laws) (vote_point c) voters

  -- The voters who are done have one entry, those to do another, and the rest is counted.
  pub record Stage (phase : VotingPhase) (after before : Seat → Option Voter)
      (done todo : List Seat) (size committed voted : ℕ) (sum : c.Point) (funds : Amount)
      (w : Election c h) : Type 0 where
    pub at : w.state.voting_phase ≡ phase
    pub configured : w.state.config ≡ config
    pub ordered : IsOrdered w.state.voters
    pub sized : length w.state.voters ≡ size
    pub committed_so_far : count has_committed w.state.voters ≡ committed
    pub voted_so_far : count has_voted w.state.voters ≡ voted
    pub summed : sum_of w.state.voters ≡ sum
    pub done_entries : Holds after w.state.voters done
    pub todo_entries : Holds before w.state.voters todo
    pub apart : Apart done todo
    pub distinct : Distinct todo
    pub funded : funds ≤ h.self_balance w.chain

  -- What an entry changes of the numbers is given.
  pub Stage-next :
      (next phase : VotingPhase) (after before : Seat → Option Voter) (done todo : List Seat)
      (s : Seat) (v : Voter) {size committed voted size' committed' voted' : ℕ} {sum sum' : c.Point}
      {funds funds' : Amount} (w u : Election c h)
      → Stage phase after before done (s ∷ todo) size committed voted sum funds w
      → let voters = insert s.voter v w.state.voters in
        after s ≡ some v
        → length voters ≡ size'
        → count has_committed voters ≡ committed'
        → count has_voted voters ≡ voted'
        → sum_of voters ≡ sum'
        → u.state ≡ w.state
        → funds' ≤ h.self_balance u.chain
        → Stage
            (phase_for next phase todo)
            after
            before
            (s ∷ done)
            todo
            size'
            committed'
            voted'
            sum'
            funds'
            (settled (phase_for next phase todo) voters u)
  Stage-next next phase after before done todo s v w u g entered size committed voted sum same
        funded =
      record {
        at = refl;
        configured = ap (λ st. st.config) same ∙ g.configured;
        ordered = insert-IsOrdered s.voter v w.state.voters g.ordered;
        sized = size;
        committed_so_far = committed;
        voted_so_far = voted;
        summed = sum;
        done_entries = (
          lookup-insert_self s.voter v w.state.voters ∙ sym entered,
          Holds-insert after s.voter v w.state.voters done g.apart.0 g.done_entries,
        );
        todo_entries =
            Holds-insert before s.voter v w.state.voters todo g.distinct.0 g.todo_entries.1;
        apart = Apart-next s done todo g.distinct.0 g.apart.1;
        distinct = g.distinct.1;
        funded = funded;
      }
