-- ===== src/OpenVote/Voting/Starting.antt =====
-- open-vote-network/voting/src/lib.rs: `setup`.
use bachelor_project.Prelude.{◌<◌, ◌≡◌, refl, Option, none, some, [], arith}
use bachelor_project.Contract.{Timestamp, ok}
use bachelor_project.OpenVote.Curve.{Curve}
use bachelor_project.OpenVote.Types.{VotingPhase, VoteConfig, VotingState, minus_one}
use bachelor_project.OpenVote.Voting.{setup}
use bachelor_project.OpenVote.Voting.Integrity.{IsSound}

abbrev pub initial : VoteConfig → VotingState
initial config = record {
  config = config;
  voting_phase = VotingPhase.registration;
  voting_result = (minus_one, minus_one);
  voters = [];
}

pub setup-initial :
    (now : Timestamp) (config : VoteConfig) {s : VotingState}
    → setup now (some config) ≡ ok s
    → s ≡ initial config
unfolding setup
setup-initial now config e = ground arith

setup_order :
    (now : Timestamp) (config : VoteConfig) {s : VotingState}
    → setup now (some config) ≡ ok s
    → (now < config.registration_timeout)
      × (config.registration_timeout < config.commit_timeout)
      × (config.commit_timeout < config.vote_timeout)
unfolding setup
setup_order now config e = (ground arith, ground arith, ground arith)

-- An election that is set up has its deadlines in order after the present, starts in the
-- registration phase, and is sound.
pub setup-IsSound :
    (c : Curve) (now : Timestamp) (parameter : Option VoteConfig) {s : VotingState}
    → setup now parameter ≡ ok s
    → (now < s.config.registration_timeout)
      × (s.config.registration_timeout < s.config.commit_timeout)
      × (s.config.commit_timeout < s.config.vote_timeout)
      × (s.voting_phase ≡ VotingPhase.registration)
      × IsSound c s
unfolding setup
setup-IsSound c now none e = ground arith
setup-IsSound c now (some config) e =
    let (first, second, third) = setup_order now config e in
    rw (setup-initial now config e) (first, second, third, refl, tt)
