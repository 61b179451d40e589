-- ===== src/OpenVote/Voting/Completing/Accepts.antt =====
-- open-vote-network/voting/src/lib.rs: `register`, `commit` and `vote` accept what meets their checks.
use bachelor_project.Prelude.{◌≤◌, ◌≡◌, true, false, none, some, length, ◌==◌, arith}
use bachelor_project.Contract.{AccountAddress, Amount, account, ReceiveContext, ok, Host}
use bachelor_project.Contract.StateMap.{lookup, insert, lookup-insert_self, insert-insert}
use bachelor_project.OpenVote.Curve.{Curve}
use bachelor_project.OpenVote.Util.{convert_vec_to_point}
use bachelor_project.OpenVote.Crypto.{
  verify_schnorr_zkp, verify_one_in_two_zkp, check_commitment, verify_merkle_proof,
}
use bachelor_project.OpenVote.Types.{
  i32, VotingPhase, RegisterMessage, CommitMessage, VoteMessage, Voter, default_voter, is_given,
}
use bachelor_project.OpenVote.Voting.{
  all_voters, has_committed, has_voted, Election, set_voters, register, commit, vote, enter_key,
}
use bachelor_project.OpenVote.Voting.Accepted.{advance}

module _ (c : Curve) (h : Host) where
  -- The entry of a voter that has registered, and what the other two calls make of it.
  abbrev pub registered : RegisterMessage → Voter
  registered m = record default_voter {
    voting_key = m.voting_key;
    voting_key_zkp = m.voting_key_zkp;
  }

  abbrev pub with_commitment : CommitMessage → Voter → Voter
  with_commitment m v = record v {
    reconstructed_key = m.reconstructed_key;
    commitment = m.commitment;
  }

  abbrev pub with_vote : VoteMessage → Voter → Voter
  with_vote m v = record v { vote = m.vote; vote_zkp = m.vote_zkp }

  module _ (ctx : ReceiveContext) (w : Election c h) (a : AccountAddress)
      (sender : ctx.sender ≡ account a) where
    enter_key_accepts :
        (m : RegisterMessage) (voter : Voter) (key : c.Point) (u : Election c h)
        → lookup a u.state.voters ≡ some voter
        → convert_vec_to_point c m.voting_key ≡ some key
        → verify_schnorr_zkp c key m.voting_key_zkp ≡ some true
        → let voters =
            insert a
              (record voter { voting_key = m.voting_key; voting_key_zkp = m.voting_key_zkp })
              u.state.voters in
          enter_key c h a m u ≡ (
            ok tt,
            advance c h
                (i32 (length voters) == u.state.config.merkle_leaf_count)
                VotingPhase.commit
                (set_voters c h voters u),
          )
    unfolding enter_key convert_vec_to_point
    enter_key_accepts m voter key u found read proved = ground arith

    pub commit_accepts :
        (m : CommitMessage) (voter : Voter)
        → is_given m.reconstructed_key ≡ true
        → is_given m.commitment ≡ true
        → w.state.voting_phase ≡ VotingPhase.commit
        → ctx.slot_time ≤ w.state.config.commit_timeout
        → lookup a w.state.voters ≡ some voter
        → let voters = insert a (with_commitment m voter) w.state.voters in
          commit c h ctx (some m) w ≡ (
            ok tt,
            advance c h
                (all_voters has_committed voters)
                VotingPhase.vote
                (set_voters c h voters w),
          )
    unfolding commit
    commit_accepts m voter key_given given at in_time found = ground arith

    pub register_accepts :
        (m : RegisterMessage) (deposit : Amount) (key : c.Point)
        → w.state.config.deposit ≡ deposit
        → w.state.voting_phase ≡ VotingPhase.registration
        → verify_merkle_proof c w.state.config.merkle_root w.state.config.merkle_leaf_count
            m.merkle_proof a
          ≡ some true
        → ctx.slot_time ≤ w.state.config.registration_timeout
        → lookup a w.state.voters ≡ none
        → convert_vec_to_point c m.voting_key ≡ some key
        → verify_schnorr_zkp c key m.voting_key_zkp ≡ some true
        → let voters = insert a (registered m) w.state.voters in
          register c h ctx (some m) deposit w ≡ (
            ok tt,
            advance c h
                (i32 (length voters) == w.state.config.merkle_leaf_count)
                VotingPhase.commit
                (set_voters c h voters w),
          )
    unfolding register
    register_accepts m deposit key paid at authorized in_time fresh read proved =
        let entered =
          enter_key_accepts m default_voter key
            (set_voters c h (insert a default_voter w.state.voters) w)
            (lookup-insert_self a default_voter w.state.voters) read proved in
        ground (arith, rw (insert-insert a (registered m) default_voter w.state.voters) at entered)

    pub vote_accepts :
        (m : VoteMessage) (voter : Voter) (g_y point : c.Point)
        → w.state.voting_phase ≡ VotingPhase.vote
        → ctx.slot_time ≤ w.state.config.vote_timeout
        → lookup a w.state.voters ≡ some voter
        → is_given voter.vote ≡ false
        → convert_vec_to_point c voter.reconstructed_key ≡ some g_y
        → verify_one_in_two_zkp c m.vote_zkp g_y ≡ some true
        → convert_vec_to_point c m.vote ≡ some point
        → check_commitment c point voter.commitment ≡ true
        → (h.invoke_transfer a w.state.config.deposit w.chain).0 ≡ none
        → let voters = insert a (with_vote m voter) w.state.voters in
          vote c h ctx (some m) w ≡ (
            ok tt,
            record (advance c h
                (all_voters has_voted voters)
                VotingPhase.result
                (set_voters c h voters w)) {
                  chain = (h.invoke_transfer a w.state.config.deposit w.chain).1;
                },
          )
    unfolding vote
    vote_accepts m voter g_y point at in_time found first key proved read committed made =
        ground arith
