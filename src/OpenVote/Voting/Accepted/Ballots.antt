-- ===== src/OpenVote/Voting/Accepted/Ballots.antt =====
-- open-vote-network/voting/src/lib.rs: what an accepted `commit` or `vote` was checked for and what
-- it changes.
use bachelor_project.Prelude.{
  ◌≤◌, ◌≡◌, refl, inl, inr, true, false, Option, none, some, Option-cases, arith,
}
use bachelor_project.Contract.{AccountAddress, account, ReceiveContext, ok, Address-cases, Host}
use bachelor_project.Contract.StateMap.{lookup, insert}
use bachelor_project.OpenVote.Curve.{Curve}
use bachelor_project.OpenVote.Util.{convert_vec_to_point}
use bachelor_project.OpenVote.Crypto.{verify_one_in_two_zkp, check_commitment}
use bachelor_project.OpenVote.Types.{
  VotingPhase, is_phase, CommitMessage, VoteMessage, Voter, is_given,
}
use bachelor_project.OpenVote.Voting.{
  all_voters, has_committed, has_voted, Election, set_voters, commit, vote,
}
use bachelor_project.OpenVote.Voting.Accepted.{advance}

module _ (c : Curve) (h : Host) where
  pub record Commits (ctx : ReceiveContext) (parameter : Option CommitMessage) (w v : Election c h)
      : Type 0 where
    pub sender : AccountAddress
    pub message : CommitMessage
    pub voter : Voter
    pub by_account : ctx.sender ≡ account sender
    pub parsed : parameter ≡ some message
    pub key_given : is_given message.reconstructed_key ≡ true
    pub given : is_given message.commitment ≡ true
    pub in_phase : is_phase w.state.voting_phase VotingPhase.commit ≡ true
    pub in_time : ctx.slot_time ≤ w.state.config.commit_timeout
    pub registered : lookup sender w.state.voters ≡ some voter
    pub after :
        let voters =
          insert sender
            (record voter {
              reconstructed_key = message.reconstructed_key;
              commitment = message.commitment;
            })
            w.state.voters in
        v ≡ advance c h (all_voters has_committed voters) VotingPhase.vote (set_voters c h voters w)

  pub record Votes (ctx : ReceiveContext) (parameter : Option VoteMessage) (w v : Election c h)
      : Type 0 where
    pub sender : AccountAddress
    pub message : VoteMessage
    pub voter : Voter
    pub point : c.Point
    pub g_y : c.Point
    pub by_account : ctx.sender ≡ account sender
    pub parsed : parameter ≡ some message
    pub in_phase : is_phase w.state.voting_phase VotingPhase.vote ≡ true
    pub in_time : ctx.slot_time ≤ w.state.config.vote_timeout
    pub registered : lookup sender w.state.voters ≡ some voter
    pub first : is_given voter.vote ≡ false
    pub key_read : convert_vec_to_point c voter.reconstructed_key ≡ some g_y
    pub proved : verify_one_in_two_zkp c message.vote_zkp g_y ≡ some true
    pub vote_read : convert_vec_to_point c message.vote ≡ some point
    pub committed : check_commitment c point voter.commitment ≡ true
    pub after :
        let voters =
          insert sender
            (record voter { vote = message.vote; vote_zkp = message.vote_zkp })
            w.state.voters in
        v.state
        ≡ (advance c h
            (all_voters has_voted voters)
            VotingPhase.result
            (set_voters c h voters w)).state
    pub refunded : v.chain ≡ (h.invoke_transfer sender w.state.config.deposit w.chain).1
    pub made : (h.invoke_transfer sender w.state.config.deposit w.chain).0 ≡ none

module _ (c : Curve) (h : Host) (ctx : ReceiveContext) (w : Election c h) where
  -- An accepted commitment comes from a registered voter, in the commit phase and before its end,
  -- with bytes for both parts; it replaces these two parts of the voter and nothing else, and the
  -- phase becomes `Vote` exactly when all voters have now committed.
  pub commit-Commits :
      (parameter : Option CommitMessage)
      → (commit c h ctx parameter w).0 ≡ ok tt
      → Commits c h ctx parameter w (commit c h ctx parameter w).1
  unfolding commit
  commit-Commits none e = ground arith
  commit-Commits (some m) e = elim (Address-cases ctx.sender) [
    | inl (a, sender) ↦ elim (Option-cases (lookup a w.state.voters)) [
      | inl unknown ↦ ground arith
      | inr (voter, found) ↦ record {
        sender = a;
        message = m;
        voter = voter;
        by_account = sender;
        parsed = refl;
        key_given = ground arith;
        given = ground arith;
        in_phase = ground arith;
        in_time = ground arith;
        registered = found;
        after = ground arith;
      }
    ]
    | inr (i, j, sender) ↦ ground arith
  ]

  cast-Votes :
      (m : VoteMessage) (a : AccountAddress) (voter : Voter) (g_y point : c.Point)
      → ctx.sender ≡ account a
      → lookup a w.state.voters ≡ some voter
      → convert_vec_to_point c voter.reconstructed_key ≡ some g_y
      → convert_vec_to_point c m.vote ≡ some point
      → (vote c h ctx (some m) w).0 ≡ ok tt
      → Votes c h ctx (some m) w (vote c h ctx (some m) w).1
  unfolding vote
  cast-Votes m a voter g_y point sender found key read e = record {
    sender = a;
    message = m;
    voter = voter;
    point = point;
    g_y = g_y;
    by_account = sender;
    parsed = refl;
    in_phase = ground arith;
    in_time = ground arith;
    registered = found;
    first = ground arith;
    key_read = key;
    proved = ground arith;
    vote_read = read;
    committed = ground arith;
    after = ground arith;
    refunded = ground arith;
    made = ground arith;
  }

  -- An accepted vote comes from a registered voter who has not voted, in the vote phase and before
  -- its end; its one-in-two proof is valid under the voter's reconstructed key and the vote is the
  -- point that the voter committed to. It is entered for the voter and nothing else is, the phase becomes
  -- `Result` exactly when all have now voted, and the deposit is paid back.
  pub vote-Votes :
      (parameter : Option VoteMessage)
      → (vote c h ctx parameter w).0 ≡ ok tt
      → Votes c h ctx parameter w (vote c h ctx parameter w).1
  unfolding vote
  vote-Votes none e = ground arith
  vote-Votes (some m) e = elim (Address-cases ctx.sender) [
    | inl (a, sender) ↦ elim (Option-cases (lookup a w.state.voters)) [
      | inl unknown ↦ ground arith
      | inr (voter, found) ↦ elim (Option-cases (convert_vec_to_point c voter.reconstructed_key)) [
        | inl unread ↦ ground arith
        | inr (g_y, key) ↦ elim (Option-cases (convert_vec_to_point c m.vote)) [
          | inl unread ↦ ground arith
          | inr (point, read) ↦ cast-Votes m a voter g_y point sender found key read e
        ]
      ]
    ]
    | inr (i, j, sender) ↦ ground arith
  ]
