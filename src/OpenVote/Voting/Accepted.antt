-- ===== src/OpenVote/Voting/Accepted.antt =====
-- open-vote-network/voting/src/lib.rs: what an accepted `register` was checked
-- for and what it changes.
pub mod Ballots
use bachelor_project.Prelude.{
  ◌≤◌, ◌≡◌, refl, inl, inr, Bool, true, false, Option, none, some, length, ◌==◌, Option-cases,
  arith, if◌then◌else◌, ap, ◌∙◌,
}
use bachelor_project.Contract.{
  AccountAddress, Amount, account, ReceiveContext, ok, Address-cases, Host,
}
use bachelor_project.Contract.StateMap.{lookup, insert, lookup-insert_self, insert-insert}
use bachelor_project.OpenVote.Curve.{Curve}
use bachelor_project.OpenVote.Util.{convert_vec_to_point}
use bachelor_project.OpenVote.Crypto.{
  verify_schnorr_zkp, verify_one_in_two_zkp, check_commitment, verify_merkle_proof,
}
use bachelor_project.OpenVote.Types.{
  i32, VotingPhase, is_phase, RegisterMessage, CommitMessage, VoteMessage, Voter, default_voter,
  is_given,
}
use bachelor_project.OpenVote.Voting.{
  all_voters, has_committed, has_voted, Election, set_voters, set_phase, register, commit, vote,
  enter_key,
}

module _ (c : Curve) (h : Host) where
  -- The phase ends on its own where the test holds.
  abbrev pub advance : Bool → VotingPhase → Election c h → Election c h
  advance test phase w = if test then set_phase c h phase w else w

  pub record Registers (ctx : ReceiveContext) (parameter : Option RegisterMessage)
      (deposit : Amount) (w v : Election c h) : Type 0 where
    pub sender : AccountAddress
    pub message : RegisterMessage
    pub key : c.Point
    pub by_account : ctx.sender ≡ account sender
    pub parsed : parameter ≡ some message
    pub in_phase : is_phase w.state.voting_phase VotingPhase.registration ≡ true
    pub authorized :
        verify_merkle_proof c w.state.config.merkle_root w.state.config.merkle_leaf_count
          message.merkle_proof sender
        ≡ some true
    pub paid : w.state.config.deposit ≡ deposit
    pub in_time : ctx.slot_time ≤ w.state.config.registration_timeout
    pub fresh : lookup sender w.state.voters ≡ none
    pub key_read : convert_vec_to_point c message.voting_key ≡ some key
    pub proved : verify_schnorr_zkp c key message.voting_key_zkp ≡ some true
    pub after :
        let voters =
          insert sender
            (record default_voter {
              voting_key = message.voting_key;
              voting_key_zkp = message.voting_key_zkp;
            })
            w.state.voters in
        v
        ≡ advance
            (i32 (length voters) == w.state.config.merkle_leaf_count)
            VotingPhase.commit
            (set_voters c h voters w)

  -- A key that is entered is a point with a valid proof of knowledge.
  record Enters (sender : AccountAddress) (message : RegisterMessage) (voter : Voter)
      (w v : Election c h) : Type 0 where
    pub key : c.Point
    pub key_read : convert_vec_to_point c message.voting_key ≡ some key
    pub proved : verify_schnorr_zkp c key message.voting_key_zkp ≡ some true
    pub after :
        let voters =
          insert sender
            (record voter {
              voting_key = message.voting_key;
              voting_key_zkp = message.voting_key_zkp;
            })
            w.state.voters in
        v
        ≡ advance
            (i32 (length voters) == w.state.config.merkle_leaf_count)
            VotingPhase.commit
            (set_voters c h voters w)

  enter_key-Enters :
      (sender : AccountAddress) (m : RegisterMessage) (voter : Voter) (w : Election c h)
      → lookup sender w.state.voters ≡ some voter
      → (enter_key c h sender m w).0 ≡ ok tt
      → Enters sender m voter w (enter_key c h sender m w).1
  unfolding enter_key convert_vec_to_point
  enter_key-Enters sender m voter w found e = elim (Option-cases (c.from_sec1_bytes m.voting_key)) [
    | inl none_read ↦ ground arith
    | inr (key, read) ↦ record {
      key = key;
      key_read = read;
      proved = ground arith;
      after = ground arith;
    }
  ]

module _ (c : Curve) (h : Host) (ctx : ReceiveContext) (w : Election c h) where
  register-enter_key :
      (m : RegisterMessage) (deposit : Amount) (a : AccountAddress)
      → ctx.sender ≡ account a
      → (register c h ctx (some m) deposit w).0 ≡ ok tt
      → (is_phase w.state.voting_phase VotingPhase.registration ≡ true)
        × (verify_merkle_proof c w.state.config.merkle_root w.state.config.merkle_leaf_count
              m.merkle_proof a
            ≡ some true)
        × (w.state.config.deposit ≡ deposit)
        × (ctx.slot_time ≤ w.state.config.registration_timeout)
        × (lookup a w.state.voters ≡ none)
        × (register c h ctx (some m) deposit w
            ≡ enter_key c h a m (set_voters c h (insert a default_voter w.state.voters) w))
  unfolding register
  register-enter_key m deposit a sender e =
      (ground arith, ground arith, ground arith, ground arith, ground arith, ground arith)

  -- An accepted registration comes from an account that the Merkle root lists, once only, in the
  -- registration phase and before its end, with the exact deposit and a voting key that is a point
  -- and has a valid proof of knowledge; it adds the voter with this key and nothing else, and the
  -- phase becomes `Commit` exactly when the voters are now as many as the leaves.
  pub register-Registers :
      (parameter : Option RegisterMessage) (deposit : Amount)
      → (register c h ctx parameter deposit w).0 ≡ ok tt
      → Registers c h ctx parameter deposit w (register c h ctx parameter deposit w).1
  unfolding register
  register-Registers none deposit e = ground arith
  register-Registers (some m) deposit e = elim (Address-cases ctx.sender) [
    | inl (a, sender) ↦
        let (phase, authorized, paid, in_time, fresh, rest) =
          register-enter_key m deposit a sender e in
        let entry = record default_voter {
          voting_key = m.voting_key;
          voting_key_zkp = m.voting_key_zkp;
        } in
        let entered =
          enter_key-Enters c h a m default_voter
            (set_voters c h (insert a default_voter w.state.voters) w)
            (lookup-insert_self a default_voter w.state.voters) (rw rest at e) in
        record {
          sender = a;
          message = m;
          key = entered.key;
          by_account = sender;
          parsed = refl;
          in_phase = phase;
          authorized = authorized;
          paid = paid;
          in_time = in_time;
          fresh = fresh;
          key_read = entered.key_read;
          proved = entered.proved;
          after =
              ap (λ r. r.1) rest
              ∙ (rw (insert-insert a entry default_voter w.state.voters) at entered.after);
        }
    | inr (i, j, sender) ↦ ground arith
  ]
