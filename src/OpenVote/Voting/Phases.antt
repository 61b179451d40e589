-- ===== src/OpenVote/Voting/Phases.antt =====
-- open-vote-network/voting/src/lib.rs: `change_phase` and `refund_deposits`.
use bachelor_project.Prelude.{
  ◌-◌, Bool, true, false, not, ◌&&◌, Option, none, some, List, [], ◌∷◌, ltb, ◌==◌, length,
  if◌then◌else◌,
}
use bachelor_project.Contract.{
  AccountAddress, ReceiveContext, ok, err, trap, Receive, pure, bail, gets, unwrap, modify, ◌>>=◌,
  ◌>>◌, Host, TransferError, transfer,
}
use bachelor_project.Contract.StateMap.{StateMap}
use bachelor_project.OpenVote.Curve.{Curve}
use bachelor_project.OpenVote.Types.{
  VotingPhase, registration, commit, vote, result, abort, ChangeError, Voter, is_given,
}
use bachelor_project.OpenVote.Voting.{
  sender_account, all_voters, has_committed, has_voted, Election, set_phase,
}

-- The accounts whose voters meet the test, in the order of the map.
abbrev pub accounts_where : (Voter → Bool) → StateMap Voter → List AccountAddress
accounts_where test [] = []
accounts_where test ((a, v) ∷ voters) =
    if test v then a ∷ accounts_where test voters else accounts_where test voters

abbrev pub is_registered : Voter → Bool
is_registered v = is_given v.voting_key

abbrev pub has_reconstructed : Voter → Bool
has_reconstructed v = is_given v.reconstructed_key

-- `none` is the trap of a phase that nobody can stall.
abbrev pub stalling_accounts : VotingPhase → StateMap Voter → Option (List AccountAddress)
stalling_accounts registration voters = some (accounts_where (λ v. not (is_registered v)) voters)
stalling_accounts commit voters = some (accounts_where (λ v. not (has_reconstructed v)) voters)
stalling_accounts vote voters = some (accounts_where (λ v. not (has_voted v)) voters)
stalling_accounts result voters = none
stalling_accounts abort voters = none

abbrev pub honest_accounts : VotingPhase → StateMap Voter → Option (List AccountAddress)
honest_accounts registration voters = some (accounts_where is_registered voters)
honest_accounts commit voters = some (accounts_where has_reconstructed voters)
honest_accounts vote voters = some (accounts_where has_voted voters)
honest_accounts result voters = none
honest_accounts abort voters = none

-- `slice::contains`
abbrev pub is_among : AccountAddress → List AccountAddress → Bool
is_among a [] = false
is_among a (b ∷ bs) = if b == a then true else is_among a bs

-- The conversion of the error by `?`.
abbrev pub convert_error : {W E F A : Type 0} → F → Receive W E A → Receive W F A
convert_error f m w =
    let (r, w') = m w in elim r [ ok a ↦ (ok a, w') | err e ↦ (err f, w') | trap ↦ (trap, w') ]

module _ (c : Curve) (h : Host) where
  -- `host.invoke_transfer(…)?`
  abbrev pub pay_or_fail : AccountAddress → Receive (Election c h) TransferError (Unit {0})
  pay_or_fail a = do
    deposit ← gets (λ w. w.state.config.deposit)
    refused ← transfer h a deposit
    elim refused [ none ↦ pure tt | some e ↦ bail e ]

  unfoldable pub refund_all : List AccountAddress → Receive (Election c h) TransferError (Unit {0})
  refund_all [] = pure tt
  refund_all (a ∷ accounts) = do pay_or_fail a; refund_all accounts

  unfoldable pub refund_deposits : AccountAddress → Receive (Election c h) TransferError (Unit {0})
  refund_deposits sender = do
    number_of_voters ← gets (λ w. length w.state.voters)
    stalling ← unwrap (← gets (λ w. stalling_accounts w.state.voting_phase w.state.voters))
    honest ← unwrap (← gets (λ w. honest_accounts w.state.voting_phase w.state.voters))
    if not (is_among sender stalling) && ltb 0 (number_of_voters - length honest)
        then pay_or_fail sender
        else pure tt
    refund_all honest

  -- `refund_deposits(sender_address, host)?` and then the phase is `Abort`.
  abbrev pub refund_and_abort : AccountAddress → Receive (Election c h) ChangeError (Unit {0})
  refund_and_abort sender = do
    convert_error ChangeError.transfer_refund (refund_deposits sender)
    modify (set_phase c h VotingPhase.abort)

  unfoldable pub change_phase : ReceiveContext → Receive (Election c h) ChangeError (Unit {0})
  change_phase ctx = do
    sender ← sender_account ChangeError.contract_sender ctx.sender
    state ← gets (λ w. w.state)
    let now = ctx.slot_time
    elim state.voting_phase [
      | registration ↦
          if ltb state.config.registration_timeout now
            && ltb 2 (length (accounts_where is_registered state.voters))
          then modify (set_phase c h VotingPhase.commit)
          else if ltb state.config.registration_timeout now
          then refund_and_abort sender
          else pure tt
      | commit ↦
          if all_voters has_committed state.voters
          then modify (set_phase c h VotingPhase.vote)
          else if ltb state.config.commit_timeout now
          then refund_and_abort sender
          else pure tt
      | vote ↦
          if all_voters has_voted state.voters
          then modify (set_phase c h VotingPhase.result)
          else if ltb state.config.vote_timeout now
          then refund_and_abort sender
          else pure tt
      | result ↦ pure tt
      | abort ↦ pure tt
    ]
