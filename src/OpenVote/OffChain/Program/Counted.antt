-- ===== src/OpenVote/OffChain/Program/Counted.antt =====
-- open-vote-network/off-chain/src/main.rs with voting/src/lib.rs: the votes of the program and the
-- tally of the contract.
use mathlib.Core.Option.{some-injective}
use mathlib.Core.Path.{subst}
use bachelor_project.Prelude.{
  ℕ, suc, ◌≡◌, ◌≢◌, ◌<◌, ◌≤◌, ◌+◌, ◌-◌, refl, sym, ap, ◌∙◌, true, some, List, [], ◌∷◌, length,
  get_elem?, arith,
}
use bachelor_project.Contract.{AccountAddress, Timestamp, Host, HostLaws, ok}
use bachelor_project.OpenVote.Curve.{Bytes, Curve, CurveLaws}
use bachelor_project.OpenVote.Merkle.{MerkleTrees, MerkleLaws}
use bachelor_project.OpenVote.Crypto.{verify_merkle_proof}
use bachelor_project.OpenVote.Crypto.Tally.{multiple}
use bachelor_project.OpenVote.Types.{
  i32, VotingPhase, RegisterMessage, CommitMessage, VoteMessage, VoteConfig, VotingState, is_given,
}
use bachelor_project.OpenVote.Voting.{Election, setup, result, vote_points}
use bachelor_project.OpenVote.Voting.Outcomes.{result_counts}
use bachelor_project.OpenVote.Voting.History.{run}
use bachelor_project.OpenVote.Voting.Completing.Seats.{Seat, AllPass, Distinct}
use bachelor_project.OpenVote.Voting.Completing.Finishing.{election_calls, Completes, run-Completes}
use bachelor_project.OpenVote.OffChain.Election.{voting_keys, cast_all, AllDiffer, cast_all-total}
use bachelor_project.OpenVote.OffChain.Outcome.{yes_or_no, yes_count, total-choices}
use bachelor_project.OpenVote.OffChain.Reconstruction.{total, sum_votes-total}
use bachelor_project.OpenVote.OffChain.Membership.{
  create_merkle_tree, create_merkle_proof-verify, leaves_len-tree,
}
use bachelor_project.OpenVote.OffChain.Program.{main}
use bachelor_project.OpenVote.OffChain.Program.Elected.{
  seats_of, AllReadable, all_yes, AllListed, all_pass,
}
use bachelor_project.OpenVote.OffChain.Program.Rounds.{secrets_of, Registers-secrets_of, main-Made}

module _ (c : Curve) (m : MerkleTrees c) (tree_laws : MerkleLaws c m) (h : Host)
    (config : VoteConfig) (accounts : List AccountAddress) where
  abbrev tree : m.Tree
  tree = create_merkle_tree c m accounts

  listed :
      (todo : List AccountAddress)
      → ((i : ℕ) (a : AccountAddress)
          → get_elem? todo i ≡ some a
          → (j : ℕ) × (get_elem? accounts j ≡ some a))
      → ((a : AccountAddress) → h.is_account a ≡ true)
      → config.merkle_root ≡ m.root tree
      → config.merkle_leaf_count ≡ i32 (m.leaves_len tree)
      → length accounts < 2147483648
      → AllListed c m h config tree todo
  listed [] within known root leaves few = tt
  listed (a ∷ todo) within known root leaves few =
      let (j, at) = within 0 a refl in
      let (made, created, verified) =
        create_merkle_proof-verify c m tree_laws accounts j a at few in
      (
        known a,
        λ proof e.
            rw (root, leaves)
              (subst
                (λ p. verify_merkle_proof c (m.root tree) (i32 (m.leaves_len tree)) p a ≡ some true)
                (some-injective made proof (sym created ∙ e)) verified),
        listed todo (λ i b e. within (suc i) b e) known root leaves few,
      )

yes_count-all_yes :
    (c : Curve) (scalars : List c.Scalar) → yes_count c (all_yes c scalars) ≡ length scalars
yes_count-all_yes c [] = refl
yes_count-all_yes c (x ∷ scalars) = ap suc (yes_count-all_yes c scalars)

length-voting_keys :
    (c : Curve) (scalars : List c.Scalar)
    → length (voting_keys c (yes_or_no c (all_yes c scalars))) ≡ length scalars
unfolding voting_keys
length-voting_keys c [] = refl
length-voting_keys c (x ∷ scalars) = ap suc (length-voting_keys c scalars)

module _ (c : Curve) (laws : CurveLaws c) (m : MerkleTrees c) (tree_laws : MerkleLaws c m)
    (h : Host) (host_laws : HostLaws h) (config : VoteConfig)
    (digest : (bytes : Bytes) → is_given (c.sha256 bytes) ≡ true)
    (known : (a : AccountAddress) → h.is_account a ≡ true) (owner : AccountAddress)
    (register_at commit_at vote_at : Seat → Timestamp) (accounts : List AccountAddress) where
  abbrev whole_tree : m.Tree
  whole_tree = create_merkle_tree c m accounts

  completes :
      (now : Timestamp) (chain : h.Chain) (seats : List Seat) (points : List c.Point)
      {st : VotingState}
      → setup now (some config) ≡ ok st
      → AllPass c h config seats points
      → Distinct seats
      → length seats ≡ config.merkle_leaf_count
      → 2 ≤ length seats
      → config.merkle_leaf_count < 4294967296
      → ((t : Seat) → register_at t ≤ config.registration_timeout)
      → ((t : Seat) → commit_at t ≤ config.commit_timeout)
      → ((t : Seat) → vote_at t ≤ config.vote_timeout)
      → Completes c laws h host_laws config owner register_at commit_at vote_at points (
          run c h
            (election_calls owner config.deposit register_at commit_at vote_at seats)
            (record { state = st; chain = chain }))
  completes now chain [] points up pass distinct all many few t1 t2 t3 =
      absurd (omega (arith, many))
  completes now chain (s ∷ seats) points up pass distinct all many few t1 t2 t3 =
      run-Completes c laws h host_laws config owner register_at commit_at vote_at now chain s seats
        points up pass distinct all few t1 t2 t3

  -- A sum that is as many generators as there are votes is counted as that many yes and none no.
  counts :
      (fuel : ℕ) (v : Election c h) (votes : List c.Point)
      → v.state.voting_phase ≡ VotingPhase.result
      → vote_points c v.state.voters ≡ some votes
      → total c votes ≡ multiple c (length votes)
      → 1 ≤ length votes
      → length votes < 2147483648
      → ((j : ℕ) → j < length votes → multiple c j ≢ multiple c (length votes))
      → length votes < fuel
      → result c h fuel v ≡ (
        ok (length votes, 0),
        record v { state = record v.state { voting_result = (length votes, 0) } },
      )
  unfolding total
  counts fuel v [] at read sum some_vote few apart room = absurd (omega (arith, some_vote))
  counts fuel v (p ∷ votes) at read sum some_vote few apart room =
      let tally = sum_votes-total c laws p votes ∙ sum in
      let n = length (p ∷ votes) in
      let all : i32 n ≡ n = omega (arith, few) in
      let none_left : i32 (n + 4294967296 - i32 n) ≡ 0 = omega (arith, few) in
      result_counts c h laws fuel n v at read
        (record {
          bound = omega arith;
          meets = sym tally;
          least = λ j from below same. apart j below (same ∙ tally);
        })
        room
      ∙ ap (λ (t : ℕ × ℕ). (ok t, record v { state = record v.state { voting_result = t } }))
          (ap (λ k. (k, i32 (n + 4294967296 - i32 n))) all ∙ ap (λ k. (n, k)) none_left)

  -- The sum of the votes is one generator for each voter.
  votes_add_up :
      (keys : List c.Point) (scalars : List c.Scalar) (points : List c.Point)
      → cast_all c keys (yes_or_no c (all_yes c scalars)) ≡ some points
      → voting_keys c (yes_or_no c (all_yes c scalars)) ≡ keys
      → AllDiffer c (voting_keys c (yes_or_no c (all_yes c scalars)))
      → 2 ≤ length scalars
      → total c points ≡ multiple c (length scalars)
  votes_add_up keys scalars points cast own differ many =
      let voters = all_yes c scalars in
      let (votes, again, sum) =
        cast_all-total c laws (yes_or_no c voters) differ
          (omega (arith, many, length-voting_keys c scalars)) in
      let same : points ≡ votes =
        some-injective points votes
          (sym cast ∙ ap (λ ks. cast_all c ks (yes_or_no c voters)) (sym own) ∙ again) in
      ap (total c) same
      ∙ sum
      ∙ total-choices c laws voters
      ∙ ap (multiple c) (yes_count-all_yes c scalars)

  -- The messages of the program in an election with the root and the number of leaves of its tree.
  pub result_counts_all :
      (now : Timestamp) (chain : h.Chain) (fuel : ℕ) (draws : List (c.Scalar × c.Scalar))
      (vote_draws : List (c.Scalar × c.Scalar × c.Scalar))
      {messages : List RegisterMessage × List CommitMessage × List VoteMessage} {st : VotingState}
      → main c m accounts draws vote_draws ≡ some messages
      → setup now (some config) ≡ ok st
      → config.merkle_root ≡ m.root whole_tree
      → config.merkle_leaf_count ≡ i32 (m.leaves_len whole_tree)
      → length draws ≡ length accounts
      → 2 ≤ length accounts
      → length accounts < 2147483648
      → let seats = seats_of accounts messages.0 messages.1 messages.2 in
        AllReadable c seats
        → Distinct seats
        → AllDiffer c (voting_keys c (yes_or_no c (all_yes c (secrets_of c draws))))
        → ((t : Seat) → register_at t ≤ config.registration_timeout)
        → ((t : Seat) → commit_at t ≤ config.commit_timeout)
        → ((t : Seat) → vote_at t ≤ config.vote_timeout)
        → ((j : ℕ) → j < length accounts → multiple c j ≢ multiple c (length accounts))
        → length accounts < fuel
        → let v : Election c h =
            run c h
              (election_calls owner config.deposit register_at commit_at vote_at seats)
              (record { state = st; chain = chain }) in
          result c h fuel v ≡ (
            ok (length accounts, 0),
            record v { state = record v.state { voting_result = (length accounts, 0) } },
          )
  result_counts_all now chain fuel draws vote_draws {messages} {st} ran up root leaves as_many many
        few readable distinct differ t1 t2 t3 apart room =
      let n = length accounts in
      let seats = seats_of accounts messages.0 messages.1 messages.2 in
      let made = main-Made c m accounts draws vote_draws ran in
      let here =
        listed c m tree_laws h config accounts accounts (λ i a e. (i, e)) known root leaves few in
      let (points, pass, cast, own, seated, keyed) =
        all_pass c laws m h config digest whole_tree accounts draws made.keys made.registers
          made.commits made.votes here readable as_many in
      let secret = Registers-secrets_of c m whole_tree made.registers in
      let counted : config.merkle_leaf_count ≡ n =
        leaves ∙ leaves_len-tree c m tree_laws accounts few in
      let done =
        completes now chain seats points up pass distinct (seated ∙ sym counted)
          (omega (arith, seated, many)) (omega (arith, counted, few)) t1 t2 t3 in
      let sized : length made.scalars ≡ n =
        omega (arith, sym (length-voting_keys c made.scalars), ap length own, keyed) in
      let sum : total c done.votes ≡ multiple c n =
        done.same_sum
        ∙ votes_add_up made.keys made.scalars points cast own (rw secret differ)
            (omega (arith, sized, many))
        ∙ ap (multiple c) sized in
      let v : Election c h =
        run c h (election_calls owner config.deposit register_at commit_at vote_at seats)
          (record { state = st; chain = chain }) in
      let each : length done.votes ≡ n = done.as_many ∙ counted in
      subst
        (λ k.
          result c h fuel v
          ≡ (ok (k, 0), record v { state = record v.state { voting_result = (k, 0) } }))
        each
        (counts fuel v done.votes done.reached done.read (sum ∙ ap (multiple c) (sym each))
          (omega (arith, each, many)) (omega (arith, each, few)) (rw each apart)
          (omega (arith, each, room)))
