-- ===== src/OpenVote/OffChain/Program/Rounds.antt =====
-- open-vote-network/off-chain/src/main.rs: what each round of the loops has made, when none panics.
use mathlib.Core.Path.{subst}
use mathlib.Core.Option.{some-injective}
use bachelor_project.Prelude.{◌≡◌, refl, ap, some, List, [], ◌∷◌}
use bachelor_project.Prelude.Options.{bind-some}
use bachelor_project.Contract.{AccountAddress}
use bachelor_project.OpenVote.Curve.{Curve}
use bachelor_project.OpenVote.Merkle.{MerkleTrees}
use bachelor_project.OpenVote.Util.{SchnorrProof, MerkleProof, OneInTwoZkp}
use bachelor_project.OpenVote.Types.{RegisterMessage, CommitMessage, VoteMessage}
use bachelor_project.OpenVote.OffChain.{
  create_votingkey_pair, create_schnorr_zkp, create_one_in_two_zkp_yes, commit_to_vote,
}
use bachelor_project.OpenVote.OffChain.Keys.{compute_reconstructed_key}
use bachelor_project.OpenVote.OffChain.Membership.{create_merkle_tree, create_merkle_proof}
use bachelor_project.OpenVote.OffChain.Program.{
  main, make_register_msg, commit_rounds, make_vote_msg,
}

module _ (c : Curve) (m : MerkleTrees c) (tree : m.Tree) where
  pub data Registers
      : List AccountAddress
        → List (c.Scalar × c.Scalar)
        → List RegisterMessage
        → List c.Scalar
        → List c.Point
        → Type 0 where
    no_round : {accounts : List AccountAddress} → Registers accounts [] [] [] []
    next_round :
        {a : AccountAddress} {accounts : List AccountAddress} {x w : c.Scalar}
        {draws : List (c.Scalar × c.Scalar)} {messages : List RegisterMessage}
        {scalars : List c.Scalar} {keys : List c.Point} (schnorr : SchnorrProof)
        (proof : MerkleProof)
        → create_schnorr_zkp c w (c.scale c.generator x) x ≡ some schnorr
        → create_merkle_proof c m a tree ≡ some proof
        → Registers accounts draws messages scalars keys
        → Registers
            (a ∷ accounts)
            ((x, w) ∷ draws)
            (record {
              voting_key = c.point_bytes (c.scale c.generator x);
              voting_key_zkp = schnorr;
              merkle_proof = proof;
            }
              ∷ messages)
            (x ∷ scalars)
            (c.scale c.generator x ∷ keys)

  pub make_register_msg-Registers :
      (accounts : List AccountAddress) (draws : List (c.Scalar × c.Scalar))
      {messages : List RegisterMessage} {scalars : List c.Scalar} {keys : List c.Point}
      → make_register_msg c m tree accounts draws ≡ some (messages, scalars, keys)
      → Registers accounts draws messages scalars keys
  unfolding make_register_msg create_votingkey_pair
  make_register_msg-Registers accounts [] e =
      subst (λ t. Registers accounts [] t.0 t.1 t.2) (some-injective _ _ e) no_round
  make_register_msg-Registers [] (d ∷ draws) e = cc
  make_register_msg-Registers (a ∷ accounts) ((x, w) ∷ draws) e =
      let (schnorr, made, e1) = bind-some (create_schnorr_zkp c w (c.scale c.generator x) x) _ e in
      let (proof, proved, e2) = bind-some (create_merkle_proof c m a tree) _ e1 in
      let ((messages, scalars, keys), rest, e3) =
        bind-some (make_register_msg c m tree accounts draws) _ e2 in
      subst (λ t. Registers (a ∷ accounts) ((x, w) ∷ draws) t.0 t.1 t.2) (some-injective _ _ e3)
        (next_round schnorr proof made proved (make_register_msg-Registers accounts draws rest))

-- The secrets that are drawn.
abbrev pub secrets_of : (c : Curve) → List (c.Scalar × c.Scalar) → List c.Scalar
secrets_of c [] = []
secrets_of c ((x, w) ∷ draws) = x ∷ secrets_of c draws

pub Registers-secrets_of :
    (c : Curve) (m : MerkleTrees c) (tree : m.Tree) {accounts : List AccountAddress}
    {draws : List (c.Scalar × c.Scalar)} {messages : List RegisterMessage} {scalars : List c.Scalar}
    {keys : List c.Point}
    → Registers c m tree accounts draws messages scalars keys
    → scalars ≡ secrets_of c draws
Registers-secrets_of c m tree Registers.no_round = refl
Registers-secrets_of c m tree (Registers.next_round {x = x} schnorr proof made proved rs) =
    ap (λ t. x ∷ t) (Registers-secrets_of c m tree rs)

module _ (c : Curve) where
  pub data Commits (voting_keys : List c.Point)
      : List c.Scalar → List c.Point → List CommitMessage → List c.Point → Type 0 where
    no_round : {scalars : List c.Scalar} → Commits voting_keys scalars [] [] []
    next_round :
        {x : c.Scalar} {scalars : List c.Scalar} {k : c.Point} {keys : List c.Point}
        {messages : List CommitMessage} {reconstructed_keys : List c.Point} (g_y : c.Point)
        → compute_reconstructed_key c voting_keys k ≡ some g_y
        → Commits voting_keys scalars keys messages reconstructed_keys
        → Commits voting_keys
            (x ∷ scalars)
            (k ∷ keys)
            (record {
              reconstructed_key = c.point_bytes g_y;
              commitment = commit_to_vote c x g_y c.generator;
            }
              ∷ messages)
            (g_y ∷ reconstructed_keys)

  pub commit_rounds-Commits :
      (voting_keys : List c.Point) (scalars : List c.Scalar) (keys : List c.Point)
      {messages : List CommitMessage} {reconstructed_keys : List c.Point}
      → commit_rounds c voting_keys scalars keys ≡ some (messages, reconstructed_keys)
      → Commits voting_keys scalars keys messages reconstructed_keys
  unfolding commit_rounds
  commit_rounds-Commits all scalars [] e =
      subst (λ t. Commits all scalars [] t.0 t.1) (some-injective _ _ e) no_round
  commit_rounds-Commits all [] (k ∷ keys) e = cc
  commit_rounds-Commits all (x ∷ scalars) (k ∷ keys) e =
      let (g_y, found, e1) = bind-some (compute_reconstructed_key c all k) _ e in
      let ((messages, reconstructed_keys), rest, e2) =
        bind-some (commit_rounds c all scalars keys) _ e1 in
      subst (λ t. Commits all (x ∷ scalars) (k ∷ keys) t.0 t.1) (some-injective _ _ e2)
        (next_round g_y found (commit_rounds-Commits all scalars keys rest))

  pub data Votes
      : List (c.Scalar × c.Scalar × c.Scalar)
        → List c.Scalar
        → List c.Point
        → List c.Point
        → List VoteMessage
        → Type 0 where
    no_round :
        {draws : List (c.Scalar × c.Scalar × c.Scalar)} {scalars : List c.Scalar}
        {reconstructed_keys : List c.Point}
        → Votes draws scalars [] reconstructed_keys []
    next_round :
        {w r1 d1 x : c.Scalar} {draws : List (c.Scalar × c.Scalar × c.Scalar)}
        {scalars : List c.Scalar} {k g_y : c.Point} {keys reconstructed_keys : List c.Point}
        {messages : List VoteMessage} (zkp : OneInTwoZkp)
        → create_one_in_two_zkp_yes c w r1 d1 k g_y x ≡ some zkp
        → Votes draws scalars keys reconstructed_keys messages
        → Votes ((w, r1, d1) ∷ draws) (x ∷ scalars) (k ∷ keys) (g_y ∷ reconstructed_keys) (
            record { vote = c.point_bytes (c.add (c.scale g_y x) c.generator); vote_zkp = zkp }
            ∷ messages)

  pub make_vote_msg-Votes :
      (draws : List (c.Scalar × c.Scalar × c.Scalar)) (scalars : List c.Scalar)
      (keys reconstructed_keys : List c.Point) {messages : List VoteMessage}
      → make_vote_msg c draws scalars keys reconstructed_keys ≡ some messages
      → Votes draws scalars keys reconstructed_keys messages
  unfolding make_vote_msg
  make_vote_msg-Votes draws scalars [] reconstructed_keys e =
      subst (λ t. Votes draws scalars [] reconstructed_keys t) (some-injective _ _ e) no_round
  make_vote_msg-Votes ((w, r1, d1) ∷ draws) (x ∷ scalars) (k ∷ keys) (g_y ∷ reconstructed_keys) e =
      let (zkp, made, e1) = bind-some (create_one_in_two_zkp_yes c w r1 d1 k g_y x) _ e in
      let (messages, rest, e2) =
        bind-some (make_vote_msg c draws scalars keys reconstructed_keys) _ e1 in
      subst (λ t. Votes ((w, r1, d1) ∷ draws) (x ∷ scalars) (k ∷ keys) (g_y ∷ reconstructed_keys) t)
        (some-injective _ _ e2)
        (next_round zkp made (make_vote_msg-Votes draws scalars keys reconstructed_keys rest))
  make_vote_msg-Votes [] scalars (k ∷ keys) reconstructed_keys e = cc
  make_vote_msg-Votes (d ∷ draws) [] (k ∷ keys) reconstructed_keys e = cc
  make_vote_msg-Votes (d ∷ draws) (x ∷ scalars) (k ∷ keys) [] e = cc

-- What `main` has made.
pub record Made (c : Curve) (m : MerkleTrees c) (accounts : List AccountAddress)
    (draws : List (c.Scalar × c.Scalar)) (vote_draws : List (c.Scalar × c.Scalar × c.Scalar))
    (messages : List RegisterMessage × List CommitMessage × List VoteMessage) : Type 0 where
  pub scalars : List c.Scalar
  pub keys : List c.Point
  pub again : List c.Point
  pub registers :
      Registers c m (create_merkle_tree c m accounts) accounts draws messages.0 scalars keys
  pub commits : Commits c keys scalars keys messages.1 again
  pub votes : Votes c vote_draws scalars keys again messages.2

pub main-Made :
    (c : Curve) (m : MerkleTrees c) (accounts : List AccountAddress)
    (draws : List (c.Scalar × c.Scalar)) (vote_draws : List (c.Scalar × c.Scalar × c.Scalar))
    {messages : List RegisterMessage × List CommitMessage × List VoteMessage}
    → main c m accounts draws vote_draws ≡ some messages
    → Made c m accounts draws vote_draws messages
unfolding main
main-Made c m accounts draws vote_draws e =
    let ((registers, scalars, keys), e0, e1) =
      bind-some (make_register_msg c m (create_merkle_tree c m accounts) accounts draws) _ e in
    let ((commits, again), e2, e3) = bind-some (commit_rounds c keys scalars keys) _ e1 in
    let (votes, e4, e5) = bind-some (make_vote_msg c vote_draws scalars keys again) _ e3 in
    subst (λ t. Made c m accounts draws vote_draws t) (some-injective _ _ e5)
      (record {
        scalars = scalars;
        keys = keys;
        again = again;
        registers =
            make_register_msg-Registers c m (create_merkle_tree c m accounts) accounts draws e0;
        commits = commit_rounds-Commits c keys scalars keys e2;
        votes = make_vote_msg-Votes c vote_draws scalars keys again e4;
      })
