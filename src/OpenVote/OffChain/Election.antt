-- ===== src/OpenVote/OffChain/Election.antt =====
-- open-vote-network/off-chain/src/lib.rs: the votes of an election of honest voters, whose keys cancel
-- out in the sum.
use mathlib.Core.Path.{subst}
use mathlib.Core.List.{append_assoc}
use bachelor_project.Prelude.{
  ◌≤◌, ◌≡◌, ◌≢◌, refl, sym, ap, ◌∙◌, Option, some, List, [], ◌∷◌, ◌++◌, length, arith, Bool-cases,
  inl, inr,
}
use bachelor_project.OpenVote.Curve.{Curve, CurveLaws}
use bachelor_project.OpenVote.Util.{◌>>=◌}
use bachelor_project.OpenVote.OffChain.{subtract_point}
use bachelor_project.OpenVote.OffChain.Cancelling.{scale-identity, scale-zero, one_cancels}
use bachelor_project.OpenVote.OffChain.Keys.{position, compute_reconstructed_key}
use bachelor_project.OpenVote.OffChain.Reconstruction.{total, compute_reconstructed_key-total}

module _ (c : Curve) where
  -- A voter has a secret scalar and a choice, a point.
  abbrev pub HonestVoter : Type 0
  HonestVoter = c.Scalar × c.Point

  unfoldable pub voting_keys : List HonestVoter → List c.Point
  voting_keys [] = []
  voting_keys ((x, choice) ∷ voters) = c.scale c.generator x ∷ voting_keys voters

  unfoldable pub choices : List HonestVoter → List c.Point
  choices [] = []
  choices ((x, choice) ∷ voters) = choice ∷ choices voters

  unfoldable pub secrets : List HonestVoter → c.Scalar
  secrets [] = c.zero_scalar
  secrets ((x, choice) ∷ voters) = c.plus x (secrets voters)

  -- Each voter reconstructs the key from all voting keys, blinds it with the secret, and adds the
  -- choice.
  unfoldable pub cast_all : List c.Point → List HonestVoter → Option (List c.Point)
  cast_all keys [] = some []
  cast_all keys ((x, choice) ∷ voters) = do
    g_y ← compute_reconstructed_key c keys (c.scale c.generator x)
    votes ← cast_all keys voters
    some (c.add (c.scale g_y x) choice ∷ votes)

  -- No two are the same.
  abbrev pub DiffersFrom : c.Point → List c.Point → Type 0
  DiffersFrom k [] = Unit {0}
  DiffersFrom k (j ∷ keys) = (k ≢ j) × DiffersFrom k keys

  abbrev pub AllDiffer : List c.Point → Type 0
  AllDiffer [] = Unit {0}
  AllDiffer (k ∷ keys) = DiffersFrom k keys × AllDiffer keys

module _ (c : Curve) (laws : CurveLaws c) where
  -- The sum of the voting keys belongs to the sum of the secrets.
  total-voting_keys :
      (voters : List (HonestVoter c))
      → total c (voting_keys c voters) ≡ c.scale c.generator (secrets c voters)
  unfolding total voting_keys secrets
  total-voting_keys [] = sym (scale-zero c laws c.generator)
  total-voting_keys ((x, choice) ∷ voters) =
      ap (c.add (c.scale c.generator x)) (total-voting_keys voters)
      ∙ sym (laws.scale-plus c.generator x (secrets c voters))

  voting_keys-append :
      (xs ys : List (HonestVoter c))
      → voting_keys c (xs ++ ys) ≡ voting_keys c xs ++ voting_keys c ys
  unfolding voting_keys
  voting_keys-append [] ys = refl
  voting_keys-append (v ∷ xs) ys = ap (λ t. c.scale c.generator v.0 ∷ t) (voting_keys-append xs ys)

  total-append : (xs ys : List c.Point) → total c (xs ++ ys) ≡ c.add (total c xs) (total c ys)
  unfolding total
  total-append [] ys = sym (laws.add_comm c.identity (total c ys) ∙ laws.add-identity (total c ys))
  total-append (x ∷ xs) ys =
      ap (c.add x) (total-append xs ys) ∙ sym (laws.add_assoc x (total c xs) (total c ys))

  total_snoc :
      (done : List (HonestVoter c)) (v : HonestVoter c)
      → total c (voting_keys c (done ++ v ∷ []))
        ≡ c.add (total c (voting_keys c done)) (c.scale c.generator v.0)
  unfolding voting_keys total
  total_snoc done v =
      ap (total c) (voting_keys-append done (v ∷ []))
      ∙ total-append (voting_keys c done) (voting_keys c (v ∷ []))
      ∙ ap (c.add (total c (voting_keys c done))) (laws.add-identity (c.scale c.generator v.0))

  differs_later :
      (b : c.Point) (before after : List c.Point) (k : c.Point)
      → DiffersFrom c b (before ++ k ∷ after)
      → b ≢ k
  differs_later b [] after k d = d.0
  differs_later b (j ∷ before) after k d = differs_later b before after k d.1

  -- A key is found at its own place.
  position-own :
      (before after : List c.Point) (k : c.Point)
      → AllDiffer c (before ++ k ∷ after)
      → position c (before ++ k ∷ after) k ≡ some (length before)
  unfolding position
  position-own [] after k differ =
      let found = (laws.same_point_iff k k).1 refl in ground (arith, found)
  position-own (b ∷ before) after k differ =
      let other = differs_later b before after k differ.0 in
      elim (Bool-cases (c.same_point b k)) [
        | inl same ↦ absurd (other ((laws.same_point_iff b k).0 same))
        | inr apart ↦ ground (arith, apart, position-own before after k differ.1)
      ]

  -- The voters of `todo`, after those of `done`, cast votes whose sum is blinded by the sum of the
  -- keys before them only.
  cast_rest :
      (done todo : List (HonestVoter c))
      → let keys = voting_keys c (done ++ todo) in
        AllDiffer c keys
        → 2 ≤ length keys
        → (votes : List c.Point) × (cast_all c keys todo ≡ some votes)
          × (total c votes
              ≡ c.add
                  (c.scale (total c (voting_keys c done)) (secrets c todo))
                  (total c (choices c todo)))
  unfolding cast_all choices secrets voting_keys total
  cast_rest done [] differ many = (
    [],
    refl,
    sym (
        ap (λ t. c.add t c.identity) (scale-zero c laws (total c (voting_keys c done)))
        ∙ laws.add-identity c.identity),
  )
  cast_rest done ((x, choice) ∷ todo) differ many =
      let g = c.generator in
      let v : HonestVoter c = (x, choice) in
      let keys = voting_keys c (done ++ v ∷ todo) in
      let p = total c (voting_keys c done) in
      let here : keys ≡ voting_keys c done ++ c.scale g x ∷ voting_keys c todo =
        voting_keys-append done (v ∷ todo) in
      let key : compute_reconstructed_key c keys (c.scale g x)
          ≡ some (subtract_point c p (total c (voting_keys c todo))) =
        rw here (
          compute_reconstructed_key-total c laws (voting_keys c done) (voting_keys c todo)
            (c.scale g x)
            (position-own (voting_keys c done) (voting_keys c todo) (c.scale g x)
              (rw here at differ))
            (rw here at many)) in
      let moved : (done ++ v ∷ []) ++ todo ≡ done ++ v ∷ todo = append_assoc done (v ∷ []) todo in
      let (votes, cast, sum) = cast_rest (done ++ v ∷ []) todo (rw moved differ) (rw moved many) in
      (
        c.add (c.scale (subtract_point c p (total c (voting_keys c todo))) x) choice ∷ votes,
        ground
            (arith, key, subst (λ ks. cast_all c (voting_keys c ks) todo ≡ some votes) moved cast),
        ap (λ t. c.add (c.add (c.scale (subtract_point c p t) x) choice) (total c votes))
              (total-voting_keys todo)
            ∙ ap
                (c.add (c.add (c.scale (subtract_point c p (c.scale g (secrets c todo))) x) choice))
                (sum
                  ∙ ap (λ t. c.add (c.scale t (secrets c todo)) (total c (choices c todo)))
                      (total_snoc done v))
            ∙ one_cancels c laws p choice (total c (choices c todo)) x (secrets c todo),
      )

  -- Two voters or more, whose voting keys differ, all reconstruct a key and cast a vote, and in the
  -- sum of the votes the keys cancel out: it is the sum of the choices.
  pub cast_all-total :
      (voters : List (HonestVoter c))
      → AllDiffer c (voting_keys c voters)
      → 2 ≤ length (voting_keys c voters)
      → (votes : List c.Point) × (cast_all c (voting_keys c voters) voters ≡ some votes)
        × (total c votes ≡ total c (choices c voters))
  unfolding voting_keys total
  cast_all-total voters differ many =
      let (votes, cast, sum) = cast_rest [] voters differ many in
      (
        votes,
        cast,
        sum
            ∙ ap (λ t. c.add t (total c (choices c voters)))
                (scale-identity c laws (secrets c voters))
            ∙ laws.add_comm c.identity (total c (choices c voters))
            ∙ laws.add-identity (total c (choices c voters)),
      )
