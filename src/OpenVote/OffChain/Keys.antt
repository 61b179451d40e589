-- ===== src/OpenVote/OffChain/Keys.antt =====
-- open-vote-network/off-chain/src/lib.rs: `compute_reconstructed_key`. Its loops over an index run
-- to an end that is known before, so they are recursions on how many indices are left.
use bachelor_project.Prelude.{
  ℕ, zero, suc, ◌+◌, ◌-◌, Option, none, some, List, [], ◌∷◌, true, false, ltb, ◌==◌, length,
  get_elem?, if◌then◌else◌,
}
use bachelor_project.OpenVote.Curve.{Curve}
use bachelor_project.OpenVote.Util.{◌>>=◌}

module _ (c : Curve) where
  -- `keys.iter().position(|k| *k == g_x)`
  unfoldable pub position : List c.Point → c.Point → Option ℕ
  position [] g_x = none
  position (k ∷ keys) g_x = elim (c.same_point k g_x) [
    | true ↦ some 0
    | false ↦ elim (position keys g_x) [ none ↦ none | some i ↦ some (suc i) ]
  ]

  -- `for i in i..i + left { after_points = after_points + keys[i] }`
  unfoldable pub sum_keys : List c.Point → ℕ → ℕ → c.Point → Option c.Point
  sum_keys keys zero i after_points = some after_points
  sum_keys keys (suc left) i after_points = do
    key ← get_elem? keys i
    sum_keys keys left (i + 1) (c.add after_points key)

  -- One round of the second loop, at the index `j`.
  unfoldable pub split_round : ℕ → ℕ → c.Point → c.Point × c.Point → c.Point × c.Point
  split_round at j key (before_points, after_points) =
      if j == at
      then (before_points, after_points)
      else if ltb j at
      then (c.add before_points key, after_points)
      else (before_points, c.add after_points key)

  -- `for j in j..j + left`
  unfoldable pub split_keys :
      List c.Point → ℕ → ℕ → ℕ → c.Point × c.Point → Option (c.Point × c.Point)
  split_keys keys at zero j points = some points
  split_keys keys at (suc left) j points = do
    key ← get_elem? keys j
    split_keys keys at left (j + 1) (split_round at j key points)

  unfoldable pub compute_reconstructed_key : List c.Point → c.Point → Option c.Point
  compute_reconstructed_key keys g_x = do
    at ← position keys g_x
    last ← get_elem? keys (length keys - 1)
    if at == 0
        then sum_keys keys (length keys - 1 - 1) 1 last
          >>= (λ after_points. some (c.neg after_points))
        else do
          first ← get_elem? keys 0
          (before_points, after_points) ← split_keys keys at (length keys - 1 - 1) 1 (first, last)
          some (
              if at == length keys - 1
              then before_points
              else c.add before_points (c.neg after_points))
