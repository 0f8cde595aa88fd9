-- ===== src/Selector/Draw.antt =====
-- The weighted random choice: each candidate is drawn for as many targets as its weight says.
use caddy_dynamic_routing.Base.{
  ℕ, ◌+◌, ◌≤◌, ◌<◌, ◌≡◌, refl, ap, ◌∙◌, List, [], ◌∷◌, ◌++◌, some, arith, length, get_elem?,
  get_elem?_total, get_elem?-In, In, inl, inr, Bool-cases, Option-cases,
}
use caddy_dynamic_routing.Base.Int.{ℤ, pos, pos_part, int_limit, ◌+ℤ◌, +ℤ-pos, ltb_ℤ, leb_ℤ}
use caddy_dynamic_routing.Config.{WeightedUpstream, effective_weight}
use caddy_dynamic_routing.Config.Normal.{effective_weight_lem}
use caddy_dynamic_routing.Selector.Smooth.{int_weight}
use caddy_dynamic_routing.Selector.{
  Pick, chosen, at, total_weight, draw_from, select_weighted_random,
}

-- The sum of the effective weights
unfoldable pub weight_sum : List WeightedUpstream → ℕ
weight_sum [] = 0
weight_sum (u ∷ us) = effective_weight u.weight + weight_sum us

total_weight_lem :
    (us : List WeightedUpstream) (t : ℕ)
    → t + weight_sum us < int_limit
    → total_weight (pos t) us ≡ pos (t + weight_sum us)
unfolding total_weight weight_sum
total_weight_lem [] t h = ap pos (omega arith)
total_weight_lem (u ∷ us) t h =
    ap (λ n. total_weight n us) (+ℤ-pos t (effective_weight u.weight) (omega arith))
    ∙ (total_weight_lem us (t + effective_weight u.weight) (omega arith) ∙ ap pos (omega arith))

weight_sum-append :
    (us vs : List WeightedUpstream) → weight_sum (us ++ vs) ≡ weight_sum us + weight_sum vs
unfolding weight_sum
weight_sum-append [] vs = omega arith
weight_sum-append (u ∷ us) vs = omega (arith, weight_sum-append us vs)

weight_sum_middle :
    (us : List WeightedUpstream) (u : WeightedUpstream) (vs : List WeightedUpstream)
    → 0 < weight_sum (us ++ u ∷ vs)
unfolding weight_sum
weight_sum_middle us u vs =
    omega (arith, weight_sum-append us (u ∷ vs), (effective_weight_lem u.weight).0)

draw_from_lem :
    (us : List WeightedUpstream) (u : WeightedUpstream) (vs : List WeightedUpstream) (c t : ℕ)
    → c + weight_sum (us ++ u ∷ vs) < int_limit
    → c + weight_sum us ≤ t
    → t < c + weight_sum us + effective_weight u.weight
    → draw_from (pos t) (pos c) (us ++ u ∷ vs) ≡ some u
unfolding draw_from weight_sum
draw_from_lem [] u vs c t l h k =
    rw (+ℤ-pos c (effective_weight u.weight) (omega arith)) (ground arith)
draw_from_lem (v ∷ us) u vs c t l h k = rw (+ℤ-pos c (effective_weight v.weight) (omega arith)) (
    ground (
      arith,
      draw_from_lem us u vs (c + effective_weight v.weight) t (omega arith) (omega arith)
          (omega arith),
    ))

-- The candidate `u` is drawn for exactly the targets from the weight before it up to that weight and
-- its own: as many of the equally likely targets as its effective weight. (The weights add up to
-- less than 2 ^ 63.)
pub select_weighted_random_lem :
    (rand : ℕ → ℕ) (us : List WeightedUpstream) (u : WeightedUpstream) (vs : List WeightedUpstream)
    → weight_sum (us ++ u ∷ vs) < int_limit
    → weight_sum us ≤ rand (weight_sum (us ++ u ∷ vs))
    → rand (weight_sum (us ++ u ∷ vs)) < weight_sum us + effective_weight u.weight
    → select_weighted_random rand (us ++ u ∷ vs) ≡ chosen u
unfolding select_weighted_random
select_weighted_random_lem rand us u vs l h k =
    let xs = us ++ u ∷ vs in
    let e : total_weight (pos 0) xs ≡ pos (weight_sum xs) =
      total_weight_lem xs 0 (omega arith) ∙ ap pos (omega arith) in
    let d =
      draw_from_lem us u vs 0 (rand (weight_sum xs)) (omega arith) (omega arith) (omega arith) in
    let positive = weight_sum_middle us u vs in rw (e, d) (ground arith)

-- A pick that is one of the candidates
abbrev pub IsChoice : List WeightedUpstream → Pick → Type 0
IsChoice us p = (u : WeightedUpstream) × (p ≡ chosen u) × In u us

pub elem-IsChoice :
    (us : List WeightedUpstream) (i : ℕ) → i < length us → IsChoice us (at (get_elem? us i))
elem-IsChoice us i h = let (u, e) = get_elem?_total us i h in (u, ap at e, get_elem?-In us i e)

draw_from-In :
    (target c : ℤ) (us : List WeightedUpstream) (u : WeightedUpstream)
    → draw_from target c us ≡ some u
    → In u us
unfolding draw_from
draw_from-In target c [] u h = absurd (cc)
draw_from-In target c (v ∷ us) u h = elim (Bool-cases (ltb_ℤ target (c +ℤ int_weight v))) [
  | inl e ↦ inl (ground arith)
  | inr e ↦ inr (draw_from-In target (c +ℤ int_weight v) us u (ground arith))
]

-- `rand.Intn(n)` is below `n`.
abbrev pub IsIntn : (ℕ → ℕ) → Type 0
IsIntn rand = (n : ℕ) → 0 < n → rand n < n

-- Even where the sum of the weights overflows, the choice is one of the candidates.
pub select_weighted_random-IsChoice :
    (rand : ℕ → ℕ) (u : WeightedUpstream) (us : List WeightedUpstream)
    → IsIntn rand
    → IsChoice (u ∷ us) (select_weighted_random rand (u ∷ us))
unfolding select_weighted_random
select_weighted_random-IsChoice rand u us h =
    let total = total_weight (pos 0) (u ∷ us) in
    elim (Bool-cases (leb_ℤ total (pos 0))) [
      | inl e ↦ rw e (elem-IsChoice (u ∷ us) (rand (length (u ∷ us))) (h _ (omega arith)))
      | inr e ↦ elim (Option-cases (draw_from (pos (rand (pos_part total))) (pos 0) (u ∷ us))) [
        | inl empty ↦ rw (e, empty) (u, refl, inl refl)
        | inr (v, drawn) ↦ rw (e, drawn) (v, refl, draw_from-In _ _ (u ∷ us) v drawn)
      ]
    ]
