-- ===== src/Selector/Smooth/Ledger.antt =====
-- The books of the smooth round-robin: each candidate's current weight against the number of times it
-- was chosen.
use caddy_dynamic_routing.Base.{
  ℕ, zero, suc, ◌+◌, ◌*◌, ◌≤◌, ◌<◌, ◌≡◌, refl, ap, false, List, [], ◌∷◌, map, some, arith,
  get_elem?, set, length, All,
}
use mathlib.Core.Path.{ap₂}
use caddy_dynamic_routing.Base.Int.{
  ℤ, pos, pos_part, neg_part, int_limit, IsSmall, ◌+ℤ◌, ◌-ℤ◌, +ℤ_parts, ltb_ℤ,
}
use caddy_dynamic_routing.Selector.Smooth.Argmax.{raise, IsMax}

abbrev pub sum : List ℕ → ℕ
sum [] = 0
sum (n ∷ ns) = n + sum ns

abbrev pub pos_sum : List ℤ → ℕ
pos_sum [] = 0
pos_sum (c ∷ cs) = pos_part c + pos_sum cs

abbrev pub neg_sum : List ℤ → ℕ
neg_sum [] = 0
neg_sum (c ∷ cs) = neg_part c + neg_sum cs

-- After `n` rounds a candidate of weight `w`, chosen `k` times, has the current weight
-- `n * w - total * k`, and that is above `- total`.
abbrev pub Tracks : ℕ → ℕ → List ℕ → List ℤ → List ℕ → Type 0
Tracks total n (w ∷ ws) (c ∷ cs) (k ∷ ks) =
    (pos_part c + total * k ≡ n * w + neg_part c) × (neg_part c < total) × Tracks total n ws cs ks
Tracks total n [] [] [] = Unit
Tracks total n _ _ _ = ⊥

-- One more choice of the candidate at an index
abbrev pub count_at : ℕ → List ℕ → List ℕ
count_at i [] = []
count_at zero (k ∷ ks) = suc k ∷ ks
count_at (suc i) (k ∷ ks) = k ∷ count_at i ks

pub Tracks-sums :
    (total n : ℕ) (ws : List ℕ) (cs : List ℤ) (ks : List ℕ)
    → Tracks total n ws cs ks
    → (pos_sum cs + total * sum ks ≡ n * sum ws + neg_sum cs) × (neg_sum cs ≤ length ws * total)
Tracks-sums total n [] [] [] t = (omega arith, omega arith)
Tracks-sums total n (w ∷ ws) (c ∷ cs) (k ∷ ks) (e, b, t) =
    let (s, q) = Tracks-sums total n ws cs ks t in (omega arith, omega arith)
Tracks-sums total n [] [] (k ∷ ks) t = elim t [ ]
Tracks-sums total n [] (c ∷ cs) ks t = elim t [ ]
Tracks-sums total n (w ∷ ws) [] ks t = elim t [ ]
Tracks-sums total n (w ∷ ws) (c ∷ cs) [] t = elim t [ ]

pub IsSmall-of_sums :
    (b : ℕ) (cs : List ℤ) → pos_sum cs ≤ b → neg_sum cs ≤ b → 2 * b < int_limit → All IsSmall cs
IsSmall-of_sums b [] p q h = tt
IsSmall-of_sums b (c ∷ cs) p q h =
    ((omega arith, omega arith), IsSmall-of_sums b cs (omega arith) (omega arith) h)

raise_neg : (c : ℤ) (w : ℕ) → IsSmall c → 2 * w < int_limit → neg_part (c +ℤ pos w) ≤ neg_part c
unfolding ◌+ℤ◌
raise_neg c w h k = ground arith

-- Raising every current weight by the weight is one more round, with no choice made yet.
pub Tracks-raise :
    (total n : ℕ) (ws : List ℕ) (cs : List ℤ) (ks : List ℕ)
    → All IsSmall cs
    → All (λ w. 2 * w < int_limit) ws
    → Tracks total n ws cs ks
    → Tracks total (suc n) ws (raise (map pos ws) cs) ks
unfolding raise
Tracks-raise total n [] [] [] s l t = tt
Tracks-raise total n (w ∷ ws) (c ∷ cs) (k ∷ ks) (s, ss) (l, ls) (e, b, t) = (
  omega (arith, +ℤ_parts c (pos w) s (l, omega arith)),
  omega (arith, raise_neg c w s l),
  Tracks-raise total n ws cs ks ss ls t,
)
Tracks-raise total n [] [] (k ∷ ks) s l t = elim t [ ]
Tracks-raise total n [] (c ∷ cs) ks s l t = elim t [ ]
Tracks-raise total n (w ∷ ws) [] ks s l t = elim t [ ]
Tracks-raise total n (w ∷ ws) (c ∷ cs) [] s l t = elim t [ ]

lower_parts :
    (v : ℤ) (total : ℕ)
    → 2 * pos_part v < int_limit
    → 0 < pos_part v
    → 0 < total
    → 2 * total < int_limit
    → (pos_part (v -ℤ pos total) + total ≡ pos_part v + neg_part (v -ℤ pos total))
      × (neg_part (v -ℤ pos total) < total)
unfolding ◌-ℤ◌
lower_parts v total h p q l = ground arith

-- The choice of a candidate whose raised weight is positive keeps the books.
pub Tracks-choose :
    (total n : ℕ) (ws : List ℕ) (cs : List ℤ) (ks : List ℕ) (i : ℕ) (v : ℤ)
    → 0 < total
    → 2 * total < int_limit
    → get_elem? cs i ≡ some v
    → 0 < pos_part v
    → 2 * pos_part v < int_limit
    → Tracks total n ws cs ks
    → Tracks total n ws (set cs i (v -ℤ pos total)) (count_at i ks)
Tracks-choose total n (w ∷ ws) (c ∷ cs) (k ∷ ks) zero v p l at q s (e, b, t) =
    let same : c ≡ v = ground arith in
    let (f, g) = lower_parts v total s q p l in
    let e' : pos_part v + total * k ≡ n * w + neg_part v = rw same at e in
    let z : neg_part v ≡ 0 = ground arith in (omega arith, g, t)
Tracks-choose total n (w ∷ ws) (c ∷ cs) (k ∷ ks) (suc i) v p l at q s (e, b, t) =
    (e, b, Tracks-choose total n ws cs ks i v p l at q s t)
Tracks-choose total n [] [] [] i v p l at q s t = absurd (cc)
Tracks-choose total n [] [] (k ∷ ks) i v p l at q s t = elim t [ ]
Tracks-choose total n [] (c ∷ cs) ks i v p l at q s t = elim t [ ]
Tracks-choose total n (w ∷ ws) [] ks i v p l at q s t = elim t [ ]
Tracks-choose total n (w ∷ ws) (c ∷ cs) [] i v p l at q s t = elim t [ ]

pub sum-count_at : (i : ℕ) (ks : List ℕ) → i < length ks → sum (count_at i ks) ≡ suc (sum ks)
sum-count_at i [] h = absurd (omega arith)
sum-count_at zero (k ∷ ks) h = omega arith
sum-count_at (suc i) (k ∷ ks) h = omega (arith, sum-count_at i ks (omega arith))

pub length-count_at : (i : ℕ) (ks : List ℕ) → length (count_at i ks) ≡ length ks
length-count_at i [] = refl
length-count_at zero (k ∷ ks) = refl
length-count_at (suc i) (k ∷ ks) = ap suc (length-count_at i ks)

-- A highest entry that is not positive leaves nothing positive.
pub pos_sum_of_max : (cs : List ℤ) (v : ℤ) → IsMax cs v → pos_part v ≡ 0 → pos_sum cs ≡ 0
pos_sum_of_max [] v h z = refl
pos_sum_of_max (c ∷ cs) v h z =
    let top : ltb_ℤ v c ≡ false = h 0 c refl in
    omega (arith, pos_sum_of_max cs v (λ j x e. h (suc j) x e) z, not_above c v top z)
  where
    not_above : (c v : ℤ) → ltb_ℤ v c ≡ false → pos_part v ≡ 0 → pos_part c ≡ 0
    not_above c v h z = ground arith

-- Once the choices made reach the total, each candidate has been chosen as often as its weight says,
-- and every current weight is back at 0.
cancel_total : (total w k : ℕ) → total * k < total * w + total → k ≤ w
cancel_total total w k h = grind arith

le_of_Tracks :
    (total : ℕ) (ws : List ℕ) (cs : List ℤ) (ks : List ℕ)
    → Tracks total total ws cs ks
    → sum ks ≤ sum ws
le_of_Tracks total [] [] [] t = omega arith
le_of_Tracks total (w ∷ ws) (c ∷ cs) (k ∷ ks) (e, b, t) =
    omega (arith, cancel_total total w k (omega arith), le_of_Tracks total ws cs ks t)
le_of_Tracks total [] [] (k ∷ ks) t = elim t [ ]
le_of_Tracks total [] (c ∷ cs) ks t = elim t [ ]
le_of_Tracks total (w ∷ ws) [] ks t = elim t [ ]
le_of_Tracks total (w ∷ ws) (c ∷ cs) [] t = elim t [ ]

pub full_cycle :
    (total : ℕ) (ws : List ℕ) (cs : List ℤ) (ks : List ℕ)
    → sum ks ≡ sum ws
    → Tracks total total ws cs ks
    → (ks ≡ ws) × (cs ≡ map (λ w. pos 0) ws)
full_cycle total [] [] [] s t = (refl, refl)
full_cycle total (w ∷ ws) (c ∷ cs) (k ∷ ks) s (e, b, t) =
    let k_le = cancel_total total w k (omega arith) in
    let same : k ≡ w = omega (arith, le_of_Tracks total ws cs ks t) in
    let (f, g) = full_cycle total ws cs ks (omega arith) t in
    let balance : pos_part c ≡ neg_part c = omega (arith, ap (λ (t : ℕ). total * t) same) in
    (ap₂ (◌∷◌) same f, ap₂ (◌∷◌) (zero_of_balance c balance) g)
  where
    zero_of_balance : (c : ℤ) → pos_part c ≡ neg_part c → c ≡ pos 0
    zero_of_balance c h = ground arith
full_cycle total [] [] (k ∷ ks) s t = elim t [ ]
full_cycle total [] (c ∷ cs) ks s t = elim t [ ]
full_cycle total (w ∷ ws) [] ks s t = elim t [ ]
full_cycle total (w ∷ ws) (c ∷ cs) [] s t = elim t [ ]
