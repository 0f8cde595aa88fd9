-- ===== src/Selector/Conn/Least.antt =====
-- What the connection counts keep, and that `selectLeastConn` takes the least loaded candidate.
use caddy_dynamic_routing.Base.{
  ℕ, ◌*◌, ◌≤◌, ◌<◌, ◌≡◌, refl, ap, ◌∙◌, true, false, List, [], ◌∷◌, some, Text, str_eq, str_eq_refl,
  str_eq_iff, if◌then◌else◌, arith, All, In, inl, inr, Bool-cases,
}
use native.Mathlib.Nat.{mul-le-mul_left, le_of_mul-le-mul_left, le_of_lt}
use caddy_dynamic_routing.Base.Int.{
  ℤ, pos, negsuc, pos_part, neg_part, int_limit, IsSmall, ◌+ℤ◌, *ℤ-pos,
}
use caddy_dynamic_routing.Config.{WeightedUpstream, effective_weight}
use caddy_dynamic_routing.Config.Normal.{effective_weight_lem}
use caddy_dynamic_routing.Selector.Smooth.{int_weight}
use caddy_dynamic_routing.Selector.Conn.{
  Counts, count?, conn_count, increment_conn, decrement_conn, is_better, least_from,
  select_least_conn, count?-add_to,
}

add_one_back : (n : ℤ) → IsSmall n → n +ℤ pos 1 +ℤ negsuc 0 ≡ n
unfolding ◌+ℤ◌
add_one_back n h = ground arith

count?-cons :
    (a b : Text) (cs : Counts)
    → count? b ((a, pos 0) ∷ cs) ≡ (if str_eq a b then some (pos 0) else count? b cs)
unfolding count?
count?-cons a b cs = refl

-- A new connection raises the count of its address by 1 and leaves the others.
conn_count-increment_conn :
    (a b : Text) (cs : Counts)
    → conn_count b (increment_conn a cs)
      ≡ (if str_eq a b then conn_count a cs +ℤ pos 1 else conn_count b cs)
unfolding increment_conn conn_count
conn_count-increment_conn a b cs = ground (
  arith,
  count?-add_to a b (pos 1) cs,
  count?-add_to a b (pos 1) ((a, pos 0) ∷ cs),
  count?-cons a a cs,
  count?-cons a b cs,
  str_eq_iff a b,
  str_eq_refl a,
)

-- A counter is there after an increment.
count?-increment_conn :
    (a : Text) (cs : Counts) → count? a (increment_conn a cs) ≡ some (conn_count a cs +ℤ pos 1)
unfolding increment_conn conn_count
count?-increment_conn a cs = ground (
  arith,
  count?-add_to a a (pos 1) cs,
  count?-add_to a a (pos 1) ((a, pos 0) ∷ cs),
  count?-cons a a cs,
  str_eq_refl a,
)

conn_count-decrement_conn :
    (a b : Text) (cs : Counts) (n : ℤ)
    → count? a cs ≡ some n
    → conn_count b (decrement_conn a cs) ≡ (if str_eq a b then n +ℤ negsuc 0 else conn_count b cs)
unfolding decrement_conn conn_count
conn_count-decrement_conn a b cs n h =
    ground (arith, count?-add_to a b (negsuc 0) cs, str_eq_iff a b)

-- Opening a connection raises the count of its address by 1 and of no other; closing it again gives
-- every address the count that it had.
pub decrement_conn-increment_conn :
    (a b : Text) (cs : Counts)
    → IsSmall (conn_count a cs)
    → (conn_count b (increment_conn a cs)
        ≡ (if str_eq a b then conn_count a cs +ℤ pos 1 else conn_count b cs))
      × (conn_count b (decrement_conn a (increment_conn a cs)) ≡ conn_count b cs)
decrement_conn-increment_conn a b cs small = (
  conn_count-increment_conn a b cs,
  ground (
    arith,
    conn_count-decrement_conn a b (increment_conn a cs) _ (count?-increment_conn a cs),
    conn_count-increment_conn a b cs,
    add_one_back (conn_count a cs) small,
    str_eq_iff a b,
  ),
)

-- `a` is not more loaded than `b` for its weight, and no lighter where they are equally loaded.
abbrev pub NotWorse : ℕ → ℕ → ℕ → ℕ → Type 0
NotWorse ca wa cb wb = (ca * wb ≤ cb * wa) × (ca * wb ≡ cb * wa → wb ≤ wa)

le_cross :
    (ca wa cb wb cc wc : ℕ) → 0 < wb → ca * wb ≤ cb * wa → cb * wc ≤ cc * wb → ca * wc ≤ cc * wa
le_cross ca wa cb wb cc wc p h k =
    le_of_mul-le-mul_left {k = wb} (omega (arith, mul-le-mul_left wc h, mul-le-mul_left wa k)) p

NotWorse-trans :
    (ca wa cb wb cc wc : ℕ)
    → 0 < wa
    → 0 < wb
    → 0 < wc
    → NotWorse ca wa cb wb
    → NotWorse cb wb cc wc
    → NotWorse ca wa cc wc
NotWorse-trans ca wa cb wb cc wc pa pb pc (h, h') (k, k') = (
  le_cross ca wa cb wb cc wc pb h k,
  λ e.
      let ab : cb * wa ≤ ca * wb =
        le_of_mul-le-mul_left {k = wc}
          (omega (arith, ap (λ (t : ℕ). wb * t) e, mul-le-mul_left wa k)) pc in
      let bc : cc * wb ≤ cb * wc =
        le_of_mul-le-mul_left {k = wa}
          (omega (arith, ap (λ (t : ℕ). wb * t) e, mul-le-mul_left wc h)) pa in
      let one = h' (omega arith) in let two = k' (omega arith) in omega arith,
)

prod_lt : (a b : ℕ) → a < 2147483648 → b < 2147483648 → a * b < int_limit
prod_lt a b h k =
    omega (arith, mul-le-mul_left a (le_of_lt k), mul-le-mul_left 2147483648 (le_of_lt h))

is_better_lem :
    (c w mc mw : ℕ)
    → c * mw < int_limit
    → mc * w < int_limit
    → (is_better (pos c) (pos w) (pos mc) (pos mw) ≡ true → NotWorse c w mc mw)
      × (is_better (pos c) (pos w) (pos mc) (pos mw) ≡ false → NotWorse mc mw c w)
unfolding is_better
is_better_lem c w mc mw h k =
    rw (*ℤ-pos c mw h, *ℤ-pos mc w k)
      (λ e. (ground arith, λ f. ground arith), λ e. (ground arith, λ f. ground arith))

module _ (cs : Counts) where
  abbrev pub load : WeightedUpstream → ℕ
  load u = pos_part (conn_count u.address cs)

  abbrev pub capacity : WeightedUpstream → ℕ
  capacity u = effective_weight u.weight

  -- No counter is below 0, and neither counters nor weights reach 2 ^ 31.
  abbrev pub IsTame : WeightedUpstream → Type 0
  IsTame u =
      (neg_part (conn_count u.address cs) ≡ 0) × (load u < 2147483648) × (capacity u < 2147483648)

  abbrev pub Beats : WeightedUpstream → WeightedUpstream → Type 0
  Beats u v = NotWorse (load u) (capacity u) (load v) (capacity v)

  nonneg : (n : ℤ) → neg_part n ≡ 0 → n ≡ pos (pos_part n)
  nonneg n h = ground arith

  Beats-trans : (u v w : WeightedUpstream) → Beats u v → Beats v w → Beats u w
  Beats-trans u v w =
      NotWorse-trans (load u) (capacity u) (load v) (capacity v) (load w) (capacity w)
        (effective_weight_lem u.weight).0 (effective_weight_lem v.weight).0
        (effective_weight_lem w.weight).0

  least_from-Beats :
      (us : List WeightedUpstream) (best : WeightedUpstream)
      → IsTame best
      → All IsTame us
      → (r : WeightedUpstream) × (least_from cs best (pos (load best)) (pos (capacity best)) us ≡ r)
        × In r (best ∷ us)
        × Beats r best
        × All (Beats r) us
  unfolding least_from
  least_from-Beats [] best t ts = (best, refl, inl refl, (omega arith, λ e. omega arith), tt)
  least_from-Beats (u ∷ us) best t (t', ts) =
      let same = nonneg (conn_count u.address cs) t'.0 in
      let (won, lost) =
        is_better_lem (load u) (capacity u) (load best) (capacity best)
          (prod_lt (load u) (capacity best) t'.1 t.2) (prod_lt (load best) (capacity u) t.1 t'.2) in
      elim (Bool-cases
        (is_better (pos (load u)) (int_weight u) (pos (load best)) (pos (capacity best)))) [
          | inl e ↦
              let (r, got, inside, first, rest) = least_from-Beats us u t' ts in
              let test =
                ap (λ n. is_better n (int_weight u) (pos (load best)) (pos (capacity best))) same
                ∙ e in
              (
                r,
                rw (test, same) got,
                inr inside,
                Beats-trans r u best first (won e),
                (first, rest),
              )
          | inr e ↦
              let (r, got, inside, first, rest) = least_from-Beats us best t ts in
              let test =
                ap (λ n. is_better n (int_weight u) (pos (load best)) (pos (capacity best))) same
                ∙ e in
              (
                r,
                rw test got,
                elim inside [ inl a ↦ inl a | inr b ↦ inr (inr b) ],
                first,
                (Beats-trans r best u first (lost e), rest),
              )
        ]

  -- The least-connections choice is one of the candidates, and none of them has fewer connections for
  -- its weight, or as few and a higher weight. (No counter is below 0, and counters and weights stay
  -- below 2 ^ 31, so that Go's products do not wrap.)
  pub select_least_conn-Beats :
      (u : WeightedUpstream) (us : List WeightedUpstream)
      → All IsTame (u ∷ us)
      → (r : WeightedUpstream) × (select_least_conn cs (u ∷ us) ≡ some r)
        × In r (u ∷ us)
        × All (Beats r) (u ∷ us)
  unfolding select_least_conn
  select_least_conn-Beats u us (t, ts) =
      let (r, got, inside, first, rest) = least_from-Beats us u t ts in
      let same = nonneg (conn_count u.address cs) t.0 in
      (
        r,
        ap (λ n. some (least_from cs u n (int_weight u) us)) same ∙ ap some got,
        inside,
        (first, rest),
      )
