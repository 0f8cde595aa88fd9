-- ===== src/Selector/Smooth/Rounds.antt =====
-- One round of the smooth round-robin keeps the books.
use caddy_dynamic_routing.Base.{
  ℕ, zero, suc, ◌+◌, ◌*◌, ◌≤◌, ◌<◌, ◌≡◌, refl, ap, ◌∙◌, true, List, [], ◌∷◌, map, some, arith,
  get_elem?, get_or, set, length, All, get_elem?-lt, get_or_of_elem,
}
use mathlib.Core.Path.{ap₂}
use caddy_dynamic_routing.Base.Int.{ℤ, pos, pos_part, int_limit, IsSmall, ◌+ℤ◌, ◌-ℤ◌, +ℤ-pos, ltb_ℤ}
use caddy_dynamic_routing.Selector.Smooth.{Round, scan}
use caddy_dynamic_routing.Selector.Smooth.Argmax.{
  raise, total_from, argmax, scan_lem, argmax_lem, IsMax,
}
use caddy_dynamic_routing.Selector.Smooth.Ledger.{
  sum, pos_sum, neg_sum, Tracks, count_at, Tracks-sums, IsSmall-of_sums, Tracks-raise,
  Tracks-choose, pos_sum_of_max,
}

total_from_lem :
    (total n : ℕ) (ws : List ℕ) (cs : List ℤ) (ks : List ℕ) (t : ℕ)
    → Tracks total n ws cs ks
    → t + sum ws < int_limit
    → total_from (map pos ws) cs (pos t) ≡ pos (t + sum ws)
unfolding total_from
total_from_lem total n [] [] [] t h l = ap pos (omega arith)
total_from_lem total n (w ∷ ws) (c ∷ cs) (k ∷ ks) t (e, b, h) l =
    ap (total_from (map pos ws) cs) (+ℤ-pos t w (omega arith))
    ∙ (total_from_lem total n ws cs ks (t + w) h (omega arith) ∙ ap pos (omega arith))
total_from_lem total n [] [] (k ∷ ks) t h l = elim h [ ]
total_from_lem total n [] (c ∷ cs) ks t h l = elim h [ ]
total_from_lem total n (w ∷ ws) [] ks t h l = elim h [ ]
total_from_lem total n (w ∷ ws) (c ∷ cs) [] t h l = elim h [ ]

pos_part-le : (cs : List ℤ) (i : ℕ) (v : ℤ) → get_elem? cs i ≡ some v → pos_part v ≤ pos_sum cs
pos_part-le [] i v h = absurd (cc)
pos_part-le (c ∷ cs) zero v h = let e : c ≡ v = ground arith in rw (← e) (omega arith)
pos_part-le (c ∷ cs) (suc i) v h = omega (arith, pos_part-le cs i v h)

small_weights :
    (ws : List ℕ) (b : ℕ) → sum ws ≤ b → 2 * b < int_limit → All (λ w. 2 * w < int_limit) ws
small_weights [] b h l = tt
small_weights (w ∷ ws) b h l = (omega arith, small_weights ws b (omega arith) l)

raised_first : (c : ℤ) (w : ℕ) → IsSmall c → 2 * w < int_limit → 0 < w → ltb_ℤ c (c +ℤ pos w) ≡ true
unfolding ◌+ℤ◌
raised_first c w s l p = ground arith

Tracks-length :
    (total n : ℕ) (ws : List ℕ) (cs : List ℤ) (ks : List ℕ)
    → Tracks total n ws cs ks
    → (length cs ≡ length ws) × (length ks ≡ length ws)
Tracks-length total n [] [] [] h = (refl, refl)
Tracks-length total n (w ∷ ws) (c ∷ cs) (k ∷ ks) (e, b, h) =
    let (p, q) = Tracks-length total n ws cs ks h in (ap suc p, ap suc q)
Tracks-length total n [] [] (k ∷ ks) h = elim h [ ]
Tracks-length total n [] (c ∷ cs) ks h = elim h [ ]
Tracks-length total n (w ∷ ws) [] ks h = elim h [ ]
Tracks-length total n (w ∷ ws) (c ∷ cs) [] h = elim h [ ]

-- The picks' state on plain lists
abbrev pub pick_from : List ℤ → List ℤ → List ℤ × ℕ
pick_from ws cs =
    let round = scan 0 ws cs (pos 0) 0 (get_or cs 0 (pos 0)) in
    (
      set round.current round.max_idx (get_or round.current round.max_idx (pos 0) -ℤ round.total),
      round.max_idx,
    )

choose_Tracks :
    (total n b i : ℕ) (ws ks : List ℕ) (l : List ℤ) (v : ℤ)
    → sum ws ≡ total
    → 0 < total
    → length ws * total ≡ b
    → total ≤ b
    → 4 * b < int_limit
    → sum ks ≡ n
    → Tracks total (suc n) ws l ks
    → get_elem? l i ≡ some v
    → IsMax l v
    → Tracks total (suc n) ws (set l i (v -ℤ pos total)) (count_at i ks)
choose_Tracks total n b i ws ks l v st p lb tb small sk t at top =
    let (e, q) = Tracks-sums total (suc n) ws l ks t in
    let sums : pos_sum l ≡ total + neg_sum l =
      omega (arith, ap (λ (t : ℕ). total * t) sk, ap (λ (t : ℕ). suc n * t) st) in
    let positive : 0 < pos_part v = ground (arith, pos_sum_of_max l v top) in
    Tracks-choose total (suc n) ws l ks i v p (omega arith) at positive
      (omega (arith, pos_part-le l i v at)) t

-- One round keeps the books, and chooses one of the candidates.
pub round_Tracks :
    (total b n w k : ℕ) (c : ℤ) (ws ks : List ℕ) (cs : List ℤ)
    → sum (w ∷ ws) ≡ total
    → length (w ∷ ws) * total ≡ b
    → total ≤ b
    → 4 * b < int_limit
    → 0 < w
    → sum (k ∷ ks) ≡ n
    → Tracks total n (w ∷ ws) (c ∷ cs) (k ∷ ks)
    → (r : List ℤ) × (i : ℕ) × (pick_from (map pos (w ∷ ws)) (c ∷ cs) ≡ (r, i))
      × (i < length (k ∷ ks))
      × Tracks total (suc n) (w ∷ ws) r (count_at i (k ∷ ks))
unfolding raise argmax
round_Tracks total b n w k c ws ks cs st lb tb small p sk t =
    let l = (c +ℤ pos w) ∷ raise (map pos ws) cs in
    let i = argmax 0 l 0 c in
    let (e, q) = Tracks-sums total n (w ∷ ws) (c ∷ cs) (k ∷ ks) t in
    let sums : pos_sum (c ∷ cs) ≡ neg_sum (c ∷ cs) =
      omega (arith, ap (λ (t : ℕ). total * t) sk, ap (λ (t : ℕ). n * t) st) in
    let smalls = IsSmall-of_sums b (c ∷ cs) (omega arith) (omega arith) (omega arith) in
    let weights = small_weights (w ∷ ws) total (omega arith) (omega arith) in
    let (v, at, top) =
      argmax_lem (c +ℤ pos w) (raise (map pos ws) cs) c (raised_first c w smalls.0 weights.0 p) in
    let whole : total_from (map pos (w ∷ ws)) (c ∷ cs) (pos 0) ≡ pos total =
      total_from_lem total n (w ∷ ws) (c ∷ cs) (k ∷ ks) 0 t (omega arith) ∙ ap pos (omega arith) in
    let raised = Tracks-raise total n (w ∷ ws) (c ∷ cs) (k ∷ ks) smalls weights t in
    let inside = get_elem?-lt l i v at in
    (
      set l i (v -ℤ pos total),
      i,
      ap after (scan_lem (map pos (w ∷ ws)) (c ∷ cs) 0 (pos 0) 0 c)
          ∙ ap₂ (λ x y. (set l i (x -ℤ y), i)) (get_or_of_elem l i (pos 0) v at) whole,
      omega (arith, Tracks-length total (suc n) (w ∷ ws) l (k ∷ ks) raised),
      choose_Tracks total n b i (w ∷ ws) (k ∷ ks) l v st (omega arith) lb tb small sk raised at top,
    )
  where
    after : Round → List ℤ × ℕ
    after r = (set r.current r.max_idx (get_or r.current r.max_idx (pos 0) -ℤ r.total), r.max_idx)
