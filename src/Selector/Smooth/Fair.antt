-- ===== src/Selector/Smooth/Fair.antt =====
-- Smooth round-robin is fair: the run of picks follows the weights, exactly over a full cycle.
use caddy_dynamic_routing.Base.{
  ℕ, zero, suc, ◌+◌, ◌*◌, ◌<◌, ◌≡◌, refl, sym, ap, ◌∙◌, true, false, List, [], ◌∷◌, map, some,
  arith, get_elem?, length, str_eq_refl,
}
use mathlib.Core.Path.{subst}
use caddy_dynamic_routing.Base.Int.{ℤ, pos, int_limit, eq_ℤ_refl}
use caddy_dynamic_routing.Config.{WeightedUpstream, effective_weight}
use caddy_dynamic_routing.Config.Normal.{effective_weight_lem}
use caddy_dynamic_routing.Selector.Smooth.{
  Wrr, pick_index, refresh, init_wrr, upstreams_match, same_entries, int_weight,
}
use caddy_dynamic_routing.Selector.Smooth.Rounds.{pick_from, round_Tracks}
use caddy_dynamic_routing.Selector.Smooth.Ledger.{sum, Tracks, count_at, sum-count_at, full_cycle}

-- The effective weights, and a row of zeros
abbrev pub effective : List WeightedUpstream → List ℕ
effective us = map (λ u. effective_weight u.weight) us

abbrev pub zeros : List WeightedUpstream → List ℕ
zeros us = map (λ u. 0) us

-- `n` calls of `selectWeightedRoundRobin`, with the number of times that each index was chosen
unfoldable pub spin : ℕ → Wrr → List WeightedUpstream → List ℕ → Wrr × List ℕ
spin zero s us ks = (s, ks)
spin (suc n) s us ks = let (t, i) = pick_index (refresh s us) in spin n t us (count_at i ks)

same_entries_refl : (us : List WeightedUpstream) → same_entries us us ≡ true
unfolding same_entries
same_entries_refl [] = refl
same_entries_refl (u ∷ us) = rw (str_eq_refl u.address, same_entries_refl us, eq_ℤ_refl u.weight)

upstreams_match_refl : (us : List WeightedUpstream) → upstreams_match us us ≡ true
unfolding upstreams_match
upstreams_match_refl us = ground (arith, same_entries_refl us)

map-int_weight : (us : List WeightedUpstream) → map int_weight us ≡ map pos (effective us)
map-int_weight [] = refl
map-int_weight (u ∷ us) = ap (◌∷◌ (int_weight u)) (map-int_weight us)

record Holds (us : List WeightedUpstream) (n : ℕ) (s : Wrr) (ks : List ℕ) : Type 0 where
  upstreams : s.upstreams ≡ us
  weights : s.weights ≡ map pos (effective us)
  books : Tracks (sum (effective us)) n (effective us) s.current ks
  counted : sum ks ≡ n

init_Holds :
    (us : List WeightedUpstream) → 0 < sum (effective us) → Holds us 0 (init_wrr us) (zeros us)
unfolding init_wrr
init_Holds us p = record {
  upstreams = refl;
  weights = map-int_weight us;
  books = start (sum (effective us)) us p;
  counted = none_counted us;
}
  where
    none_counted : (us : List WeightedUpstream) → sum (zeros us) ≡ 0
    none_counted [] = refl
    none_counted (u ∷ us) = omega (arith, none_counted us)

    start :
        (total : ℕ) (us : List WeightedUpstream)
        → 0 < total
        → Tracks total 0 (effective us) (map (λ u. pos 0) us) (zeros us)
    start total [] p = tt
    start total (u ∷ us) p = (omega arith, p, start total us p)

length-effective : (us : List WeightedUpstream) → length (effective us) ≡ length us
length-effective [] = refl
length-effective (u ∷ us) = ap suc (length-effective us)

total_pos : (u : WeightedUpstream) (us : List WeightedUpstream) → 0 < sum (effective (u ∷ us))
total_pos u us = omega (arith, (effective_weight_lem u.weight).0)

refresh_same :
    (s : Wrr) (us : List WeightedUpstream)
    → upstreams_match s.upstreams us ≡ true
    → refresh s us ≡ s
unfolding refresh
refresh_same s us e = rw e

refresh_stale :
    (s : Wrr) (us : List WeightedUpstream)
    → upstreams_match s.upstreams us ≡ false
    → refresh s us ≡ init_wrr us
unfolding refresh
refresh_stale s us e = rw e

init_matches : (us : List WeightedUpstream) → upstreams_match (init_wrr us).upstreams us ≡ true
unfolding init_wrr
init_matches us = upstreams_match_refl us

zero_currents :
    (us : List WeightedUpstream) → map (λ (w : ℕ). pos 0) (effective us) ≡ map (λ u. pos 0) us
zero_currents [] = refl
zero_currents (u ∷ us) = ap (◌∷◌ (pos 0)) (zero_currents us)

init_of_fields :
    (us : List WeightedUpstream) (s : Wrr)
    → s.upstreams ≡ us
    → s.weights ≡ map pos (effective us)
    → s.current ≡ map (λ (w : ℕ). pos 0) (effective us)
    → s ≡ init_wrr us
unfolding init_wrr
init_of_fields us s p q r =
    let q' = q ∙ sym (map-int_weight us) in
    let r' = r ∙ zero_currents us in λ i. record { upstreams = p i; weights = q' i; current = r' i }

-- What the books say of one candidate
share_of_Tracks :
    (total n i k w : ℕ) (ws : List ℕ) (cs : List ℤ) (ks : List ℕ)
    → Tracks total n ws cs ks
    → get_elem? ks i ≡ some k
    → get_elem? ws i ≡ some w
    → total * k < n * w + total
share_of_Tracks total n zero k w (w' ∷ ws) (c ∷ cs) (k' ∷ ks) (e, b, t) at wt =
    let same : k' ≡ k = ground arith in
    let same' : w' ≡ w = ground arith in
    omega (arith, ap (λ (x : ℕ). total * x) same, ap (λ (x : ℕ). n * x) same')
share_of_Tracks total n (suc i) k w (w' ∷ ws) (c ∷ cs) (k' ∷ ks) (e, b, t) at wt =
    share_of_Tracks total n i k w ws cs ks t at wt
share_of_Tracks total n i k w [] cs ks t at wt = absurd (cc)
share_of_Tracks total n i k w (w' ∷ ws) cs [] t at wt = absurd (cc)
share_of_Tracks total n i k w (w' ∷ ws) [] (k' ∷ ks) t at wt = elim t [ ]

pub pick_index_lem :
    (s : Wrr)
    → pick_index s ≡ (
      record s { current = (pick_from s.weights s.current).0 },
      (pick_from s.weights s.current).1,
    )
unfolding pick_index
pick_index_lem s = refl

module _ (u : WeightedUpstream) (us : List WeightedUpstream) where
  abbrev total : ℕ
  total = sum (effective (u ∷ us))

  lists_step :
      (n : ℕ) (cs : List ℤ) (ks : List ℕ)
      → 4 * (length (u ∷ us) * total) < int_limit
      → Tracks total n (effective (u ∷ us)) cs ks
      → sum ks ≡ n
      → (r : List ℤ) × (i : ℕ) × (pick_from (map pos (effective (u ∷ us))) cs ≡ (r, i))
        × (i < length ks)
        × Tracks total (suc n) (effective (u ∷ us)) r (count_at i ks)
  lists_step n (c ∷ cs) (k ∷ ks) l t sk =
      round_Tracks total (length (u ∷ us) * total) n (effective_weight u.weight) k c (effective us)
        ks cs refl (ap (λ (m : ℕ). suc m * total) (length-effective us)) (omega arith) l
        (effective_weight_lem u.weight).0 sk t
  lists_step n [] ks l t sk = elim t [ ]
  lists_step n (c ∷ cs) [] l t sk = elim t [ ]

  pick_step :
      (n : ℕ) (s : Wrr) (ks : List ℕ)
      → 4 * (length (u ∷ us) * total) < int_limit
      → Holds (u ∷ us) n s ks
      → (t : Wrr) × (i : ℕ) × (pick_index (refresh s (u ∷ us)) ≡ (t, i))
        × (i < length ks)
        × Holds (u ∷ us) (suc n) t (count_at i ks)
  pick_step n s ks l h =
      let (r, i, e, inside, books) = lists_step n s.current ks l h.books h.counted in
      let fits : upstreams_match s.upstreams (u ∷ us) ≡ true =
        rw h.upstreams (upstreams_match_refl (u ∷ us)) in
      (
        record s { current = r },
        i,
        ap pick_index (refresh_same s (u ∷ us) fits)
            ∙ (pick_index_lem s
                ∙ ap (λ p. (record s { current = p.0 }, p.1))
                    (ap (λ ws. pick_from ws s.current) h.weights ∙ e)),
        inside,
        record {
          upstreams = h.upstreams;
          weights = h.weights;
          books = books;
          counted = sum-count_at i ks inside ∙ ap suc h.counted;
        },
      )

  spin-Holds :
      (m n : ℕ) (s : Wrr) (ks : List ℕ)
      → 4 * (length (u ∷ us) * total) < int_limit
      → Holds (u ∷ us) n s ks
      → Holds (u ∷ us) (n + m) (spin m s (u ∷ us) ks).0 (spin m s (u ∷ us) ks).1
  unfolding spin
  spin-Holds zero n s ks l h = let e : n + 0 ≡ n = omega arith in rw e h
  spin-Holds (suc m) n s ks l h =
      let (t, i, e, inside, h') = pick_step n s ks l h in
      let shift : n + suc m ≡ suc n + m = omega arith in
      subst
        (λ (p : Wrr × ℕ).
          Holds (u ∷ us) (n + suc m) (spin m p.0 (u ∷ us) (count_at p.1 ks)).0
            (spin m p.0 (u ∷ us) (count_at p.1 ks)).1)
        (sym e) (rw shift (spin-Holds m (suc n) t (count_at i ks) l h'))

  -- A stale state is left at the first call.
  spin_stale :
      (m : ℕ) (s : Wrr) (ks : List ℕ)
      → upstreams_match s.upstreams (u ∷ us) ≡ false
      → 0 < m
      → spin m s (u ∷ us) ks ≡ spin m (init_wrr (u ∷ us)) (u ∷ us) ks
  unfolding spin
  spin_stale zero s ks stale p = absurd (omega arith)
  spin_stale (suc m) s ks stale p =
      ap (λ (x : Wrr). let (t, i) = pick_index x in spin m t (u ∷ us) (count_at i ks))
        (refresh_stale s (u ∷ us) stale
          ∙ sym (refresh_same (init_wrr (u ∷ us)) (u ∷ us) (init_matches (u ∷ us))))

  -- From any state that other candidates left, or none, a cycle of as many calls as the weights add up
  -- to chooses each candidate exactly as often as its weight says, and ends in the state of a fresh
  -- start, so that every later cycle does the same. (The weights are small enough for Go's `int`.)
  pub select_smooth_cycle :
      (s : Wrr)
      → upstreams_match s.upstreams (u ∷ us) ≡ false
      → 4 * (length (u ∷ us) * sum (effective (u ∷ us))) < int_limit
      → spin (sum (effective (u ∷ us))) s (u ∷ us) (zeros (u ∷ us))
        ≡ (init_wrr (u ∷ us), effective (u ∷ us))
  select_smooth_cycle s stale l =
      let h = init_Holds (u ∷ us) (total_pos u us) in
      let end = spin total (init_wrr (u ∷ us)) (u ∷ us) (zeros (u ∷ us)) in
      let h' = spin-Holds total 0 (init_wrr (u ∷ us)) (zeros (u ∷ us)) l h in
      let e : 0 + total ≡ total = omega arith in
      let (f, g) =
        full_cycle total (effective (u ∷ us)) end.0.current end.1 (h'.counted ∙ e)
          (subst (λ (n : ℕ). Tracks total n (effective (u ∷ us)) end.0.current end.1) e h'.books) in
      spin_stale total s (zeros (u ∷ us)) stale (total_pos u us) ∙ λ i.
      (init_of_fields (u ∷ us) end.0 h'.upstreams h'.weights g i, f i)

  -- After any number of calls from a fresh start, no candidate is a whole call ahead of its share.
  pub select_smooth_share :
      (n i k w : ℕ)
      → 4 * (length (u ∷ us) * sum (effective (u ∷ us))) < int_limit
      → get_elem? (spin n (init_wrr (u ∷ us)) (u ∷ us) (zeros (u ∷ us))).1 i ≡ some k
      → get_elem? (effective (u ∷ us)) i ≡ some w
      → sum (effective (u ∷ us)) * k < n * w + sum (effective (u ∷ us))
  select_smooth_share n i k w l at wt =
      let h = init_Holds (u ∷ us) (total_pos u us) in
      let h' = spin-Holds n 0 (init_wrr (u ∷ us)) (zeros (u ∷ us)) l h in
      let e : 0 + n ≡ n = omega arith in
      let end = spin n (init_wrr (u ∷ us)) (u ∷ us) (zeros (u ∷ us)) in
      share_of_Tracks total n i k w (effective (u ∷ us)) end.0.current end.1
        (subst (λ (m : ℕ). Tracks total m (effective (u ∷ us)) end.0.current end.1) e h'.books) at
        wt
