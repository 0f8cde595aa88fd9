-- ===== src/Selector/Fit.antt =====
-- The slices of the smooth weighted round-robin, and the candidates that it and the least connections
-- come to.
use caddy_dynamic_routing.Base.{
  ℕ, suc, ◌+◌, ◌≤◌, ◌<◌, ◌≡◌, refl, sym, ap, ◌∙◌, List, [], ◌∷◌, map, arith, length, get_or,
  length-set, In, inl, inr, Bool-cases,
}
use caddy_dynamic_routing.Base.Int.{ℤ, pos, ltb_ℤ}
use caddy_dynamic_routing.Config.{WeightedUpstream}
use caddy_dynamic_routing.Selector.Smooth.{
  Wrr, pick_index, refresh, init_wrr, upstreams_match, int_weight, select_smooth,
}
use caddy_dynamic_routing.Selector.Smooth.Argmax.{raise, argmax, scan_lem}
use caddy_dynamic_routing.Selector.Conn.{
  Counts, least_from, is_better, select_least_conn, conn_count,
}
use caddy_dynamic_routing.Selector.Smooth.Rounds.{pick_from}
use caddy_dynamic_routing.Selector.Smooth.Fair.{pick_index_lem}
use caddy_dynamic_routing.Selector.Draw.{IsChoice, elem-IsChoice}
use caddy_dynamic_routing.Selector.{chosen, at}

argmax-lt :
    (b i : ℕ) (l : List ℤ) (m : ℕ) (high : ℤ) → m < b → i + length l ≤ b → argmax i l m high < b
unfolding argmax
argmax-lt b i [] m high h k = h
argmax-lt b i (c ∷ l) m high h k = elim (Bool-cases (ltb_ℤ high c)) [
  | inl e ↦ rw e (argmax-lt b (i + 1) l i c (omega arith) (omega arith))
  | inr e ↦ rw e (argmax-lt b (i + 1) l m high h (omega arith))
]

length-raise : (ws cs : List ℤ) → length ws ≡ length cs → length (raise ws cs) ≡ length cs
unfolding raise
length-raise (w ∷ ws) (c ∷ cs) h = ap suc (length-raise ws cs (omega arith))
length-raise [] cs h = h
length-raise (w ∷ ws) [] h = absurd (omega arith)

pick_from-fit :
    (ws cs : List ℤ)
    → length ws ≡ length cs
    → 0 < length cs
    → ((pick_from ws cs).1 < length cs) × (length (pick_from ws cs).0 ≡ length cs)
pick_from-fit ws cs h p =
    let same = length-raise ws cs h in
    rw (scan_lem ws cs 0 (pos 0) 0 (get_or cs 0 (pos 0)))
      (argmax-lt (length cs) 0 (raise ws cs) 0 _ p (omega arith), length-set _ _ _ ∙ same)

-- The smooth round-robin's slices have the length of the candidates that they were made for.
pub record IsFit (s : Wrr) : Type 0 where
  pub weights_fit : length s.weights ≡ length s.upstreams
  pub current_fit : length s.current ≡ length s.upstreams

length-map :
    {B : Type 0} (f : WeightedUpstream → B) (us : List WeightedUpstream)
    → length (map f us) ≡ length us
length-map f [] = refl
length-map f (u ∷ us) = ap suc (length-map f us)

refresh-IsFit :
    (s : Wrr) (us : List WeightedUpstream)
    → IsFit s
    → (length (refresh s us).upstreams ≡ length us) × IsFit (refresh s us)
unfolding refresh init_wrr upstreams_match
refresh-IsFit s us h = elim (Bool-cases (upstreams_match s.upstreams us)) [
  | inl e ↦ (ground arith, ground arith)
  | inr e ↦
      rw e (refl, record { weights_fit = length-map int_weight us; current_fit = length-map _ us })
]

pick_index-IsFit :
    (s : Wrr)
    → IsFit s
    → 0 < length s.upstreams
    → ((pick_index s).1 < length s.upstreams)
      × (IsFit (pick_index s).0)
      × ((pick_index s).0.upstreams ≡ s.upstreams)
pick_index-IsFit s h p =
    let (lt, len) =
      pick_from-fit s.weights s.current (h.weights_fit ∙ sym h.current_fit) (omega arith) in
    rw (pick_index_lem s)
      (omega arith, record { weights_fit = h.weights_fit; current_fit = len ∙ h.current_fit }, refl)

pub select_smooth-IsChoice :
    (s : Wrr) (u : WeightedUpstream) (us : List WeightedUpstream)
    → IsFit s
    → IsFit (select_smooth s (u ∷ us)).0 × IsChoice (u ∷ us) (at (select_smooth s (u ∷ us)).1)
unfolding select_smooth
select_smooth-IsChoice s u us h =
    let (len, fit) = refresh-IsFit s (u ∷ us) h in
    let (lt, fit', _) = pick_index-IsFit (refresh s (u ∷ us)) fit (omega arith) in
    (fit', elem-IsChoice (u ∷ us) (pick_index (refresh s (u ∷ us))).1 (omega arith))

least_from-In :
    (cs : Counts) (best : WeightedUpstream) (mc mw : ℤ) (us : List WeightedUpstream)
    → (r : WeightedUpstream) × (least_from cs best mc mw us ≡ r) × In r (best ∷ us)
unfolding least_from
least_from-In cs best mc mw [] = (best, refl, inl refl)
least_from-In cs best mc mw (u ∷ us) =
    elim (Bool-cases (is_better (conn_count u.address cs) (int_weight u) mc mw)) [
      | inl e ↦
          let (r, got, inside) = least_from-In cs u (conn_count u.address cs) (int_weight u) us in
          (r, rw e got, inr inside)
      | inr e ↦
          let (r, got, inside) = least_from-In cs best mc mw us in
          (r, rw e got, elim inside [ inl a ↦ inl a | inr b ↦ inr (inr b) ])
    ]

pub select_least_conn-IsChoice :
    (cs : Counts) (u : WeightedUpstream) (us : List WeightedUpstream)
    → IsChoice (u ∷ us) (at (select_least_conn cs (u ∷ us)))
unfolding select_least_conn
select_least_conn-IsChoice cs u us =
    let (r, got, inside) = least_from-In cs u (conn_count u.address cs) (int_weight u) us in
    (r, ap chosen got, inside)
