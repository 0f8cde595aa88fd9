-- ===== src/Selector/Smooth.antt =====
-- matcher/selector.go: smooth weighted round-robin, `selectWeightedRoundRobin` and what it calls.
-- The mutex makes each call one step.
pub mod Argmax
pub mod Ledger
pub mod Rounds
pub mod Fair
use caddy_dynamic_routing.Base.{
  ℕ, zero, suc, ◌+◌, Bool, true, false, List, [], ◌∷◌, map, Option, none, some, ◌&&◌, str_eq,
  if◌then◌else◌, ◌==◌, length, get_elem?, get_or, set,
}
use caddy_dynamic_routing.Base.Int.{ℤ, pos, negsuc, ◌+ℤ◌, ◌-ℤ◌, ltb_ℤ, eq_ℤ}
use caddy_dynamic_routing.Config.{WeightedUpstream, effective_weight}

pub record Wrr : Type 0 where
  pub upstreams : List WeightedUpstream
  pub weights : List ℤ
  pub current : List ℤ

-- `wrrUpstreamsMatch`: the lengths, then the entries one by one
same_entries : List WeightedUpstream → List WeightedUpstream → Bool
same_entries (a ∷ old) (u ∷ us) =
    (str_eq a.address u.address && eq_ℤ a.weight u.weight) && same_entries old us
same_entries _ _ = true

unfoldable pub upstreams_match : List WeightedUpstream → List WeightedUpstream → Bool
unfolding same_entries str_eq
upstreams_match old us = length old == length us && same_entries old us

abbrev pub int_weight : WeightedUpstream → ℤ
int_weight u = pos (effective_weight u.weight)

-- `initWeightedRoundRobin`
unfoldable pub init_wrr : List WeightedUpstream → Wrr
unfolding effective_weight
init_wrr us = record { upstreams = us; weights = map int_weight us; current = map (λ u. pos 0) us }

-- What the loop over the candidates leaves: the raised current weights, their total, and the index
-- of the highest.
pub record Round : Type 0 where
  pub current : List ℤ
  pub total : ℤ
  pub max_idx : ℕ

unfoldable pub scan : ℕ → List ℤ → List ℤ → ℤ → ℕ → ℤ → Round
scan i (w ∷ ws) (c ∷ cs) total max_idx max_weight =
    let raised = c +ℤ w in
    let higher = ltb_ℤ max_weight raised in
    let rest =
      scan (i + 1) ws cs (total +ℤ w) (if higher then i else max_idx)
        (if higher then raised else max_weight) in
    record rest { current = raised ∷ rest.current }
scan i _ _ total max_idx max_weight = record { current = []; total = total; max_idx = max_idx }

-- The rest of the call, on a state that fits the candidates: the new state and the index chosen
unfoldable pub pick_index : Wrr → Wrr × ℕ
pick_index s =
    let round = scan 0 s.weights s.current (pos 0) 0 (get_or s.current 0 (pos 0)) in
    (
      record s {
        current =
            set round.current round.max_idx
              (get_or round.current round.max_idx (pos 0) -ℤ round.total);
      },
      round.max_idx,
    )

-- The state that the candidates are chosen from: reset if they changed
unfoldable pub refresh : Wrr → List WeightedUpstream → Wrr
refresh s us = if upstreams_match s.upstreams us then s else init_wrr us

-- `selectWeightedRoundRobin`
unfoldable pub select_smooth : Wrr → List WeightedUpstream → Wrr × Option WeightedUpstream
unfolding refresh pick_index
select_smooth s us = let (t, idx) = pick_index (refresh s us) in (t, get_elem? us idx)
