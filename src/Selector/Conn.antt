-- ===== src/Selector/Conn.antt =====
-- matcher/selector.go: the connection counts and `selectLeastConn`. The map from addresses to counters
-- is an association list; the loop keeps the candidate where the code keeps its index.
pub mod Least
use caddy_dynamic_routing.Base.{
  ℕ, zero, suc, ◌+◌, ◌≡◌, refl, Bool, true, false, List, [], ◌∷◌, Option, none, some, ◌&&◌, ◌||◌,
  Text, str_eq, str_eq_refl, str_eq_iff, if◌then◌else◌, arith,
}
use caddy_dynamic_routing.Base.Int.{ℤ, pos, negsuc, ◌+ℤ◌, ◌*ℤ◌, ltb_ℤ, eq_ℤ}
use caddy_dynamic_routing.Config.{WeightedUpstream}
use caddy_dynamic_routing.Selector.Smooth.{int_weight}

abbrev pub Counts : Type 0
Counts = List (Text × ℤ)

unfoldable pub count? : Text → Counts → Option ℤ
count? a [] = none
count? a ((b, n) ∷ cs) = if str_eq b a then some n else count? a cs

-- `getConnCount`
unfoldable pub conn_count : Text → Counts → ℤ
conn_count a cs = elim (count? a cs) [ none ↦ pos 0 | some n ↦ n ]

-- `atomic.AddInt64` on the counter of an address that has one
unfoldable pub add_to : Text → ℤ → Counts → Counts
add_to a d [] = []
add_to a d ((b, n) ∷ cs) = if str_eq b a then (b, n +ℤ d) ∷ cs else (b, n) ∷ add_to a d cs

-- `IncrementConn`: the counter is made if it is missing (`LoadOrStore`), then raised.
unfoldable pub increment_conn : Text → Counts → Counts
increment_conn a cs = elim (count? a cs) [
  | some n ↦ add_to a (pos 1) cs
  | none ↦ add_to a (pos 1) ((a, pos 0) ∷ cs)
]

-- `DecrementConn`: nothing happens where the address has no counter.
unfoldable pub decrement_conn : Text → Counts → Counts
decrement_conn a cs = elim (count? a cs) [ some n ↦ add_to a (negsuc 0) cs | none ↦ cs ]

-- The two tests of `selectLeastConn`'s loop: a lower ratio of connections to weight, or the same
-- ratio and a higher weight
unfoldable pub is_better : ℤ → ℤ → ℤ → ℤ → Bool
is_better conns weight min_conns min_weight =
    ltb_ℤ (conns *ℤ min_weight) (min_conns *ℤ weight)
    || (eq_ℤ (conns *ℤ min_weight) (min_conns *ℤ weight) && ltb_ℤ min_weight weight)

-- The loop of `selectLeastConn` from the second candidate on
unfoldable pub least_from :
    Counts → WeightedUpstream → ℤ → ℤ → List WeightedUpstream → WeightedUpstream
least_from cs best min_conns min_weight [] = best
least_from cs best min_conns min_weight (u ∷ us) =
    let conns = conn_count u.address cs in
    let weight = int_weight u in
    let better = is_better conns weight min_conns min_weight in
    least_from cs (if better then u else best) (if better then conns else min_conns)
      (if better then weight else min_weight) us

-- `selectLeastConn`
unfoldable pub select_least_conn : Counts → List WeightedUpstream → Option WeightedUpstream
select_least_conn cs [] = none
select_least_conn cs (u ∷ us) = some (least_from cs u (conn_count u.address cs) (int_weight u) us)

count?-add_to :
    (a b : Text) (d : ℤ) (cs : Counts)
    → count? b (add_to a d cs) ≡ (
        if str_eq a b
        then (elim (count? a cs) [ none ↦ none | some n ↦ some (n +ℤ d) ])
        else count? b cs)
unfolding count? add_to
count?-add_to a b d [] = ground arith
count?-add_to a b d ((c, n) ∷ cs) =
    ground (arith, str_eq_iff a b, str_eq_iff c a, str_eq_iff c b, count?-add_to a b d cs)
