-- ===== src/Tests/Picks.antt =====
-- Tests of matcher/selector.go.
use caddy_dynamic_routing.Base.{
  ◌+◌, ◌*◌, ◌<◌, ◌≡◌, ◌≢◌, refl, sym, ap, ◌∙◌, List, [], ◌∷◌, some, inl, inr, ◌⊎◌, some_inj, bytes,
  arith, In, All,
}
use caddy_dynamic_routing.Base.Int.{◌+ℤ◌, ◌-ℤ◌}
use mathlib.Core.Path.{subst}
use caddy_dynamic_routing.Base.Sort.{by_insertion, insertion_sort}
use caddy_dynamic_routing.Config.{WeightedUpstream, effective_weight}
use caddy_dynamic_routing.Selector.{Selector, select}
use caddy_dynamic_routing.Selector.Hash.{hash_string, upstreams_hash}
use caddy_dynamic_routing.Selector.Ring.{
  HashNode, new_ring, ring_get, node, decimal, nodes_from, num_nodes, all_nodes,
}
use caddy_dynamic_routing.Selector.Ring.Owner.{IsNearest}
use caddy_dynamic_routing.Selector.Ring.Stable.{
  IsCollisionFree, new_ring-IsNearest, new_ring-remove,
}
use caddy_dynamic_routing.Selector.Smooth.{
  Wrr, init_wrr, upstreams_match, pick_index, refresh, scan,
}
use caddy_dynamic_routing.Selector.Smooth.Fair.{spin, select_smooth_cycle, select_smooth_share}
use caddy_dynamic_routing.Selector.Conn.{count?, conn_count, select_least_conn}
use caddy_dynamic_routing.Selector.Conn.Least.{Beats, select_least_conn-Beats}
use caddy_dynamic_routing.Selector.Draw.{IsChoice}
use caddy_dynamic_routing.Selector.Choice.{IsHashedApart, IsPrepared, select-IsChoice}
use caddy_dynamic_routing.Tests.{east, west, ask}

abbrev empty_wrr : Wrr
empty_wrr = record { upstreams = []; weights = []; current = [] }

select_smooth_cycle_example :
    spin 3 empty_wrr (east ∷ west ∷ []) (0 ∷ 0 ∷ []) ≡ (init_wrr (east ∷ west ∷ []), 2 ∷ 1 ∷ [])
unfolding upstreams_match effective_weight
select_smooth_cycle_example = select_smooth_cycle east (west ∷ []) empty_wrr refl (omega arith)

select_smooth_share_example : 3 * 2 < 3 * 2 + 3
unfolding upstreams_match effective_weight pick_index refresh init_wrr spin scan ◌+ℤ◌ ◌-ℤ◌
select_smooth_share_example = select_smooth_share east (west ∷ []) 3 0 2 2 (omega arith) refl refl

select_least_conn_example :
    (r : WeightedUpstream) × (select_least_conn [] (east ∷ west ∷ []) ≡ some r)
    × In r (east ∷ west ∷ [])
    × All (Beats [] r) (east ∷ west ∷ [])
unfolding conn_count count? effective_weight
select_least_conn_example =
    select_least_conn-Beats [] east (west ∷ [])
      ((refl, omega arith, omega arith), ((refl, omega arith, omega arith), tt))

new_ring-IsNearest_example :
    (n : HashNode) × (ring_get (new_ring by_insertion (east ∷ west ∷ []) 2) (bytes "k")
      ≡ some n.upstream)
    × In n.upstream (east ∷ west ∷ [])
    × In n (all_nodes 2 (east ∷ west ∷ []))
    × IsNearest (hash_string (bytes "k")) (all_nodes 2 (east ∷ west ∷ [])) n
new_ring-IsNearest_example = new_ring-IsNearest by_insertion east (west ∷ []) 2 (bytes "k")

-- Both candidates, and those without the first
abbrev pub Asked : List WeightedUpstream → Type 0
Asked us = (us ≡ east ∷ west ∷ []) ⊎ (us ≡ west ∷ [])

sums_apart : upstreams_hash (east ∷ west ∷ []) ≢ upstreams_hash (west ∷ [])
unfolding upstreams_hash
sums_apart e = omega (arith, e)

pub lists_apart : IsHashedApart Asked
lists_apart xs ys (inl p) (inl q) e = p ∙ sym q
lists_apart xs ys (inl p) (inr q) e =
    absurd (sums_apart (ap upstreams_hash (sym p) ∙ e ∙ ap upstreams_hash q))
lists_apart xs ys (inr p) (inl q) e =
    absurd (sums_apart (ap upstreams_hash (sym q) ∙ sym e ∙ ap upstreams_hash p))
lists_apart xs ys (inr p) (inr q) e = p ∙ sym q

-- A selector whose ring was built without the first candidate
abbrev pub ringed : Selector
ringed = record {
  algorithm = bytes "consistent_hash";
  hash_key = [];
  rr_index = 0;
  wrr = empty_wrr;
  hash_ring = some (new_ring by_insertion (west ∷ []) 150);
  conn_counts = [];
}

pub ringed-IsPrepared : IsPrepared by_insertion Asked ringed
ringed-IsPrepared = record {
  fit = record { weights_fit = refl; current_fit = refl };
  built = λ ring e. (west ∷ [], inr refl, sym (some_inj e));
}

select-IsChoice_example :
    IsPrepared by_insertion Asked (select (λ n. 0) by_insertion ask ringed (east ∷ west ∷ [])).0
    × IsChoice (east ∷ west ∷ []) (select (λ n. 0) by_insertion ask ringed (east ∷ west ∷ [])).1
select-IsChoice_example =
    select-IsChoice (λ n. 0) by_insertion ask Asked ringed east (west ∷ []) (λ n h. h)
      (λ e. absurd (cc)) lists_apart (inl refl) ringed-IsPrepared

abbrev two_nodes : List HashNode
two_nodes = node east 0 ∷ node west 0 ∷ []

two_nodes_lem : all_nodes 1 (east ∷ west ∷ []) ≡ two_nodes
unfolding all_nodes nodes_from num_nodes effective_weight
two_nodes_lem = refl

hashes_apart : (node east 0).hash ≢ (node west 0).hash
unfolding hash_string decimal
hashes_apart e = omega (arith, e)

free : IsCollisionFree two_nodes
free n m (inl a) (inl b) e = ap (λ t. t.upstream) (sym a ∙ b)
free n m (inl a) (inr (inl b)) e =
    absurd (hashes_apart (ap (λ t. t.hash) a ∙ e ∙ sym (ap (λ t. t.hash) b)))
free n m (inr (inl a)) (inl b) e =
    absurd (hashes_apart (ap (λ t. t.hash) b ∙ sym e ∙ sym (ap (λ t. t.hash) a)))
free n m (inr (inl a)) (inr (inl b)) e = ap (λ t. t.upstream) (sym a ∙ b)
free n m (inl a) (inr (inr x)) e = elim x [ ]
free n m (inr (inl a)) (inr (inr x)) e = elim x [ ]
free n m (inr (inr x)) b e = elim x [ ]

owner : ring_get (new_ring by_insertion (east ∷ west ∷ []) 1) (bytes "k") ≡ some west
unfolding new_ring ring_get all_nodes nodes_from num_nodes effective_weight hash_string decimal
    insertion_sort
owner = refl

new_ring-remove_example : ring_get (new_ring by_insertion (west ∷ []) 1) (bytes "k") ≡ some west
new_ring-remove_example =
    new_ring-remove by_insertion [] east (west ∷ []) 1 (bytes "k") west
      (subst IsCollisionFree (sym two_nodes_lem) free) owner (λ e. absurd (cc))
