-- ===== src/Selector/Ring.antt =====
-- matcher/selector.go: `ConsistentHashRing`. The ring keeps the candidates themselves where the code
-- keeps pointers into the slice it was built from. The order that `sort.Slice` leaves nodes of equal
-- hash in is the parameter's.
pub mod Search
pub mod Owner
pub mod Stable
use caddy_dynamic_routing.Base.{
  ℕ, zero, suc, ◌+◌, ◌*◌, ◌/◌, ◌%◌, Bool, true, false, List, [], ◌∷◌, ◌++◌, Option, none, some,
  Text, if◌then◌else◌, ltb, leb, ◌==◌, length, get_elem?,
}
use caddy_dynamic_routing.Base.Int.{ℤ, pos, negsuc, ◌*ℤ◌}
use caddy_dynamic_routing.Base.Sort.{SortSlice}
use caddy_dynamic_routing.Config.{WeightedUpstream, effective_weight}
use caddy_dynamic_routing.Selector.Hash.{hash_string, upstreams_hash}
use Search.{search}

pub record HashNode : Type 0 where
  pub hash : ℕ
  pub upstream : WeightedUpstream

pub record ConsistentHashRing : Type 0 where
  pub ring : List HashNode
  pub upstreams : List WeightedUpstream
  pub config_hash : ℕ

-- The digits of a number, as `%d` prints it; the fuel bounds their count.
unfoldable pub decimal_from : ℕ → ℕ → Text
decimal_from zero n = []
decimal_from (suc f) n = elim (ltb n 10) [
  | true ↦ (48 + n) ∷ []
  | false ↦ decimal_from f (n / 10) ++ (48 + n % 10) ∷ []
]

unfoldable pub decimal : ℕ → Text
unfolding decimal_from
decimal n = decimal_from (suc n) n

-- `virtualNodes * weight / 10`, at least 1; Go's division rounds towards zero.
unfoldable pub num_nodes : ℕ → WeightedUpstream → ℕ
unfolding ◌*ℤ◌ effective_weight
num_nodes virtual_nodes u = elim (pos virtual_nodes *ℤ pos (effective_weight u.weight)) [
  | pos n ↦ if ltb (n / 10) 1 then 1 else n / 10
  | negsuc n ↦ 1
]

-- The node `j` of an upstream, and the nodes from `j` on
abbrev pub node : WeightedUpstream → ℕ → HashNode
node u j = record { hash = hash_string (u.address ++ b'-' ∷ decimal j); upstream = u }

unfoldable pub nodes_from : WeightedUpstream → ℕ → ℕ → List HashNode
nodes_from u zero j = []
nodes_from u (suc n) j = node u j ∷ nodes_from u n (j + 1)

unfoldable pub all_nodes : ℕ → List WeightedUpstream → List HashNode
unfolding nodes_from num_nodes
all_nodes virtual_nodes [] = []
all_nodes virtual_nodes (u ∷ us) =
    nodes_from u (num_nodes virtual_nodes u) 0 ++ all_nodes virtual_nodes us

abbrev pub hash_less : HashNode → HashNode → Bool
hash_less a b = ltb a.hash b.hash

-- `NewConsistentHashRing`
unfoldable pub new_ring : SortSlice HashNode → List WeightedUpstream → ℕ → ConsistentHashRing
new_ring s us virtual_nodes = record {
  ring = s.sort hash_less (all_nodes virtual_nodes us);
  upstreams = us;
  config_hash = upstreams_hash us;
}

abbrev pub at_least : ℕ → List HashNode → ℕ → Bool
at_least h nodes i = elim (get_elem? nodes i) [ none ↦ true | some n ↦ leb h n.hash ]

-- The node at an index, wrapped around to the first
at_index : List HashNode → ℕ → Option WeightedUpstream
at_index nodes idx = elim (get_elem? nodes (if leb (length nodes) idx then 0 else idx)) [
  | none ↦ none
  | some n ↦ some n.upstream
]

-- `ConsistentHashRing.Get`
unfoldable pub ring_get : ConsistentHashRing → Text → Option WeightedUpstream
unfolding search at_index
ring_get r key =
    at_index r.ring (search (length r.ring) (at_least (hash_string key) r.ring) 0 (length r.ring))

-- `ConsistentHashRing.Matches`
unfoldable pub matches : ConsistentHashRing → List WeightedUpstream → Bool
unfolding upstreams_hash
matches r us = r.config_hash == upstreams_hash us
