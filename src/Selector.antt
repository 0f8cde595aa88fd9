-- ===== src/Selector.antt =====
-- matcher/selector.go: the load-balancing algorithms of `UpstreamSelector`.
-- A pointer into the candidates is the candidate itself. `rand.Intn` is the argument `rand`, and
-- `sort.Slice` the argument `sorter`. Each call is one step: the counters are atomic, the smooth
-- round-robin holds its mutex, and the code leaves the hash ring unguarded.
pub mod Hash
pub mod Ring
pub mod Smooth
pub mod Conn
pub mod Draw
pub mod Turns
pub mod Choice
pub mod Fit
use caddy_dynamic_routing.Base.{
  ℕ, zero, suc, ◌+◌, ◌%◌, Bool, true, false, List, [], ◌∷◌, Option, none, some, Text, bytes, str_eq,
  is_nil, if◌then◌else◌, length, get_elem?,
}
use caddy_dynamic_routing.Base.Int.{ℤ, pos, pos_part, ◌+ℤ◌, ltb_ℤ, leb_ℤ}
use caddy_dynamic_routing.Base.Sort.{SortSlice}
use caddy_dynamic_routing.Config.{WeightedUpstream}
use caddy_dynamic_routing.Request.{Request, client_ip}
use Hash.{hash_to_index}
use Ring.{ConsistentHashRing, HashNode, new_ring, ring_get, matches}
use Smooth.{Wrr, int_weight, select_smooth}
use Conn.{Counts, select_least_conn}

pub data Algorithm : Type 0 where
  weighted_random round_robin weighted_round_robin ip_hash uri_hash : Algorithm
  header_hash first consistent_hash least_conn : Algorithm

-- The `switch` of `Select`: the algorithm that a name stands for, the weighted random one by default
unfoldable pub algorithm_of : Text → Algorithm
unfolding str_eq
algorithm_of a =
    if str_eq a (bytes "round_robin")
    then round_robin
    else if str_eq a (bytes "weighted_round_robin")
    then weighted_round_robin
    else if str_eq a (bytes "ip_hash")
    then ip_hash
    else if str_eq a (bytes "uri_hash")
    then uri_hash
    else if str_eq a (bytes "header_hash")
    then header_hash
    else if str_eq a (bytes "first")
    then first
    else if str_eq a (bytes "consistent_hash")
    then consistent_hash
    else if str_eq a (bytes "least_conn")
    then least_conn
    else weighted_random

pub record Selector : Type 0 where
  pub algorithm : Text
  pub hash_key : Text
  pub rr_index : ℕ
  pub wrr : Wrr
  pub hash_ring : Option ConsistentHashRing
  pub conn_counts : Counts

-- `NewUpstreamSelector`
unfoldable pub new_selector : Text → Text → Selector
new_selector algorithm hash_key = record {
  algorithm = algorithm;
  hash_key = hash_key;
  rr_index = 0;
  wrr = record { upstreams = []; weights = []; current = [] };
  hash_ring = none;
  conn_counts = [];
}

-- What a selection returns: a candidate, nil, or a panic.
pub data Pick : Type 0 where
  chosen : WeightedUpstream → Pick
  nothing panic : Pick

-- Go's indexing panics out of range.
abbrev pub at : Option WeightedUpstream → Pick
at none = panic
at (some u) = chosen u

-- A pointer that may be nil
abbrev pub pointer : Option WeightedUpstream → Pick
pointer none = nothing
pointer (some u) = chosen u

-- `selectRoundRobin`: the index is a `uint64`.
unfoldable pub select_round_robin : Selector → List WeightedUpstream → Selector × Pick
select_round_robin s us = (
  record s { rr_index = (s.rr_index + 1) % 18446744073709551616 },
  at (get_elem? us (s.rr_index % length us)),
)

unfoldable pub total_weight : ℤ → List WeightedUpstream → ℤ
total_weight total [] = total
total_weight total (u ∷ us) = total_weight (total +ℤ int_weight u) us

-- The second loop of `selectWeightedRandom`; `none` where it runs to its end
unfoldable pub draw_from : ℤ → ℤ → List WeightedUpstream → Option WeightedUpstream
draw_from target cumulative [] = none
draw_from target cumulative (u ∷ us) =
    let next = cumulative +ℤ int_weight u in
    let rest = draw_from target next us in if ltb_ℤ target next then some u else rest

-- `selectWeightedRandom`
unfoldable pub select_weighted_random : (ℕ → ℕ) → List WeightedUpstream → Pick
select_weighted_random rand us =
    let total = total_weight (pos 0) us in
    if leb_ℤ total (pos 0)
    then at (get_elem? us (rand (length us)))
    else (elim (draw_from (pos (rand (pos_part total))) (pos 0) us) [
      | some u ↦ chosen u
      | none ↦ at (get_elem? us 0)
    ])

-- `selectIPHash`, `selectURIHash` and `selectHeaderHash` pick by the hash of a text.
unfoldable pub select_by_hash : Text → List WeightedUpstream → Pick
select_by_hash s us = at (get_elem? us (hash_to_index s (length us)))

-- `selectURIHash` dereferences the request's URL.
unfoldable pub select_uri_hash : Request → List WeightedUpstream → Pick
select_uri_hash r us = elim r.url_path [ some path ↦ select_by_hash path us | none ↦ panic ]

unfoldable pub select_header_hash : (ℕ → ℕ) → Request → Text → List WeightedUpstream → Pick
select_header_hash rand r hash_key us =
    let value = r.header_get hash_key in
    if is_nil value then select_weighted_random rand us else select_by_hash value us

-- The key that `selectConsistentHash` looks up
unfoldable pub ring_key : Request → Text → Text
ring_key r hash_key =
    if is_nil hash_key
    then client_ip r
    else if is_nil (r.header_get hash_key)
    then client_ip r
    else r.header_get hash_key

-- The ring of `selectConsistentHash`, built anew unless the one at hand matches
unfoldable pub current_ring :
    SortSlice HashNode → Option ConsistentHashRing → List WeightedUpstream → ConsistentHashRing
current_ring sorter none us = new_ring sorter us 150
current_ring sorter (some r) us = if matches r us then r else new_ring sorter us 150

unfoldable pub select_consistent_hash :
    SortSlice HashNode → Request → Selector → List WeightedUpstream → Selector × Pick
select_consistent_hash sorter r s us =
    let ring = current_ring sorter s.hash_ring us in
    (record s { hash_ring = some ring }, pointer (ring_get ring (ring_key r s.hash_key)))

module _ (rand : ℕ → ℕ) (sorter : SortSlice HashNode) (r : Request) where
  unfoldable pub select_by : Algorithm → Selector → List WeightedUpstream → Selector × Pick
  select_by weighted_random s us = (s, select_weighted_random rand us)
  select_by round_robin s us = select_round_robin s us
  select_by weighted_round_robin s us =
      let (wrr, u) = select_smooth s.wrr us in (record s { wrr = wrr }, at u)
  select_by ip_hash s us = (s, select_by_hash (client_ip r) us)
  select_by uri_hash s us = (s, select_uri_hash r us)
  select_by header_hash s us = (s, select_header_hash rand r s.hash_key us)
  select_by first s us = (s, at (get_elem? us 0))
  select_by consistent_hash s us = select_consistent_hash sorter r s us
  select_by least_conn s us = (s, at (select_least_conn s.conn_counts us))

  -- `UpstreamSelector.Select`
  unfoldable pub select : Selector → List WeightedUpstream → Selector × Pick
  select s [] = (s, nothing)
  select s (u ∷ []) = (s, chosen u)
  select s (u ∷ v ∷ us) = select_by (algorithm_of s.algorithm) s (u ∷ v ∷ us)
