-- ===== src/Composite.antt =====
-- datasource/composite/composite.go: `CompositeSource`, which combines several data sources.
-- One lookup sees of each source whether it is healthy and what it answers for the key. In a parallel
-- mode the answers come with their source's index in the order of arrival. The combined results'
-- cache is a map from keys to a configuration and its time of expiry, its last insertion first.
pub mod Arrival
pub mod Awaited
pub mod Merged
pub mod Cached
pub mod Views
use caddy_dynamic_routing.Base.{
  ℕ, zero, suc, ◌+◌, Bool, true, false, not, List, [], ◌∷◌, ◌++◌, map, Option, none, some, Text,
  bytes, is_nil, str_eq, if◌then◌else◌, ltb, length, set,
}
use caddy_dynamic_routing.Base.Int.{ℤ, pos, ltb_ℤ}
use caddy_dynamic_routing.Base.Maps.{load, delete}
use caddy_dynamic_routing.Config.{RouteConfig, Rule, clone}
use caddy_dynamic_routing.Source.{Answer, failed, found, config_of}

pub record Reply : Type 0 where
  pub healthy : Bool
  pub answer : Answer

-- `getFailover`
unfoldable pub get_failover : List Reply → Option RouteConfig
get_failover [] = none
get_failover (r ∷ rs) =
    let rest = get_failover rs in
    if r.healthy then (elim (config_of r.answer) [ some c ↦ some c | none ↦ rest ]) else rest

-- The map assignment `m[k] = v`
unfoldable pub put : Text → Text → List (Text × Text) → List (Text × Text)
put k v [] = (k, v) ∷ []
put k v ((j, w) ∷ m) = if str_eq j k then (k, v) ∷ m else (j, w) ∷ put k v m

unfoldable pub put_all : List (Text × Text) → List (Text × Text) → List (Text × Text)
unfolding put
put_all m [] = m
put_all m ((k, v) ∷ kvs) = put_all (put k v m) kvs

abbrev pub or_text : Text → Text → Text
or_text new old = if is_nil new then old else new

abbrev pub or_enabled : Option Bool → Option Bool → Option Bool
or_enabled none old = old
or_enabled (some b) old = some b

-- `mergeConfig`, which changes `dst`
unfoldable pub merge_config : RouteConfig → RouteConfig → RouteConfig
unfolding put_all
merge_config dst src = record dst {
  upstream = or_text src.upstream dst.upstream;
  algorithm = or_text src.algorithm dst.algorithm;
  algorithm_key = or_text src.algorithm_key dst.algorithm_key;
  fallback = or_text src.fallback dst.fallback;
  description = or_text src.description dst.description;
  ttl = if ltb_ℤ (pos 0) src.ttl then src.ttl else dst.ttl;
  enabled = or_enabled src.enabled dst.enabled;
  rules = dst.rules ++ src.rules;
  metadata = put_all dst.metadata src.metadata;
  version = if ltb_ℤ dst.version src.version then src.version else dst.version;
}

-- What the loops make of the next configuration
unfoldable pub merge_next : Option RouteConfig → RouteConfig → RouteConfig
merge_next none c = clone c
merge_next (some merged) c = merge_config merged c

-- `getMergeSequential`
unfoldable pub merge_answers : Option RouteConfig → List Answer → Option RouteConfig
merge_answers merged [] = merged
merge_answers merged (failed ∷ xs) = merge_answers merged xs
merge_answers merged (found none ∷ xs) = merge_answers merged xs
merge_answers merged (found (some c) ∷ xs) = merge_answers (some (merge_next merged c)) xs

-- A slice of nil pointers
unfoldable pub nils : ℕ → List (Option RouteConfig)
nils zero = []
nils (suc n) = none ∷ nils n

-- The loop of `getMergeParallel` over the arrivals
unfoldable pub place : ℕ × Answer → List (Option RouteConfig) → List (Option RouteConfig)
place (i, failed) configs = configs
place (i, found c) configs = set configs i c

unfoldable pub place_all : List (ℕ × Answer) → List (Option RouteConfig) → List (Option RouteConfig)
place_all [] configs = configs
place_all (r ∷ rs) configs = place_all rs (place r configs)

-- Its loop over the collected configurations
unfoldable pub merge_configs : Option RouteConfig → List (Option RouteConfig) → Option RouteConfig
merge_configs merged [] = merged
merge_configs merged (none ∷ cs) = merge_configs merged cs
merge_configs merged (some c ∷ cs) = merge_configs (some (merge_next merged c)) cs

-- `getMergeParallel`
unfoldable pub merge_arrivals : ℕ → List (ℕ × Answer) → Option RouteConfig
merge_arrivals n rs = merge_configs none (place_all rs (nils n))

-- `getPriority`, one source after another
unfoldable pub get_priority : List Answer → Option RouteConfig
get_priority [] = none
get_priority (failed ∷ xs) = get_priority xs
get_priority (found none ∷ xs) = get_priority xs
get_priority (found (some c) ∷ xs) = some c

-- `getPriorityParallel`: the map from indices is a slice of the sources' number, where a missing key
-- is nil.
unfoldable pub note : ℕ × Answer → List (Option RouteConfig) → List (Option RouteConfig)
note (i, failed) collected = collected
note (i, found none) collected = collected
note (i, found (some c)) collected = set collected i (some c)

-- The inner loop: the first configuration, where it may pass over sources that have none only when
-- all have answered
unfoldable pub first_noted : Bool → List (Option RouteConfig) → Option RouteConfig
first_noted all [] = none
first_noted all (some c ∷ cs) = some c
first_noted all (none ∷ cs) = let rest = first_noted all cs in if all then rest else none

abbrev pub first_or : Option RouteConfig → Option RouteConfig → Option RouteConfig
first_or none rest = rest
first_or (some c) rest = some c

unfoldable pub await : ℕ → ℕ → List (Option RouteConfig) → List (ℕ × Answer) → Option RouteConfig
await n received collected [] = first_noted true collected
await n received collected (r ∷ rs) =
    let after = note r collected in
    let rest = await n (suc received) after rs in
    first_or (first_noted (not (ltb (suc received) n)) after) rest

unfoldable pub priority_arrivals : ℕ → List (ℕ × Answer) → Option RouteConfig
priority_arrivals n rs = await n 0 (nils n) rs

-- `getFirst`
unfoldable pub get_first : List Reply → Answer
get_first [] = found none
get_first (r ∷ rs) = r.answer

-- `Healthy`
unfoldable pub is_healthy : List Reply → Bool
is_healthy [] = false
is_healthy (r ∷ rs) = let rest = is_healthy rs in if r.healthy then true else rest

pub data Mode : Type 0 where
  failover merge priority first : Mode

pub record Settings : Type 0 where
  pub mode : Mode
  pub parallel : Bool
  pub cache_results : Bool
  pub cache_ttl : ℕ

-- The `switch` of `Get`, `getMerge` and `getPriority`
unfoldable pub combine : Settings → List Reply → List (ℕ × Answer) → Answer
combine p replies arrivals = elim (p.mode) [
  | failover ↦ found (get_failover replies)
  | merge ↦ found (
      if p.parallel
      then merge_arrivals (length replies) arrivals
      else merge_answers none (map (λ r. r.answer) replies))
  | priority ↦ found (
      if p.parallel
      then priority_arrivals (length replies) arrivals
      else get_priority (map (λ r. r.answer) replies))
  | first ↦ get_first replies
]

-- The cache, and whether `lastError` holds an error
pub record Results : Type 0 where
  pub entries : List (Text × (RouteConfig × ℕ))
  pub last_failed : Bool

-- The second half of `Get`: the result is stored at the time `done`.
unfoldable pub keep : Settings → ℕ → Text → Answer → Results → Results
keep p done key failed s = record s { last_failed = true }
keep p done key (found none) s = record s { last_failed = false }
keep p done key (found (some c)) s = record {
  entries = if p.cache_results then (key, (c, done + p.cache_ttl)) ∷ s.entries else s.entries;
  last_failed = false;
}

unfoldable pub get_anew : Settings → ℕ → Text → Answer → Results → Answer × Results
get_anew p done key answer s = (answer, keep p done key answer s)

-- `Get`, begun at the time `now`
unfoldable pub get : Settings → ℕ → ℕ → Text → Answer → Results → Answer × Results
get p now done key answer s =
    let dropped = record s { entries = delete key s.entries } in
    if p.cache_results
    then (elim (load key s.entries) [
      | none ↦ get_anew p done key answer s
      | some e ↦ if ltb now e.1 then (found (some e.0), s) else get_anew p done key answer dropped
    ])
    else get_anew p done key answer s
