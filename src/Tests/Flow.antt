-- ===== src/Tests/Flow.antt =====
-- Tests of plugin.go and datasource/composite/composite.go.
use caddy_dynamic_routing.Base.{
  ℕ, ◌≡◌, refl, Bool, true, false, List, [], ◌∷◌, Option, none, some, inl, Text, bytes, str_eq,
}
use mathlib.Core.List.{Permᴰ}
use caddy_dynamic_routing.Base.Maps.{load}
use caddy_dynamic_routing.Base.Sort.{by_insertion}
use caddy_dynamic_routing.Config.{RouteConfig}
use caddy_dynamic_routing.Source.{Answer, failed, found}
use caddy_dynamic_routing.Lru.Recent.{recent, lookup}
use caddy_dynamic_routing.Matcher.{MatchResult}
use caddy_dynamic_routing.Matcher.Kept.{IsKeyed}
use caddy_dynamic_routing.Plugin.{
  Source, PoolIndex, find_upstream, rebuilt, Outcome, State, use_result, Policy, choose,
}
use caddy_dynamic_routing.Plugin.Index.{last_at, IsFresh, find_upstream_lem, find_upstream-stale}
use caddy_dynamic_routing.Plugin.Attempt.{IsServed, use_result-IsServed}
use caddy_dynamic_routing.Plugin.Mode.{IsInPool, choose-IsInPool}
use caddy_dynamic_routing.Plugin.Tally.{tally, due, choose-tally}
use caddy_dynamic_routing.Composite.{
  priority_arrivals, get_priority, merge_arrivals, merge_answers, Settings, get, failover,
}
use caddy_dynamic_routing.Composite.Arrival.{indexed, merge_arrivals_lem}
use caddy_dynamic_routing.Composite.Awaited.{priority_arrivals_lem}
use caddy_dynamic_routing.Composite.Merged.{IsMerge, merge_answers-IsMerge}
use caddy_dynamic_routing.Composite.Cached.{get-get}
use caddy_dynamic_routing.Tests.{east, west, ask, routed}

-- An upstream is its address.
abbrev same : Text → Text
same u = u

abbrev pool : List Text
pool = bytes "e:1" ∷ bytes "w:1" ∷ []

abbrev other_pool : List Text
other_pool = bytes "n:1" ∷ bytes "s:1" ∷ []

abbrev no_index : PoolIndex same
no_index = record { entries = none; last_size = 0 }

find_upstream_example :
    ((find_upstream same pool (bytes "w:1") no_index).0 ≡ last_at same (bytes "w:1") pool)
    × ((find_upstream same pool (bytes "w:1") no_index).1 ≡ rebuilt same pool)
find_upstream_example = find_upstream_lem same pool (bytes "w:1") no_index (inl refl)

find_upstream-stale_example :
    (find_upstream same other_pool
      (bytes "w:1")
      (find_upstream same pool (bytes "e:1") no_index).1).0
    ≡ last_at same (bytes "w:1") pool
find_upstream-stale_example =
    find_upstream-stale same pool other_pool (bytes "e:1") (bytes "w:1") no_index (inl refl) refl

-- What the stale index does: an upstream of the first pool is found in the second, which lacks it.
find_upstream_test : last_at same (bytes "w:1") pool ≡ some (bytes "w:1")
unfolding last_at str_eq
find_upstream_test = refl

abbrev source : Source ℕ
source = record { healthy = λ s. true; get = λ k s. (found (some routed), s) }

abbrev nothing_compiles : Text → Option (Text → Bool)
nothing_compiles p = none

abbrev start : State same source none recent nothing_compiles recent (λ n. 0) by_insertion 0
start = record {
  index = no_index;
  regex_cache = (recent {V = Text → Bool}).new 4;
  selectors = record { cache = (recent {V = ℕ}).new 4; made = [] };
  source_state = 0;
}

start-IsKeyed : IsKeyed recent start.selectors
unfolding lookup
start-IsKeyed k i e = absurd (cc)

abbrev candidates : MatchResult
candidates = record {
  upstreams = east ∷ west ∷ [];
  algorithm = bytes "first";
  algorithm_key = [];
  matched_simple = false;
}

use_result_example :
    (o : Outcome Text) × ((use_result same source none recent nothing_compiles recent
        (λ n. 0)
        by_insertion
        0
        pool
        ask
        (λ k. none)
        (bytes "key")
        candidates
        start).0
      ≡ o)
    × IsServed same none pool (bytes "key") (east ∷ west ∷ []) o
use_result_example =
    use_result-IsServed same source none recent nothing_compiles recent (λ n. 0) by_insertion 0 pool
      ask (λ k. none) (bytes "key") candidates start (inl refl) (λ n h. h) (λ e. absurd (cc))
      start-IsKeyed tt

abbrev policy : Policy
policy = record {
  key = some (λ r repl. bytes "key");
  instance_key = none;
  version_key = none;
  has_source = true;
}

choose-tally_example :
    tally
      (choose same source none recent nothing_compiles recent
        (λ n. 0)
        by_insertion
        0
        policy
        ask
        pool
        (some (λ k. none))
        start).0.0
    ≡ due
        (choose same source none recent nothing_compiles recent
          (λ n. 0)
          by_insertion
          0
          policy
          ask
          pool
          (some (λ k. none))
          start).0.1
choose-tally_example =
    choose-tally same source none recent nothing_compiles recent (λ n. 0) by_insertion 0 policy ask
      pool (some (λ k. none)) start

choose-IsInPool_example :
    IsInPool pool
      (choose same source none recent nothing_compiles recent
        (λ n. 0)
        by_insertion
        0
        policy
        ask
        pool
        (some (λ k. none))
        start).0.1
    × IsFresh same pool
        (choose same source none recent nothing_compiles recent
          (λ n. 0)
          by_insertion
          0
          policy
          ask
          pool
          (some (λ k. none))
          start).1.index
choose-IsInPool_example =
    choose-IsInPool same source none recent nothing_compiles recent (λ n. 0) by_insertion 0 policy
      ask pool (some (λ k. none)) start (inl refl)

abbrev answers : List Answer
answers = failed ∷ found (some routed) ∷ []

abbrev arrivals : List (ℕ × Answer)
arrivals = (1, found (some routed)) ∷ (0, failed) ∷ []

arrivals-perm : Permᴰ (indexed 0 answers) arrivals
unfolding indexed
arrivals-perm = Permᴰ.swap refl refl

priority_arrivals_example : priority_arrivals 2 arrivals ≡ get_priority answers
priority_arrivals_example = priority_arrivals_lem answers arrivals arrivals-perm

merge_arrivals_example : merge_arrivals 2 arrivals ≡ merge_answers none answers
merge_arrivals_example = merge_arrivals_lem answers arrivals arrivals-perm

merge_answers_example :
    (out : RouteConfig) × (merge_answers (some routed) answers ≡ some out)
    × IsMerge routed answers out
merge_answers_example = merge_answers-IsMerge routed answers

abbrev settings : Settings
settings = record { mode = failover; parallel = false; cache_results = true; cache_ttl = 30 }

get-get_example :
    (get settings 20 21
      (bytes "k")
      failed
      (get settings 5 6
        (bytes "k")
        (found (some routed))
        (record { entries = []; last_failed = false })).1).0
    ≡ found (some routed)
unfolding load
get-get_example =
    get-get settings 5 6 20 21 (bytes "k") routed failed
      (record { entries = []; last_failed = false }) refl refl
