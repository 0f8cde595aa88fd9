-- ===== src/Consul.antt =====
-- datasource/consul/consul.go: routes kept in Consul, listed anew whenever the index of the prefix
-- changes. The client is a parameter: what each of its queries comes to. Of an error, only that there
-- is one is kept.
pub mod Listing
use caddy_dynamic_routing.Base.{
  ℕ, ◌==◌, Bool, true, false, not, List, [], ◌∷◌, ◌++◌, Option, none, some, Text, if◌then◌else◌,
  map,
}
use caddy_dynamic_routing.Base.Texts.{has}
use caddy_dynamic_routing.Base.Sort.{SortSlice}
use caddy_dynamic_routing.Config.{RouteConfig, Rule}
use caddy_dynamic_routing.Config.Parse.{Decoders, Result, ok, err, parse}
use caddy_dynamic_routing.Source.{Answer, failed, found}
use caddy_dynamic_routing.Lru.{Lru}
use caddy_dynamic_routing.RouteCache.{
  RouteCache, get, is_negative_cached, set_negative, set_route, delete_route, clear, all_keys,
}

-- What a query of the prefix comes to: an error, or the index and the pairs
pub data Query : Type 0 where
  query_failed : Query
  listed : ℕ → List (Text × Text) → Query

-- What `Get` of a key comes to: an error, no pair, or the pair's value
pub data Lookup : Type 0 where
  lookup_failed : Lookup
  no_pair : Lookup
  pair : Text → Lookup

module _ (lru : Lru RouteConfig) (decoders : Decoders) (sort : SortSlice Rule) where
  -- `failing` is that the last error is not empty.
  pub record ConsulSource : Type 0 where
    pub cache : RouteCache lru
    pub healthy : Bool
    pub failing : Bool
    pub last_index : ℕ

  -- A pair of a list
  unfoldable pub update_pair : Text → Text → RouteCache lru → RouteCache lru
  update_pair key value c = elim (parse decoders sort value) [
    | err _ ↦ c
    | ok none ↦ c
    | ok (some config) ↦ set_route lru key config c
  ]

  -- The loop over the pairs
  unfoldable pub update_pairs : List (Text × Text) → RouteCache lru → RouteCache lru
  update_pairs [] c = c
  update_pairs ((key, value) ∷ pairs) c = update_pairs pairs (update_pair key value c)

  -- The loop over the cache's keys
  unfoldable pub delete_unlisted : List Text → List Text → RouteCache lru → RouteCache lru
  delete_unlisted new_keys [] c = c
  delete_unlisted new_keys (k ∷ ks) c =
      let kept = delete_unlisted new_keys ks c in
      let deleted = delete_unlisted new_keys ks (delete_route lru k c) in
      if not (has k new_keys) then deleted else kept

  -- The new state of the cache
  unfoldable pub apply_list : List (Text × Text) → RouteCache lru → RouteCache lru
  apply_list pairs c =
      let updated = update_pairs pairs c in
      delete_unlisted (map (λ p. p.0) pairs) (all_keys lru updated) updated

  -- `initialLoad`: whether it succeeds
  unfoldable pub initial_load : Query → ConsulSource → Bool × ConsulSource
  initial_load query_failed s = (false, s)
  initial_load (listed index pairs) s =
      (true, record s { cache = update_pairs pairs s.cache; last_index = index })

  -- `watch` over the queries that it sends, until one fails
  unfoldable pub watch_queries : List Query → ConsulSource → ConsulSource
  watch_queries [] s = s
  watch_queries (query_failed ∷ qs) s = s
  watch_queries (listed index pairs ∷ qs) s =
      let same = watch_queries qs s in
      let changed =
        watch_queries qs (record s { cache = apply_list pairs s.cache; last_index = index }) in
      if index == s.last_index then same else changed

  unfoldable pub watch : List Query → ConsulSource → ConsulSource
  watch qs s = watch_queries qs (record s { healthy = true })

  -- What follows the client's `Get`, in the function behind singleflight
  unfoldable pub use_lookup : ℕ → Text → Lookup → ConsulSource → Answer × ConsulSource
  use_lookup now key lookup_failed s = (failed, record s { failing = true })
  use_lookup now key no_pair s =
      (found none, record s { cache = set_negative lru now key s.cache; failing = false })
  use_lookup now key (pair value) s = elim (parse decoders sort value) [
    | err _ ↦ (failed, record s { failing = true })
    | ok none ↦ (found none, record s { failing = false })
    | ok (some config) ↦ (
      found (some config),
      record s { cache = set_route lru key config s.cache; failing = false },
    )
  ]

  -- The function behind singleflight
  unfoldable pub fetch_missing : ℕ → Text → Lookup → ConsulSource → Answer × ConsulSource
  fetch_missing now key response s =
      let (again, c) = get lru now key s.cache in
      let missing = use_lookup now key response (record s { cache = c }) in
      elim again [
        | some config ↦ (found (some config), record s { cache = c; failing = false })
        | none ↦ missing
      ]

  -- `Get`, at the time `now`, for the prefix
  unfoldable pub get_route : Text → ℕ → Text → Lookup → ConsulSource → Answer × ConsulSource
  get_route prefix now key response s =
      let full_key = prefix ++ key in
      let (cached, c) = get lru now full_key s.cache in
      let (negative, d) = is_negative_cached lru now full_key c in
      let fetched = fetch_missing now full_key response (record s { cache = d }) in
      elim cached [
        | some config ↦ (found (some config), record s { cache = c })
        | none ↦
            if negative
            then (found none, record s { cache = d })
            else if not s.healthy
            then (found none, record s { cache = d })
            else fetched
      ]

  -- `AdminClearCache`
  unfoldable pub admin_clear_cache : ConsulSource → ConsulSource
  admin_clear_cache s = record s { cache = clear lru s.cache }
