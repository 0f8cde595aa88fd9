-- ===== src/RouteCache.antt =====
-- datasource/cache/cache.go: `RouteCache`, the bounded cache of configurations with the negative cache.
-- The LRU cache is golang-lru's; the counters are `uint64`; a time is a number of nanoseconds.
pub mod Laws
pub mod Held
use caddy_dynamic_routing.Base.{
  ℕ, ◌+◌, ◌%◌, ◌==◌, Bool, true, false, List, [], ◌∷◌, Option, none, some, Text, if◌then◌else◌, ltb,
}
use caddy_dynamic_routing.Base.Maps.{load, delete}
use caddy_dynamic_routing.Config.{RouteConfig}
use caddy_dynamic_routing.Lru.{Lru}

-- `atomic.Uint64.Add(1)`
abbrev pub tick : ℕ → ℕ
tick n = (n + 1) % 18446744073709551616

-- A negative entry that has not expired
abbrev pub is_valid : ℕ → Option ℕ → Bool
is_valid now none = false
is_valid now (some until) = ltb now until

module _ (lru : Lru RouteConfig) where
  pub record RouteCache : Type 0 where
    pub cache : lru.Cache
    pub max_size : ℕ
    pub negative_ttl : ℕ
    pub hits : ℕ
    pub misses : ℕ
    pub negative_hits : ℕ
    pub negative : List (Text × ℕ)

  -- `NewRouteCache`; the size is not negative, and 0 stands for the default.
  unfoldable pub new_route_cache : ℕ → RouteCache
  new_route_cache n =
      let size = if n == 0 then 10000 else n in
      record {
        cache = lru.new size;
        max_size = size;
        negative_ttl = 30000000000;
        hits = 0;
        misses = 0;
        negative_hits = 0;
        negative = [];
      }

  -- The second half of `Get`
  unfoldable pub look_up : Text → RouteCache → Option RouteConfig × RouteCache
  look_up k c =
      let (val, after) = lru.get k c.cache in
      elim val [
        | some v ↦ (some v, record c { cache = after; hits = tick c.hits })
        | none ↦ (none, record c { cache = after; misses = tick c.misses })
      ]

  -- `Get`, at the time `now`
  unfoldable pub get : ℕ → Text → RouteCache → Option RouteConfig × RouteCache
  get now k c = elim (load k c.negative) [
    | none ↦ look_up k c
    | some until ↦
        if ltb now until
        then (none, record c { negative_hits = tick c.negative_hits; hits = tick c.hits })
        else look_up k (record c { negative = delete k c.negative })
  ]

  -- `IsNegativeCached`
  unfoldable pub is_negative_cached : ℕ → Text → RouteCache → Bool × RouteCache
  is_negative_cached now k c = elim (load k c.negative) [
    | none ↦ (false, c)
    | some until ↦
        if ltb now until then (true, c) else (false, record c { negative = delete k c.negative })
  ]

  -- `SetNegative`
  unfoldable pub set_negative : ℕ → Text → RouteCache → RouteCache
  set_negative now k c = record c { negative = (k, now + c.negative_ttl) ∷ c.negative }

  -- `SetNegativeTTL`
  unfoldable pub set_negative_ttl : ℕ → RouteCache → RouteCache
  set_negative_ttl ttl c = record c { negative_ttl = ttl }

  -- `Set`
  unfoldable pub set_route : Text → RouteConfig → RouteCache → RouteCache
  set_route k v c = record c { negative = delete k c.negative; cache = lru.add k v c.cache }

  -- `Delete`
  unfoldable pub delete_route : Text → RouteCache → RouteCache
  delete_route k c = record c { negative = delete k c.negative; cache = lru.remove k c.cache }

  -- `Clear`
  unfoldable pub clear : RouteCache → RouteCache
  clear c = record c {
    cache = lru.purge c.cache;
    negative = [];
    hits = 0;
    misses = 0;
    negative_hits = 0;
  }

  -- `Range`: the entries that the function is called on
  unfoldable pub range_over :
      (Text → RouteConfig → Bool) → List Text → RouteCache → List (Text × RouteConfig)
  range_over f [] c = []
  range_over f (k ∷ ks) c =
      let rest = range_over f ks c in
      elim (lru.peek k c.cache) [
        | none ↦ rest
        | some v ↦ if f k v then (k, v) ∷ rest else (k, v) ∷ []
      ]

  -- `Keys`
  unfoldable pub all_keys : RouteCache → List Text
  all_keys c = lru.keys c.cache

  unfoldable pub range : (Text → RouteConfig → Bool) → RouteCache → List (Text × RouteConfig)
  range f c = range_over f (lru.keys c.cache) c
