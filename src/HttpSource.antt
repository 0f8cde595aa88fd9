-- ===== src/HttpSource.antt =====
-- datasource/http/http.go: routes fetched from an HTTP API, with a cache, retries and health checks.
-- The server is a parameter: what comes of each request. One call runs at a time, so that
-- singleflight's group has one member. Of an error, only that there is one is kept.
pub mod Retries
pub mod Table
pub mod Refreshed
use caddy_dynamic_routing.Base.{
  ℕ, zero, suc, ◌+◌, ◌==◌, Bool, true, false, not, ◌||◌, ◌&&◌, List, [], ◌∷◌, ◌++◌, Option, none,
  some, Text, bytes, is_nil, str_eq, if◌then◌else◌, leb,
}
use caddy_dynamic_routing.Base.Int.{ℤ, pos, negsuc, ltb_ℤ, leb_ℤ, eq_ℤ}
use caddy_dynamic_routing.Base.Sort.{SortSlice}
use caddy_dynamic_routing.Config.{RouteConfig, Rule}
use caddy_dynamic_routing.Config.Parse.{Decoders, Result, ok, err, parse}
use caddy_dynamic_routing.Source.{Answer, failed, found}
use caddy_dynamic_routing.Lru.{Lru}
use caddy_dynamic_routing.RouteCache.{
  RouteCache, new_route_cache, get, is_negative_cached, set_negative, set_route, delete_route,
  clear, all_keys,
}

-- What a request comes to: no response, or a status and a body that may fail to be read
pub data Reply : Type 0 where
  no_response : Reply
  response : ℕ → Option Text → Reply

-- What `doFetch` returns: an error, `errNotFound`, or a configuration
pub data Fetched : Type 0 where
  broken : Fetched
  not_found : Fetched
  fetched : Option RouteConfig → Fetched

-- The fields that the configuration gives
pub record Settings : Type 0 where
  pub url : Text
  pub method : Text
  pub timeout : ℤ
  pub cache_ttl : ℤ
  pub refresh_interval : ℤ
  pub retry_count : ℤ
  pub retry_delay : ℤ
  pub health_endpoint : Text
  pub max_cache_size : ℤ

abbrev or_duration : ℤ → ℤ → ℤ
or_duration x d = if eq_ℤ x (pos 0) then d else x

-- The defaults of `Provision`
unfoldable pub with_defaults : Settings → Settings
with_defaults s = record s {
  method = if is_nil s.method then bytes "GET" else s.method;
  timeout = or_duration s.timeout (pos 5000000000);
  cache_ttl = or_duration s.cache_ttl (pos 60000000000);
  health_endpoint = if is_nil s.health_endpoint then s.url else s.health_endpoint;
  retry_count = or_duration s.retry_count (pos 2);
  retry_delay = or_duration s.retry_delay (pos 100000000);
  max_cache_size = if leb_ℤ s.max_cache_size (pos 0) then pos 10000 else s.max_cache_size;
}

-- `Validate`
unfoldable pub is_valid_settings : Settings → Bool
is_valid_settings s =
    not (is_nil s.url)
    && ((is_nil s.method || (str_eq s.method (bytes "GET") || str_eq s.method (bytes "POST")))
        && (not (ltb_ℤ s.timeout (pos 0))
            && (not (ltb_ℤ s.cache_ttl (pos 0))
                && (not (ltb_ℤ s.refresh_interval (pos 0))
                    && (not (ltb_ℤ s.retry_count (pos 0)) && not (ltb_ℤ s.retry_delay (pos 0)))))))

-- The loop of `fetch` from an attempt on, for as many as are left: the answer, and the number of
-- requests. Before each attempt but the first, the context may be done.
unfoldable pub fetch_from : (ℕ → Fetched) → (ℕ → Bool) → ℕ → ℕ → Answer × ℕ
fetch_from try done attempt zero = (failed, 0)
fetch_from try done attempt (suc left) =
    let (later, sent) = fetch_from try done (suc attempt) left in
    if not (attempt == 0) && done attempt then (failed, 0) else (elim (try attempt) [
      | broken ↦ (later, suc sent)
      | not_found ↦ (found none, 1)
      | fetched config ↦ (found config, 1)
    ])

-- The number of attempts: `RetryCount + 1`, and none where that is not positive
abbrev pub attempts : ℤ → ℕ
attempts (pos n) = suc n
attempts (negsuc n) = 0

-- `healthCheck` on what its request comes to
unfoldable pub health_check : Reply → Bool
health_check no_response = false
health_check (response status body) = not (leb 500 status)

-- `fmt.Sprintf("%s/%s", h.URL, key)`
abbrev pub route_url : Settings → Text → Text
route_url s key = s.url ++ (bytes "/" ++ key)

-- The requests of one call: to which URL, at which attempt, and when the context is done
pub record Server : Type 0 where
  pub reply : Text → ℕ → Reply
  pub done : ℕ → Bool

module _ (decoders : Decoders) (sort : SortSlice Rule) where
  -- `doFetch` on what its request comes to
  unfoldable pub do_fetch : Reply → Fetched
  do_fetch no_response = broken
  do_fetch (response status none) = if status == 404 then not_found else broken
  do_fetch (response status (some body)) =
      let parsed : Fetched = elim (parse decoders sort body) [
        | ok config ↦ fetched config
        | err _ ↦ broken
      ] in
      if status == 404
      then not_found
      else if leb 500 status
      then broken
      else if not (status == 200)
      then broken
      else parsed

  -- `fetch`
  unfoldable pub fetch : Settings → Server → Text → Answer × ℕ
  fetch s server key =
      fetch_from (λ i. do_fetch (server.reply (route_url s key) i)) server.done 0
        (attempts s.retry_count)

module _ (lru : Lru RouteConfig) where
  -- `failing` is that the last error is not empty.
  pub record HttpSource : Type 0 where
    pub cache : RouteCache lru
    pub healthy : Bool
    pub failing : Bool

  -- The size as the cache takes it, which has its own default for 0
  abbrev pub cache_size : ℤ → ℕ
  cache_size (pos n) = n
  cache_size (negsuc n) = 0

  -- `Provision`, with what the first health check comes to
  unfoldable pub provision : Settings → Reply → Option (Settings × HttpSource)
  provision s checked =
      let ready = with_defaults s in
      let size = cache_size ready.max_cache_size in
      if is_nil s.url
      then none
      else some (
        ready,
        record {
          cache = new_route_cache lru size;
          healthy = health_check checked;
          failing = not (health_check checked);
        },
      )

  -- What the function behind singleflight makes of the fetch's answer
  unfoldable pub use_fetched : ℕ → Text → Answer → HttpSource → Answer × HttpSource
  use_fetched now key failed h = (failed, record h { failing = true })
  use_fetched now key (found none) h =
      (found none, record h { cache = set_negative lru now key h.cache; failing = false })
  use_fetched now key (found (some config)) h =
      (found (some config), record h { cache = set_route lru key config h.cache; failing = false })

  -- The function behind singleflight: the second look at the cache, then the fetch
  unfoldable pub fetch_missing : ℕ → Text → Answer → HttpSource → Answer × HttpSource
  fetch_missing now key answer h =
      let (again, c) = get lru now key h.cache in
      let missing = use_fetched now key answer (record h { cache = c }) in
      elim again [
        | some config ↦ (found (some config), record h { cache = c; failing = false })
        | none ↦ missing
      ]

  -- `Get`, at the time `now`, where the answer is what `fetch` returns
  unfoldable pub get_route : ℕ → Text → Answer → HttpSource → Answer × HttpSource
  get_route now key answer h =
      let (cached, c) = get lru now key h.cache in
      let (negative, d) = is_negative_cached lru now key c in
      let fetched = fetch_missing now key answer (record h { cache = d }) in
      elim cached [
        | some config ↦ (found (some config), record h { cache = c })
        | none ↦
            if negative
            then (found none, record h { cache = d })
            else if not h.healthy
            then (found none, record h { cache = d })
            else fetched
      ]

  -- What `refreshCache` makes of a key's answer
  unfoldable pub refresh_key : Text → Answer → RouteCache lru → RouteCache lru
  refresh_key key failed c = c
  refresh_key key (found (some config)) c = set_route lru key config c
  refresh_key key (found none) c = delete_route lru key c

  -- Its loop
  unfoldable pub refresh_keys : (Text → Answer) → List Text → RouteCache lru → RouteCache lru
  refresh_keys answers [] c = c
  refresh_keys answers (key ∷ keys) c = refresh_keys answers keys (refresh_key key (answers key) c)

  -- `refreshCache`
  unfoldable pub refresh_cache : (Text → Answer) → HttpSource → HttpSource
  refresh_cache answers h = record h { cache = refresh_keys answers (all_keys lru h.cache) h.cache }

  -- `doHealthCheck`
  unfoldable pub do_health_check : Reply → HttpSource → HttpSource
  do_health_check checked h = record h { healthy = health_check checked }

  -- `refreshLoop` at a tick
  unfoldable pub tick_refresh : (Text → Answer) → Reply → HttpSource → HttpSource
  tick_refresh answers checked h = do_health_check checked (refresh_cache answers h)

  -- `AdminClearCache`
  unfoldable pub admin_clear_cache : HttpSource → HttpSource
  admin_clear_cache h = record h { cache = clear lru h.cache }
