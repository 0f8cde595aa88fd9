-- ===== src/Etcd.antt =====
-- datasource/etcd/etcd.go: routes kept in etcd, loaded at the start, watched, and fetched where the
-- cache has none. The client is a parameter: the pairs it loads, the events it sends, the value it
-- gets. Of an error, only that there is one is kept; a delay is a number of nanoseconds.
pub mod Replay
pub mod Backoff
use caddy_dynamic_routing.Base.{
  ℕ, ◌+◌, ◌*◌, Bool, true, false, not, ◌&&◌, ◌||◌, List, [], ◌∷◌, ◌++◌, Option, none, some, Text,
  bytes, is_nil, if◌then◌else◌, ltb, length, ◌==◌,
}
use caddy_dynamic_routing.Base.Int.{ℤ, pos, negsuc, ltb_ℤ, eq_ℤ}
use caddy_dynamic_routing.Base.Sort.{SortSlice}
use caddy_dynamic_routing.Config.{RouteConfig, Rule}
use caddy_dynamic_routing.Config.Parse.{Decoders, Result, ok, err, parse}
use caddy_dynamic_routing.Source.{Answer, failed, found}
use caddy_dynamic_routing.Lru.{Lru}
use caddy_dynamic_routing.RouteCache.{RouteCache, get, set_negative, set_route, delete_route, clear}

-- The fields that the configuration gives, without the credentials
pub record Settings : Type 0 where
  pub endpoints : List Text
  pub prefix : Text
  pub dial_timeout : ℤ
  pub request_timeout : ℤ
  pub max_cache_size : ℤ
  pub tls_enabled : Bool
  pub tls_cert_file : Text
  pub tls_key_file : Text

abbrev or_duration : ℤ → ℤ → ℤ
or_duration x d = if eq_ℤ x (pos 0) then d else x

-- The defaults of `Provision`
unfoldable pub with_defaults : Settings → Settings
with_defaults s = record s {
  prefix = if is_nil s.prefix then bytes "/caddy/routing/" else s.prefix;
  dial_timeout = or_duration s.dial_timeout (pos 5000000000);
  request_timeout = or_duration s.request_timeout (pos 2000000000);
}

-- `Validate`
unfoldable pub is_valid_settings : Settings → Bool
is_valid_settings s =
    not (length s.endpoints == 0)
    && (not (ltb_ℤ s.dial_timeout (pos 0))
        && (not (ltb_ℤ s.request_timeout (pos 0))
            && (not (ltb_ℤ s.max_cache_size (pos 0))
                && not (
                    s.tls_enabled
                    && ((not (is_nil s.tls_cert_file) && is_nil s.tls_key_file)
                        || (is_nil s.tls_cert_file && not (is_nil s.tls_key_file)))))))

-- An event of a watch: the new value of a key, or its removal
pub data Event : Type 0 where
  put_event : Text → Text → Event
  delete_event : Text → Event

-- What a watch receives
pub data Message : Type 0 where
  context_done : Message
  channel_closed : Message
  response_error : Message
  events : List Event → Message

-- What `watch` returns: nothing yet, nil, the context's error, or another one
pub data Returned : Type 0 where
  waiting : Returned
  returned_nil : Returned
  returned_done : Returned
  returned_error : Returned

-- What the client's `Get` returns: an error, no pair, or the first pair's value
pub data Response : Type 0 where
  get_failed : Response
  no_pair : Response
  first_pair : Text → Response

-- A second, and a minute
abbrev pub first_backoff : ℕ
first_backoff = 1000000000

abbrev pub max_backoff : ℕ
max_backoff = 60000000000

-- The exponential backoff
unfoldable pub next_backoff : ℕ → ℕ
next_backoff backoff = if ltb max_backoff (backoff * 2) then max_backoff else backoff * 2

module _ (lru : Lru RouteConfig) (decoders : Decoders) (sort : SortSlice Rule) where
  -- `failing` is that the last error is not empty.
  pub record EtcdSource : Type 0 where
    pub cache : RouteCache lru
    pub healthy : Bool
    pub failing : Bool

  -- What a value says: a route, or nothing that is stored, since it does not parse or is empty
  unfoldable pub route_of : Text → Option RouteConfig
  route_of value = elim (parse decoders sort value) [ err _ ↦ none | ok config ↦ config ]

  -- A pair of the initial load, and a put event
  unfoldable pub store_value : Text → Text → RouteCache lru → RouteCache lru
  store_value key value c = elim (route_of value) [
    | none ↦ c
    | some config ↦ set_route lru key config c
  ]

  -- `initialLoad` on the pairs
  unfoldable pub initial_load : List (Text × Text) → RouteCache lru → RouteCache lru
  initial_load [] c = c
  initial_load ((key, value) ∷ kvs) c = initial_load kvs (store_value key value c)

  -- An event of `watch`
  unfoldable pub apply_event : Event → RouteCache lru → RouteCache lru
  apply_event (put_event key value) c = store_value key value c
  apply_event (delete_event key) c = delete_route lru key c

  unfoldable pub apply_events : List Event → RouteCache lru → RouteCache lru
  apply_events [] c = c
  apply_events (ev ∷ evs) c = apply_events evs (apply_event ev c)

  -- The loop of `watch` over what it receives
  unfoldable pub receive : List Message → RouteCache lru → Returned × RouteCache lru
  receive [] c = (waiting, c)
  receive (context_done ∷ ms) c = (returned_done, c)
  receive (channel_closed ∷ ms) c = (returned_error, c)
  receive (response_error ∷ ms) c = (returned_error, c)
  receive (events evs ∷ ms) c = receive ms (apply_events evs c)

  -- `watch`
  unfoldable pub watch : List Message → EtcdSource → Returned × EtcdSource
  watch ms e = let (r, c) = receive ms e.cache in (r, record e { cache = c; healthy = true })

  -- `watchLoop`, of which each watch receives a list of messages: the delays that it waits, and the
  -- source. It ends with the context, and stands still where a watch has not returned.
  unfoldable pub watch_loop : ℕ → List (List Message) → EtcdSource → List ℕ × EtcdSource
  watch_loop backoff [] e = ([], e)
  watch_loop backoff (ms ∷ rest) e =
      let (r, after) = watch ms e in
      let down = record after { healthy = false } in
      let (waits, last) = watch_loop (next_backoff backoff) rest down in
      let reset = watch_loop first_backoff rest after in
      elim r [
        | waiting ↦ ([], after)
        | returned_nil ↦ reset
        | returned_done ↦ ([], after)
        | returned_error ↦ (backoff ∷ waits, last)
      ]

  -- What follows the client's `Get`, in the function behind singleflight
  unfoldable pub use_response : ℕ → Text → Response → EtcdSource → Answer × EtcdSource
  use_response now key get_failed e = (failed, record e { failing = true })
  use_response now key no_pair e =
      (found none, record e { cache = set_negative lru now key e.cache; failing = false })
  use_response now key (first_pair value) e = elim (parse decoders sort value) [
    | err _ ↦ (failed, record e { failing = true })
    | ok none ↦ (found none, record e { failing = false })
    | ok (some config) ↦ (
      found (some config),
      record e { cache = set_route lru key config e.cache; failing = false },
    )
  ]

  -- The function behind singleflight
  unfoldable pub fetch_missing : ℕ → Text → Response → EtcdSource → Answer × EtcdSource
  fetch_missing now key response e =
      let (again, c) = get lru now key e.cache in
      let missing = use_response now key response (record e { cache = c }) in
      elim again [
        | some config ↦ (found (some config), record e { cache = c; failing = false })
        | none ↦ missing
      ]

  -- `Get`, at the time `now`
  unfoldable pub get_route : Settings → ℕ → Text → Response → EtcdSource → Answer × EtcdSource
  get_route s now key response e =
      let full_key = s.prefix ++ key in
      let (cached, c) = get lru now full_key e.cache in
      let fetched = fetch_missing now full_key response (record e { cache = c }) in
      elim cached [
        | some config ↦ (found (some config), record e { cache = c })
        | none ↦ if not e.healthy then (found none, record e { cache = c }) else fetched
      ]

  -- `AdminClearCache`
  unfoldable pub admin_clear_cache : EtcdSource → EtcdSource
  admin_clear_cache e = record e { cache = clear lru e.cache }

  -- The initial load in `Provision`, which may fail; the cache is new.
  unfoldable pub load_at_start : Option (List (Text × Text)) → RouteCache lru → EtcdSource
  load_at_start none c = record { cache = c; healthy = false; failing = true }
  load_at_start (some kvs) c = record {
    cache = initial_load kvs c;
    healthy = true;
    failing = false;
  }
