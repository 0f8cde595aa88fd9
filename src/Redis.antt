-- ===== src/Redis.antt =====
-- datasource/redis/redis.go: routes kept in Redis, loaded by a scan, and fetched again when a message
-- names them. The client is a parameter: the pages of the scan and what a key's value comes to. Of an
-- error, only that there is one is kept. The number of the database is not negative.
pub mod Messages
use caddy_dynamic_routing.Base.{
  ℕ, Bool, true, false, not, List, [], ◌∷◌, ◌++◌, Option, none, some, Text, bytes, length, str_eq,
  has_prefix, ◌||◌, if◌then◌else◌,
}
use caddy_dynamic_routing.Base.Replace.{drop}
use caddy_dynamic_routing.Base.Sort.{SortSlice}
use caddy_dynamic_routing.Config.{RouteConfig, Rule}
use caddy_dynamic_routing.Config.Parse.{Decoders, Result, ok, err, parse}
use caddy_dynamic_routing.Source.{Answer, failed, found}
use caddy_dynamic_routing.Lru.{Lru}
use caddy_dynamic_routing.RouteCache.{
  RouteCache, get, is_negative_cached, set_negative, set_route, delete_route, clear,
}
use caddy_dynamic_routing.Selector.Ring.{decimal}

-- What the client's `Get` comes to: `redis.Nil`, another error, or the value
pub data Value : Type 0 where
  nil_value : Value
  broken_value : Value
  value : Text → Value

-- A page of the scan: an error of the scan, of the values' fetch, or the keys that have a value
pub data Page : Type 0 where
  scan_failed : Page
  values_failed : Page
  page : List (Text × Text) → Page

-- `redis.Message`
pub record Message : Type 0 where
  pub channel : Text
  pub payload : Text

-- What `handleMessage` does about a message
pub data Action : Type 0 where
  refresh_action : Text → Action
  delete_action : Text → Action
  no_action : Action

-- `fmt.Sprintf("__keyspace@%d__:", db)`
unfoldable pub keyspace_prefix : ℕ → Text
keyspace_prefix db = bytes "__keyspace@" ++ (decimal db ++ bytes "__:")

-- The database in cluster mode, and else
abbrev pub database : Bool → ℕ → ℕ
database cluster db = if cluster then 0 else db

-- A keyspace notification, whose channel begins with the prefix, as the subscription asks
unfoldable pub keyspace_action : ℕ → Message → Action
keyspace_action db msg =
    let key = drop (length (keyspace_prefix db)) msg.channel in
    if str_eq msg.payload (bytes "set") || str_eq msg.payload (bytes "hset")
    then refresh_action key
    else if str_eq msg.payload (bytes "del") || str_eq msg.payload (bytes "expired")
    then delete_action key
    else no_action

-- A message of the custom channel
unfoldable pub channel_action : Message → Action
channel_action msg =
    if has_prefix msg.payload (bytes "update:")
    then refresh_action (drop 7 msg.payload)
    else if has_prefix msg.payload (bytes "delete:")
    then delete_action (drop 7 msg.payload)
    else no_action

module _ (lru : Lru RouteConfig) (decoders : Decoders) (sort : SortSlice Rule) where
  -- `failing` is that the last error is not empty.
  pub record RedisSource : Type 0 where
    pub cache : RouteCache lru
    pub healthy : Bool
    pub failing : Bool

  -- A value that was fetched for a key
  unfoldable pub store_value : Text → Text → RouteCache lru → RouteCache lru
  store_value key text c = elim (parse decoders sort text) [
    | err _ ↦ c
    | ok none ↦ c
    | ok (some config) ↦ set_route lru key config c
  ]

  -- `refreshKey`
  unfoldable pub refresh_key : Text → Value → RouteCache lru → RouteCache lru
  refresh_key key nil_value c = delete_route lru key c
  refresh_key key broken_value c = c
  refresh_key key (value text) c = store_value key text c

  -- `handleMessage`, of a server that answers for each key
  unfoldable pub act : (Text → Value) → Action → RouteCache lru → RouteCache lru
  act server (refresh_action key) c = refresh_key key (server key) c
  act server (delete_action key) c = delete_route lru key c
  act server no_action c = c

  unfoldable pub handle_message :
      Bool → Bool → ℕ → (Text → Value) → Message → RedisSource → RedisSource
  handle_message keyspace_notify cluster db server msg r =
      let action =
        if keyspace_notify then keyspace_action (database cluster db) msg else channel_action msg in
      record r { cache = act server action r.cache }

  -- The values of a page
  unfoldable pub store_values : List (Text × Text) → RouteCache lru → RouteCache lru
  store_values [] c = c
  store_values ((key, text) ∷ vals) c = store_values vals (store_value key text c)

  -- The scan of `initialLoad`, behind the ping: whether it succeeds
  unfoldable pub load_pages : List Page → RouteCache lru → Bool × RouteCache lru
  load_pages [] c = (true, c)
  load_pages (scan_failed ∷ ps) c = (false, c)
  load_pages (values_failed ∷ ps) c = load_pages ps c
  load_pages (page vals ∷ ps) c = load_pages ps (store_values vals c)

  -- What follows the client's `Get`, in the function behind singleflight
  unfoldable pub use_value : ℕ → Text → Value → RedisSource → Answer × RedisSource
  use_value now key nil_value r =
      (found none, record r { cache = set_negative lru now key r.cache; failing = false })
  use_value now key broken_value r = (failed, record r { failing = true })
  use_value now key (value text) r = elim (parse decoders sort text) [
    | err _ ↦ (failed, record r { failing = true })
    | ok none ↦ (found none, record r { failing = false })
    | ok (some config) ↦ (
      found (some config),
      record r { cache = set_route lru key config r.cache; failing = false },
    )
  ]

  -- The function behind singleflight
  unfoldable pub fetch_missing : ℕ → Text → Value → RedisSource → Answer × RedisSource
  fetch_missing now key val r =
      let (again, c) = get lru now key r.cache in
      let missing = use_value now key val (record r { cache = c }) in
      elim again [
        | some config ↦ (found (some config), record r { cache = c; failing = false })
        | none ↦ missing
      ]

  -- `Get`, at the time `now`, for the prefix
  unfoldable pub get_route : Text → ℕ → Text → Value → RedisSource → Answer × RedisSource
  get_route prefix now key val r =
      let full_key = prefix ++ key in
      let (cached, c) = get lru now full_key r.cache in
      let (negative, d) = is_negative_cached lru now full_key c in
      let fetched = fetch_missing now full_key val (record r { cache = d }) in
      elim cached [
        | some config ↦ (found (some config), record r { cache = c })
        | none ↦
            if negative
            then (found none, record r { cache = d })
            else if not r.healthy
            then (found none, record r { cache = d })
            else fetched
      ]

  -- `AdminClearCache`
  unfoldable pub admin_clear_cache : RedisSource → RedisSource
  admin_clear_cache r = record r { cache = clear lru r.cache }
