-- ===== src/Plugin.antt =====
-- plugin.go: `DynamicSelection`, the selection policy.
-- An upstream of the pool is a value of the type `U`, whose dial address `dial` reads. The data
-- source, the key extractors, the fallback policy and the availability test are interfaces that the
-- policy is configured with. What the metrics and the route statistics record is a list of events.
pub mod Index
pub mod Attempt
pub mod Mode
pub mod Tally
pub mod Names
use caddy_dynamic_routing.Base.{
  ℕ, ◌==◌, Bool, true, false, List, [], ◌∷◌, ◌++◌, Option, none, some, not, ◌||◌, Text, str_eq,
  is_nil, if◌then◌else◌, length,
}
use caddy_dynamic_routing.Base.Sort.{SortSlice}
use caddy_dynamic_routing.Source.{Answer, failed, found}
use caddy_dynamic_routing.Config.{WeightedUpstream, RouteConfig, is_enabled, is_expired}
use caddy_dynamic_routing.Request.{Request}
use caddy_dynamic_routing.Lru.{Lru}
use caddy_dynamic_routing.Selector.{Pick, chosen, nothing, panic}
use caddy_dynamic_routing.Selector.Ring.{HashNode}
use caddy_dynamic_routing.Matcher.{MatchResult, Selectors, match_result, select_upstream}

pub data MissReason : Type 0 where
  no_replacer no_data_source no_key_extractor no_key get_error unhealthy no_config : MissReason
  disabled expired no_match not_in_pool no_available_upstream : MissReason

-- The data source, whose state `S` a lookup may change
pub record Source (S : Type 0) : Type 0 where
  pub healthy : S → Bool
  pub get : Text → S → Answer × S

module _ {U : Type 0} (dial : U → Text) where
  -- `poolIndex` and `lastPoolSize`: a map is its insertions, latest first.
  pub record PoolIndex : Type 0 where
    pub entries : Option (List (Text × U))
    pub last_size : ℕ

  unfoldable pub entry? : Text → List (Text × U) → Option U
  entry? a [] = none
  entry? a ((k, u) ∷ es) = if str_eq k a then some u else entry? a es

  -- The loop that builds the index
  unfoldable pub insert_all : List (Text × U) → List U → List (Text × U)
  insert_all es [] = es
  insert_all es (u ∷ us) = insert_all ((dial u, u) ∷ es) us

  unfoldable pub rebuilt : List U → PoolIndex
  rebuilt pool = record { entries = some (insert_all [] pool); last_size = length pool }

  unfoldable pub current_index : List U → PoolIndex → PoolIndex
  current_index pool ix = elim ix.entries [
    | none ↦ rebuilt pool
    | some es ↦ if length pool == ix.last_size then ix else rebuilt pool
  ]

  unfoldable pub find_entry : Text → PoolIndex → Option U
  find_entry a ix = elim ix.entries [ none ↦ none | some es ↦ entry? a es ]

  -- `findUpstreamInPool`
  unfoldable pub find_upstream : List U → Text → PoolIndex → Option U × PoolIndex
  find_upstream pool a ix = let now = current_index pool ix in (find_entry a now, now)

  -- `isUpstreamAvailable`, where it is set
  unfoldable pub is_up : Option (U → Bool) → U → Bool
  is_up none u = true
  is_up (some test) u = test u

  -- The loop that sorts the candidates into `inPool` and `available`
  unfoldable pub sift :
      Option (U → Bool)
      → List U
      → List WeightedUpstream
      → PoolIndex
      → (List WeightedUpstream × List WeightedUpstream) × PoolIndex
  sift up pool [] ix = (([], []), ix)
  sift up pool (cand ∷ cands) ix =
      let (hit, after) = find_upstream pool cand.address ix in
      let ((in_pool, available), last) = sift up pool cands after in
      elim hit [
        | none ↦ ((in_pool, available), last)
        | some u ↦ ((cand ∷ in_pool, if is_up up u then cand ∷ available else available), last)
      ]

-- What an attempt comes to
pub data Outcome (U : Type 0) : Type 0 where
  hit : Text → Text → U → Outcome U
  missed : Text → MissReason → Outcome U
  crashed : Outcome U

module _ {U S : Type 0} (dial : U → Text) (source : Source S) (up : Option (U → Bool))
    (regexes : Lru (Text → Bool)) (compile : Text → Option (Text → Bool)) (cached : Lru ℕ)
    (rand : ℕ → ℕ) (sorter : SortSlice HashNode) (now : ℕ) where
  -- What the attempts change
  pub record State : Type 0 where
    pub index : PoolIndex dial
    pub regex_cache : regexes.Cache
    pub selectors : Selectors cached
    pub source_state : S

  module _ (pool : List U) (r : Request) (repl : Text → Option Text) where
    unfoldable pub use_pick : Text → Pick → State → Outcome U × State
    use_pick key nothing s = (missed key no_match, s)
    use_pick key panic s = (crashed, s)
    use_pick key (chosen w) s =
        let (hit?, ix) = find_upstream dial pool w.address s.index in
        (
          elim hit? [ none ↦ missed key not_in_pool | some u ↦ hit key w.address u ],
          record s { index = ix },
        )

    unfoldable pub use_result : Text → MatchResult → State → Outcome U × State
    use_result key res s =
        let ((in_pool, available), ix) = sift dial up pool res.upstreams s.index in
        let (pick, sels) =
          select_upstream cached rand sorter r available res.algorithm res.algorithm_key
            s.selectors in
        if length in_pool == 0
        then (missed key not_in_pool, record s { index = ix })
        else if length available == 0
        then (missed key no_available_upstream, record s { index = ix })
        else use_pick key pick (record s { index = ix; selectors = sels })

    unfoldable pub use_found : Text → Option MatchResult → State → Outcome U × State
    use_found key none s = (missed key no_match, s)
    use_found key (some res) s = use_result key res s

    unfoldable pub use_config : Text → RouteConfig → State → Outcome U × State
    use_config key config s =
        let (res, c) = match_result regexes compile (some r) (some repl) config s.regex_cache in
        if not (is_enabled config)
        then (missed key disabled, s)
        else if is_expired now config
        then (missed key expired, s)
        else use_found key res (record s { regex_cache = c })

    unfoldable pub use_answer : Text → Bool → Answer → State → Outcome U × State
    use_answer key healthy failed s = (missed key get_error, s)
    use_answer key healthy (found none) s =
        (missed key (if healthy then no_config else unhealthy), s)
    use_answer key healthy (found (some config)) s = use_config key config s

    -- `attempt`, the closure of `Select`
    unfoldable pub attempt :
        Option (Request → (Text → Option Text) → Text) → State → Outcome U × State
    attempt none s = (missed [] no_key_extractor, s)
    attempt (some extract) s =
        let key = extract r repl in
        let (answer, src) = source.get key s.source_state in
        if is_nil key
        then (missed [] no_key, s)
        else use_answer key (source.healthy s.source_state) answer (record s { source_state = src })

-- What the metrics and the route statistics record
pub data Event : Type 0 where
  route_hit : Text → Text → Event
  route_miss : Text → MissReason → Event
  instance_fallback : MissReason → Event

-- What `Select` does: return nil, return an upstream, hand over to the fallback policy, or panic
pub data Choice (U : Type 0) : Type 0 where
  empty_pool : Choice U
  upstream : U → Choice U
  fall_back : Choice U
  broken : Choice U

module _ {U : Type 0} where
  -- The single-key mode
  unfoldable pub report : Outcome U → List Event × Choice U
  report (hit key addr u) = (route_hit key addr ∷ [], upstream u)
  report (missed key reason) = (route_miss key reason ∷ [], fall_back)
  report crashed = ([], broken)

  -- The version attempt, after the instance attempt missed
  unfoldable pub report_version : Text → MissReason → Outcome U → List Event × Choice U
  report_version key reason (hit k addr u) =
      (instance_fallback reason ∷ route_hit k addr ∷ [], upstream u)
  report_version key reason (missed k why) =
      ((if is_nil k then route_miss key reason else route_miss k why) ∷ [], fall_back)
  report_version key reason crashed = ([], broken)

  unfoldable pub miss : MissReason → List Event × Choice U
  miss reason = (route_miss [] reason ∷ [], fall_back)

abbrev pub Extractor : Type 0
Extractor = Request → (Text → Option Text) → Text

-- The policy's fields: the extractors may be nil, and so may the data source.
pub record Policy : Type 0 where
  pub key : Option Extractor
  pub instance_key : Option Extractor
  pub version_key : Option Extractor
  pub has_source : Bool

unfoldable pub is_set : Option Extractor → Bool
is_set none = false
is_set (some e) = true

module _ {U S : Type 0} (dial : U → Text) (source : Source S) (up : Option (U → Bool))
    (regexes : Lru (Text → Bool)) (compile : Text → Option (Text → Bool)) (cached : Lru ℕ)
    (rand : ℕ → ℕ) (sorter : SortSlice HashNode) (now : ℕ) where
  abbrev pub Machine : Type 0
  Machine = State dial source up regexes compile cached rand sorter now

  abbrev pub try_key :
      List U → Request → (Text → Option Text) → Option Extractor → Machine → Outcome U × Machine
  try_key = attempt dial source up regexes compile cached rand sorter now

  module _ (policy : Policy) (r : Request) where
    -- The instance attempt's outcome, and the version attempt where it missed
    unfoldable pub try_version :
        List U → (Text → Option Text) → Outcome U × Machine → (List Event × Choice U) × Machine
    try_version pool repl (hit key addr u, s) = (report (hit key addr u), s)
    try_version pool repl (crashed, s) = (report crashed, s)
    try_version pool repl (missed key reason, s) =
        let (out, after) = try_key pool r repl policy.version_key s in
        (report_version key reason out, after)

    -- The two modes
    unfoldable pub route :
        List U → (Text → Option Text) → Machine → (List Event × Choice U) × Machine
    route pool repl s =
        let both = try_version pool repl (try_key pool r repl policy.instance_key s) in
        let (out, after) = try_key pool r repl policy.key s in
        if is_set policy.instance_key || is_set policy.version_key
        then both
        else if is_set policy.key
        then (report out, after)
        else (miss no_key_extractor, s)

    -- `Select`; the request's context holds a replacer, or none that is usable.
    unfoldable pub choose :
        List U → Option (Text → Option Text) → Machine → (List Event × Choice U) × Machine
    choose [] repl s = (([], empty_pool), s)
    choose (u ∷ us) none s = (miss no_replacer, s)
    choose (u ∷ us) (some repl) s =
        if policy.has_source then route (u ∷ us) repl s else (miss no_data_source, s)
