-- ===== src/Config.antt =====
-- datasource/types.go: the route configuration, its defaults and its copies.
-- A time is the number of nanoseconds since Go's zero time, a duration is an `int`. A map is an
-- association list; a nil slice or map is an empty one.
pub mod Parse
pub mod Normal
use caddy_dynamic_routing.Base.{
  ℕ, ◌-◌, Bool, true, false, List, [], ◌∷◌, map, Option, none, some, ◌||◌, Text, if◌then◌else◌, ltb,
  leb, ◌==◌,
}
use caddy_dynamic_routing.Base.Int.{ℤ, pos, negsuc, pos_part, ltb_ℤ, int_limit}
use caddy_dynamic_routing.Base.Sort.{SortSlice}

pub record WeightedUpstream : Type 0 where
  pub address : Text
  pub weight : ℤ

pub record Rule : Type 0 where
  pub match : List (Text × Text)
  pub upstreams : List WeightedUpstream
  pub priority : ℤ
  pub algorithm : Text
  pub algorithm_key : Text

pub record RouteConfig : Type 0 where
  pub version : ℤ
  pub created_at : ℕ
  pub updated_at : ℕ
  pub upstream : Text
  pub rules : List Rule
  pub fallback : Text
  pub algorithm : Text
  pub algorithm_key : Text
  pub metadata : List (Text × Text)
  pub ttl : ℤ
  pub enabled : Option Bool
  pub description : Text

-- The zero value.
abbrev pub zero_config : RouteConfig
zero_config = record {
  version = pos 0;
  created_at = 0;
  updated_at = 0;
  upstream = [];
  rules = [];
  fallback = [];
  algorithm = [];
  algorithm_key = [];
  metadata = [];
  ttl = pos 0;
  enabled = none;
  description = [];
}

-- `WeightedUpstream.GetEffectiveWeight`: the weight, or 1 where it is not positive.
unfoldable pub effective_weight : ℤ → ℕ
effective_weight (pos n) = if n == 0 then 1 else n
effective_weight (negsuc n) = 1

-- `RouteConfig.IsEnabled`
unfoldable pub is_enabled : RouteConfig → Bool
is_enabled c = elim c.enabled [ none ↦ true | some b ↦ b ]

-- `time.Since(t)`: the difference, held within the range of a duration.
unfoldable pub since : ℕ → ℕ → ℤ
since now t =
    if leb t now
    then (if ltb (now - t) int_limit then pos (now - t) else pos (int_limit - 1))
    else (if ltb (t - now - 1) int_limit then negsuc (t - now - 1) else negsuc (int_limit - 1))

abbrev is_zero : ℤ → Bool
is_zero (pos n) = n == 0
is_zero (negsuc n) = false

-- `RouteConfig.IsExpired`, at the time `now`
unfoldable pub is_expired : ℕ → RouteConfig → Bool
unfolding since
is_expired now c =
    if is_zero c.ttl || c.updated_at == 0 then false else ltb_ℤ c.ttl (since now c.updated_at)

-- The upstreams' loop of `normalizeConfig`
abbrev pub default_weight : WeightedUpstream → WeightedUpstream
default_weight u = record u { weight = if leb (pos_part u.weight) 0 then pos 1 else u.weight }

abbrev pub default_weights : Rule → Rule
default_weights r = record r { upstreams = map default_weight r.upstreams }

-- The comparison that `normalizeConfig` sorts the rules by: highest priority first
unfoldable pub higher : Rule → Rule → Bool
higher a b = ltb_ℤ b.priority a.priority

-- `normalizeConfig`
unfoldable pub normalize_config : SortSlice Rule → RouteConfig → RouteConfig
normalize_config s c = record c { rules = map default_weights (s.sort higher c.rules) }

-- `RouteConfig.Clone`, its loops over the rules and the upstreams included
clone_upstream : WeightedUpstream → WeightedUpstream
clone_upstream u = record { address = u.address; weight = u.weight }

clone_pair : Text × Text → Text × Text
clone_pair (k, v) = (k, v)

clone_enabled : Option Bool → Option Bool
clone_enabled none = none
clone_enabled (some b) = some b

clone_rule : Rule → Rule
unfolding clone_upstream clone_pair
clone_rule r = record {
  match = map clone_pair r.match;
  upstreams = map clone_upstream r.upstreams;
  priority = r.priority;
  algorithm = r.algorithm;
  algorithm_key = r.algorithm_key;
}

unfoldable pub clone : RouteConfig → RouteConfig
unfolding clone_rule clone_enabled
clone c = record {
  version = c.version;
  created_at = c.created_at;
  updated_at = c.updated_at;
  upstream = c.upstream;
  rules = map clone_rule c.rules;
  fallback = c.fallback;
  algorithm = c.algorithm;
  algorithm_key = c.algorithm_key;
  metadata = map clone_pair c.metadata;
  ttl = c.ttl;
  enabled = clone_enabled c.enabled;
  description = c.description;
}

-- `RouteConfig.WithVersion`, at the time `now`
unfoldable pub with_version : ℕ → ℤ → RouteConfig → RouteConfig
unfolding clone
with_version now version c = record (clone c) { version = version; updated_at = now }

-- `NewRouteConfig`, at the time `now`
unfoldable pub new_route_config : ℕ → RouteConfig
new_route_config now = record zero_config { version = pos 1; created_at = now; updated_at = now }
