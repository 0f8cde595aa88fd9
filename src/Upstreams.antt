-- ===== src/Upstreams.antt =====
-- dynamic_upstreams.go: the upstreams that a data source's configuration names for a key, kept for a
-- refresh interval. A time is a number of nanoseconds.
pub mod Fresh
pub mod Addresses
use caddy_dynamic_routing.Base.{
  ℕ, ◌-◌, Bool, true, false, List, [], ◌∷◌, ◌++◌, Option, none, some, Text, bytes, is_nil,
  if◌then◌else◌, map, not, zero,
}
use caddy_dynamic_routing.Base.Texts.{dedupe}
use caddy_dynamic_routing.Base.Maps.{load}
use caddy_dynamic_routing.Base.Int.{ℤ, pos, negsuc, ltb_ℤ}
use caddy_dynamic_routing.Config.{since, RouteConfig, Rule}
use caddy_dynamic_routing.Source.{Answer, failed, found}
use caddy_dynamic_routing.Extractor.{Part, extract}

-- `getKey`, and the keys that stand for a missing one; the replacer is missing where the request
-- carries none.
unfoldable pub get_key : Option (List Part) → Option (Text → Option Text) → Text
get_key none repl = []
get_key (some parts) repl = extract repl parts

unfoldable pub choose_key : Text → Text → Text
choose_key key default_key =
    if not (is_nil key)
    then key
    else if not (is_nil default_key)
    then default_key
    else bytes "_default_"

-- The addresses of the rules' upstreams, in order
unfoldable pub rule_addresses : List Rule → List Text
rule_addresses [] = []
rule_addresses (r ∷ rs) = map (λ u. u.address) r.upstreams ++ rule_addresses rs

-- `configToUpstreams`, an upstream given by its address
unfoldable pub config_to_upstreams : RouteConfig → List Text
config_to_upstreams config =
    let simple = if is_nil config.upstream then [] else config.upstream ∷ [] in
    dedupe [] (simple ++ rule_addresses config.rules)

pub record Cached : Type 0 where
  pub upstreams : List Text
  pub last_update : ℕ

-- `Validate`
unfoldable pub is_valid_interval : ℤ → Bool
is_valid_interval d = not (ltb_ℤ d (pos 0))

-- `Provision` on the refresh interval: 5 seconds stand for 0.
unfoldable pub provisioned_interval : ℤ → ℤ
provisioned_interval (pos zero) = pos 5000000000
provisioned_interval d = d

-- The entry of a key that is younger than the refresh interval
unfoldable pub fresh : ℤ → ℕ → Option Cached → Option (List Text)
fresh interval now none = none
fresh interval now (some c) =
    if ltb_ℤ (since now c.last_update) interval then some c.upstreams else none

-- What `GetUpstreams` returns: the error as `none`, a nil slice as the empty list
abbrev pub Returned : Type 0
Returned = Option (List Text) × List (Text × Cached)

-- What the refresh makes of the source's answer, at the time `now`
unfoldable pub use_answer : ℕ → Text → Answer → List (Text × Cached) → Returned
use_answer now key failed cache = elim (load key cache) [
  | some c ↦ (some c.upstreams, cache)
  | none ↦ (none, cache)
]
use_answer now key (found none) cache = (some [], cache)
use_answer now key (found (some config)) cache =
    let upstreams = config_to_upstreams config in
    (some upstreams, (key, record { upstreams = upstreams; last_update = now }) ∷ cache)

-- The times of a call: of the first look at the cache, of the second, and of the update
pub record Times : Type 0 where
  pub checked : ℕ
  pub rechecked : ℕ
  pub updated : ℕ

-- `GetUpstreams` for a key, of which no other call refreshes the entry meanwhile; the answer is what
-- the source gives when it is asked.
unfoldable pub get_upstreams : ℤ → Text → Times → Answer → List (Text × Cached) → Returned
get_upstreams interval key times answer cache =
    elim (fresh interval times.checked (load key cache)) [
      | some us ↦ (some us, cache)
      | none ↦ elim (fresh interval times.rechecked (load key cache)) [
        | some us ↦ (some us, cache)
        | none ↦ use_answer times.updated key answer cache
      ]
    ]
