-- ===== src/Admin.antt =====
-- datasource/admin_registry.go and admin_helpers.go: the registry of data sources, and the summary of
-- a configuration, for the admin API.
pub mod Unique
pub mod Summary
use caddy_dynamic_routing.Base.{
  ℕ, ◌+◌, ◌%◌, Bool, true, false, List, [], ◌∷◌, ◌++◌, map, Option, none, some, Text, bytes, is_nil,
  length, if◌then◌else◌,
}
use caddy_dynamic_routing.Base.Maps.{load, delete}
use caddy_dynamic_routing.Base.Texts.{has}
use caddy_dynamic_routing.Config.{RouteConfig, Rule, WeightedUpstream}
use caddy_dynamic_routing.Plugin.Names.{after_last?}
use caddy_dynamic_routing.Selector.Ring.{decimal}

-- `AdminEntry`, without the data source itself
pub record AdminEntry : Type 0 where
  pub name : Text
  pub type_name : Text

pub record Registry : Type 0 where
  pub sources : List (Text × AdminEntry)
  pub counters : List (Text × ℕ)

abbrev pub new_registry : Registry
new_registry = record { sources = []; counters = [] }

-- `moduleTypeFromID`
unfoldable pub module_type_from_id : Text → Text
module_type_from_id id = elim (after_last? b'.' id) [ some t ↦ t | none ↦ id ]

-- The type's name, for what `AdminType` returns and the module's ID
unfoldable pub type_name_of : Text → Text → Text
type_name_of admin_type id =
    if is_nil admin_type
    then (if is_nil (module_type_from_id id) then bytes "unknown" else module_type_from_id id)
    else admin_type

abbrev pub count : Option ℕ → ℕ
count none = 0
count (some n) = n

-- `fmt.Sprintf("%s#%d", typeName, n)`
unfoldable pub name_of : Text → ℕ → Text
name_of type_name n = type_name ++ b'#' ∷ decimal n

-- `RegisterAdminSource` for a type's name, with a counter of 64 bits
unfoldable pub register : Text → Registry → Text × Registry
register type_name r =
    let n = (count (load type_name r.counters) + 1) % 18446744073709551616 in
    let name = name_of type_name n in
    (
      name,
      record {
        sources = (name, record { name = name; type_name = type_name }) ∷ r.sources;
        counters = (type_name, n) ∷ r.counters;
      },
    )

-- `UnregisterAdminSource`
unfoldable pub unregister : Text → Registry → Registry
unregister name r = if is_nil name then r else record r { sources = delete name r.sources }

-- `AdminRouteInfo`, before its upstreams are sorted
pub record RouteInfo : Type 0 where
  pub key : Text
  pub rule_count : ℕ
  pub upstream : Text
  pub upstreams : List Text

-- The loop over a rule's upstreams: what has been seen, and what is appended
unfoldable pub add_upstreams : List Text → List WeightedUpstream → List Text → List Text × List Text
add_upstreams seen [] out = (seen, out)
add_upstreams seen (u ∷ us) out =
    let skipped = add_upstreams seen us out in
    let added = add_upstreams (u.address ∷ seen) us (out ++ (u.address ∷ [])) in
    if is_nil u.address then skipped else if has u.address seen then skipped else added

unfoldable pub add_rules : List Text → List Rule → List Text → List Text
add_rules seen [] out = out
add_rules seen (r ∷ rs) out = let (s, o) = add_upstreams seen r.upstreams out in add_rules s rs o

-- `SummarizeRouteConfig`; sort.Strings is a parameter.
unfoldable pub summarize_route_config :
    (List Text → List Text) → Text → Option RouteConfig → RouteInfo
summarize_route_config sort key none = record {
  key = key;
  rule_count = 0;
  upstream = [];
  upstreams = [];
}
summarize_route_config sort key (some config) =
    let first = if is_nil config.upstream then [] else config.upstream ∷ [] in
    record {
      key = key;
      rule_count = length config.rules;
      upstream = config.upstream;
      upstreams = sort (add_rules first config.rules first);
    }
