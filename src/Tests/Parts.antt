-- ===== src/Tests/Parts.antt =====
-- Tests of extractor/extractor.go, dynamic_upstreams.go, datasource/admin_registry.go and events.go.
use caddy_dynamic_routing.Base.{
  not, is_nil, ◌&&◌, ℕ, ◌≡◌, ◌↔◌, refl, [], ◌∷◌, Option, none, some, Text, bytes, str_eq, In,
  if◌then◌else◌, ltb, has_prefix, arith,
}
use caddy_dynamic_routing.Base.Int.{pos}
use caddy_dynamic_routing.Base.Maps.{load}
use caddy_dynamic_routing.Base.Texts.{IsDistinct}
use caddy_dynamic_routing.Base.Replace.{replace_all}
use caddy_dynamic_routing.Source.{Answer, failed, found}
use caddy_dynamic_routing.Extractor.{parse_expression, expand_with, shortcuts}
use caddy_dynamic_routing.Extractor.Parts.{written, parse_expression-written}
use caddy_dynamic_routing.Upstreams.{Times, config_to_upstreams, get_upstreams}
use caddy_dynamic_routing.Upstreams.Addresses.{IsNamed, config_to_upstreams-IsDistinct}
use caddy_dynamic_routing.Upstreams.Fresh.{IsReturned, IsBacked, get_upstreams-IsReturned}
use caddy_dynamic_routing.Admin.{new_registry, register, unregister}
use caddy_dynamic_routing.Admin.Unique.{IsWellNumbered, register-IsWellNumbered}
use caddy_dynamic_routing.Events.{subscribe, publish}
use caddy_dynamic_routing.Tests.{routed}

abbrev expression : Text
expression = bytes "{header.X}-{path}{"

expand_test :
    expand_with shortcuts expression ≡ bytes "{http.request.header.X}-{http.request.uri.path}{"
unfolding expand_with shortcuts replace_all has_prefix
expand_test = refl

parse_expression-written_example : written (parse_expression expression) ≡ expression
parse_expression-written_example = parse_expression-written expression

abbrev get : Text → Option Text
get key = if str_eq key (bytes "header.X") then some (bytes "v") else none

config_to_upstreams-IsDistinct_example :
    IsDistinct (config_to_upstreams routed)
    × ((x : Text) → In x (config_to_upstreams routed) ↔ IsNamed x routed)
config_to_upstreams-IsDistinct_example = config_to_upstreams-IsDistinct routed

-- A source that fails from the time 10 on
abbrev source : ℕ → Text → Answer
source time key = if ltb time 10 then found (some routed) else failed

abbrev times : Times
times = record { checked = 12; rechecked = 12; updated = 13 }

get_upstreams-IsReturned_example :
    IsReturned source
      (pos 5)
      (bytes "a")
      times
      12
      []
      (get_upstreams (pos 5) (bytes "a") times (source 12 (bytes "a")) []).0
    × IsBacked source (get_upstreams (pos 5) (bytes "a") times (source 12 (bytes "a")) []).1
unfolding load
get_upstreams-IsReturned_example =
    get_upstreams-IsReturned source (pos 5) (bytes "a") times 12 [] (omega arith)
      (λ k c e. absurd (cc (e)))

new_registry-IsWellNumbered : IsWellNumbered new_registry
unfolding load
new_registry-IsWellNumbered name entry e = absurd (cc (e))

register-IsWellNumbered_example :
    (load (register (bytes "etcd") new_registry).0 new_registry.sources ≡ none)
    × ((name : Text)
        → load name (register (bytes "etcd") new_registry).1.sources ≡ (
            if str_eq (register (bytes "etcd") new_registry).0 name
            then some (record {
              name = (register (bytes "etcd") new_registry).0;
              type_name = bytes "etcd";
            })
            else load name new_registry.sources))
    × IsWellNumbered (register (bytes "etcd") new_registry).1
    × ((name k : Text)
        → load k (unregister name new_registry).sources
          ≡ (if not (is_nil name) && str_eq name k then none else load k new_registry.sources))
    × ((name : Text) → IsWellNumbered (unregister name new_registry))
unfolding load
register-IsWellNumbered_example =
    register-IsWellNumbered (bytes "etcd") new_registry (omega arith) new_registry-IsWellNumbered

-- A handler of all events comes last, though it was subscribed first.
publish_test :
    publish (bytes "e") (subscribe (bytes "e") 2 (subscribe (bytes "*") 1 [])) ≡ 2 ∷ 1 ∷ []
unfolding publish subscribe load str_eq
publish_test = refl
