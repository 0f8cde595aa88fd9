-- ===== src/Tests.antt =====
-- Tests of the definitions, and the theorems at concrete inputs.
mod Picks
mod Routes
mod Flow
mod Gates
mod Sources
mod Parts
use caddy_dynamic_routing.Base.{List, [], ◌∷◌, Option, none, some, Text, bytes, true, false}
use caddy_dynamic_routing.Base.Int.{pos}
use caddy_dynamic_routing.Config.{WeightedUpstream, Rule, RouteConfig, zero_config}
use caddy_dynamic_routing.Request.{Request}

abbrev pub east : WeightedUpstream
east = record { address = bytes "e:1"; weight = pos 2 }

abbrev pub west : WeightedUpstream
west = record { address = bytes "w:1"; weight = pos 1 }

abbrev pub ask : Request
ask = record {
  method = bytes "GET";
  host = bytes "h";
  url_path = some (bytes "/p");
  header_get = λ k. [];
  remote_addr = bytes "1.2.3.4:5";
}

abbrev pub gets : Rule
gets = record {
  match = (bytes "{http.request.method}", bytes "GET") ∷ [];
  upstreams = east ∷ west ∷ [];
  priority = pos 5;
  algorithm = bytes "first";
  algorithm_key = [];
}

abbrev pub rest : Rule
rest = record {
  match = [];
  upstreams = west ∷ [];
  priority = pos 1;
  algorithm = [];
  algorithm_key = [];
}

abbrev pub routed : RouteConfig
routed = record zero_config { rules = gets ∷ rest ∷ [] }
