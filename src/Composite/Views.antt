-- ===== src/Composite/Views.antt =====
-- datasource/composite/composite.go: `AdminClearCache` and `HealthStatus`.
use caddy_dynamic_routing.Base.{ℕ, ◌≡◌, refl, Bool, List, [], map, Text, Bool-cases, inl, inr}
use caddy_dynamic_routing.Base.Maps.{load}
use caddy_dynamic_routing.Source.{Answer}
use caddy_dynamic_routing.Composite.{Reply, Settings, Results, get, get_anew}

-- `HealthStatus`: the map from indices, as the list of its values
unfoldable pub health_status : List Reply → List Bool
health_status rs = map (λ r. r.healthy) rs

-- `AdminClearCache`
unfoldable pub clear_results : Results → Results
clear_results s = record s { entries = [] }

-- After the cache is cleared, every lookup answers with what the sources say, and records their error.
pub get-clear_results :
    (p : Settings) (now done : ℕ) (key : Text) (answer : Answer) (s : Results)
    → get p now done key answer (clear_results s) ≡ get_anew p done key answer (clear_results s)
unfolding get clear_results load
get-clear_results p now done key answer s = elim (Bool-cases p.cache_results) [
  | inl e ↦ rw (get, e) refl
  | inr e ↦ rw (get, e) refl
]
