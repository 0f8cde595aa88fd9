-- ===== src/Composite/Cached.antt =====
-- `Get` with the combined results' cache.
use caddy_dynamic_routing.Base.{
  ℕ, ◌+◌, ◌≡◌, refl, true, none, some, inl, inr, Text, Bool-cases, str_eq_refl, if◌then◌else◌, ltb,
}
use caddy_dynamic_routing.Base.Maps.{load}
use caddy_dynamic_routing.Config.{RouteConfig}
use caddy_dynamic_routing.Source.{Answer, found}
use caddy_dynamic_routing.Composite.{Settings, Results, keep, get_anew, get}

get-hit :
    (p : Settings) (now done : ℕ) (key : Text) (answer : Answer) (s : Results) (c : RouteConfig)
    (until : ℕ)
    → p.cache_results ≡ true
    → load key s.entries ≡ some (c, until)
    → (get p now done key answer s).0 ≡ (if ltb now until then found (some c) else answer)
unfolding get get_anew
get-hit p now done key answer s c until on e = elim (Bool-cases (ltb now until)) [
  | inl f ↦ rw (get, on, e, f) refl
  | inr f ↦ rw (get, on, e, f) refl
]

load-keep :
    (p : Settings) (done : ℕ) (key : Text) (c : RouteConfig) (s : Results)
    → p.cache_results ≡ true
    → load key (keep p done key (found (some c)) s).entries ≡ some (c, done + p.cache_ttl)
unfolding keep load
load-keep p done key c s on = rw (keep, on, load, str_eq_refl key) refl

load-get :
    (p : Settings) (now done : ℕ) (key : Text) (c : RouteConfig) (s : Results)
    → p.cache_results ≡ true
    → load key s.entries ≡ none
    → load key (get p now done key (found (some c)) s).1.entries ≡ some (c, done + p.cache_ttl)
unfolding get get_anew
load-get p now done key c s on e = rw (get, on, e) (load-keep p done key c s on)

-- With the cache on and no entry for the key, a lookup that finds a configuration is remembered for
-- the cache's TTL, counted from its end: till then, a lookup answers with that configuration, whatever
-- the sources say by then, and from then on with what they say.
pub get-get :
    (p : Settings) (now done later end : ℕ) (key : Text) (c : RouteConfig) (answer : Answer)
    (s : Results)
    → p.cache_results ≡ true
    → load key s.entries ≡ none
    → (get p later end key answer (get p now done key (found (some c)) s).1).0
      ≡ (if ltb later (done + p.cache_ttl) then found (some c) else answer)
get-get p now done later end key c answer s on e =
    get-hit p later end key answer (get p now done key (found (some c)) s).1 c (done + p.cache_ttl)
      on (load-get p now done key c s on e)
