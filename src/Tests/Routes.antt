-- ===== src/Tests/Routes.antt =====
-- Tests of datasource/types.go and matcher/matcher.go.
use caddy_dynamic_routing.Base.{
  ◌≡◌, ◌⊎◌, refl, Bool, List, [], ◌∷◌, map, Option, none, some, Text, bytes, is_nil, trim_space,
  trim, trim_left, trim_right, if◌then◌else◌,
}
use caddy_dynamic_routing.Base.{ℕ, ap, arith, inl, inr, get_elem?, Bool-cases, str_eq, str_eq→eq}
use mathlib.Core.List.{Permᴰ}
use caddy_dynamic_routing.Base.Sort.{by_insertion}
use caddy_dynamic_routing.Config.{Rule, default_weights, normalize_config}
use caddy_dynamic_routing.Config.Normal.{IsNormal, normalize_config-IsNormal}
use caddy_dynamic_routing.Config.Parse.{
  Decoders, parse_with_format, format_of, resolve_format, finish, decode, plain,
}
use caddy_dynamic_routing.Config.Parse.Outcome.{IsUsable, parse_with_format_lem}
use caddy_dynamic_routing.Lru.Recent.{recent, lookup, first_entries, drop_key}
use caddy_dynamic_routing.Selector.Draw.{IsChoice}
use caddy_dynamic_routing.Matcher.{
  MatchResult, match_conditions, match_result, Selectors, select_upstream, cache_key,
}
use caddy_dynamic_routing.Matcher.Conditions.{
  IsCompiled, all_fit, match_conditions_lem, match_conditions-perm,
}
use caddy_dynamic_routing.Matcher.Rules.{IsRouted, match_result-IsRouted}
use caddy_dynamic_routing.Matcher.Kept.{IsKeyed}
use caddy_dynamic_routing.Matcher.Selection.{IsSound, select_upstream-IsChoice}
use caddy_dynamic_routing.Tests.Picks.{Asked, lists_apart, ringed, ringed-IsPrepared}
use caddy_dynamic_routing.Tests.{east, west, ask, gets, rest, routed}

abbrev decoders : Decoders
decoders = record {
  json_string = λ t. none;
  json_config = λ t. some routed;
  yaml_config = λ t. none;
}

normalize_config_example :
    IsNormal (normalize_config by_insertion routed)
    × ((rs : List Rule) × Permᴰ (gets ∷ rest ∷ []) rs
        × ((normalize_config by_insertion routed).rules ≡ map default_weights rs))
normalize_config_example = normalize_config-IsNormal by_insertion routed

abbrev the_time : ℕ
the_time = 90

parse_with_format_example :
    IsNormal (normalize_config by_insertion routed)
    × (IsUsable (normalize_config by_insertion routed)
        ⊎ ((decoders.json_string (bytes "{}") ≡ some [])
            × (normalize_config by_insertion routed ≡ plain [])))
unfolding parse_with_format trim_space trim trim_left trim_right format_of resolve_format decode
    finish str_eq
parse_with_format_example =
    parse_with_format_lem decoders by_insertion (bytes "{}") (bytes "json")
      (normalize_config by_insertion routed) refl

abbrev exact : Text → Option (Text → Bool)
exact p = if is_nil p then none else some (λ t. str_eq t p)

abbrev fresh : (recent {V = Text → Bool}).Cache
fresh = (recent {V = Text → Bool}).new 4

fresh-IsCompiled : IsCompiled recent exact fresh
unfolding lookup
fresh-IsCompiled k re e = absurd (cc)

match_conditions_example :
    ((match_conditions recent exact (some ask) none gets.match fresh).0
      ≡ all_fit recent exact (some ask) none gets.match)
    × IsCompiled recent exact (match_conditions recent exact (some ask) none gets.match fresh).1
match_conditions_example =
    match_conditions_lem recent exact (some ask) none gets.match fresh fresh-IsCompiled

abbrev host : Text × Text
host = (bytes "{http.request.host}", bytes "~h")

abbrev path : Text × Text
path = (bytes "http.request.uri.path", bytes "/p")

match_conditions-perm_example :
    (match_conditions recent exact (some ask) none (host ∷ path ∷ []) fresh).0
    ≡ (match_conditions recent exact (some ask) none (path ∷ host ∷ []) fresh).0
match_conditions-perm_example =
    match_conditions-perm recent exact (some ask) none (host ∷ path ∷ []) (path ∷ host ∷ []) fresh
      fresh (Permᴰ.swap refl refl) fresh-IsCompiled fresh-IsCompiled

routed-IsNormal : IsNormal routed
routed-IsNormal = record {
  ordered = ((refl, tt), (tt, tt));
  weighted = ((omega arith, (omega arith, tt)), ((omega arith, tt), tt));
}

match_result_example :
    (o : Option MatchResult) × ((match_result recent exact (some ask) none routed fresh).0 ≡ o)
    × IsRouted recent exact (some ask) none routed o
    × IsCompiled recent exact (match_result recent exact (some ask) none routed fresh).1
match_result_example =
    match_result-IsRouted recent exact (some ask) none routed fresh routed-IsNormal fresh-IsCompiled

-- A cache of two selectors, one of which has a ring that was built without the first candidate
abbrev used : Selectors recent
used = record {
  cache = (recent {V = ℕ}).add (cache_key (bytes "consistent_hash") []) 0 ((recent {V = ℕ}).new 4);
  made = ringed ∷ [];
}

used-IsKeyed : IsKeyed recent used
unfolding lookup first_entries drop_key
used-IsKeyed k i e = elim (Bool-cases (str_eq (cache_key (bytes "consistent_hash") []) k)) [
  | inl f ↦
      let first : i ≡ 0 = ground arith in
      (
        ringed,
        ap (λ t. get_elem? used.made t) first,
        str_eq→eq (cache_key (bytes "consistent_hash") []) k f,
      )
  | inr f ↦ absurd (cc (rw f at e))
]

select_upstream_example :
    IsChoice
      (east ∷ west ∷ [])
      (select_upstream recent
        (λ n. 0)
        by_insertion
        ask
        (east ∷ west ∷ [])
        (bytes "consistent_hash")
        []
        used).0
    × IsSound recent
        (λ n. 0)
        by_insertion
        ask
        Asked
        (select_upstream recent
          (λ n. 0)
          by_insertion
          ask
          (east ∷ west ∷ [])
          (bytes "consistent_hash")
          []
          used).1
select_upstream_example =
    select_upstream-IsChoice recent (λ n. 0) by_insertion ask Asked (λ n h. h) (λ e. absurd (cc))
      lists_apart east (west ∷ []) (bytes "consistent_hash") [] used (inl refl)
      (used-IsKeyed, (ringed-IsPrepared, tt))
