-- ===== src/Matcher.antt =====
-- matcher/matcher.go: `RuleMatcher`, which finds the rule of a configuration that a request matches
-- and selects one of the rule's upstreams.
-- `regexp.Compile` is the argument `compile`, a compiled expression being its `MatchString`; the two
-- caches are bounded ones of golang-lru. A cached selector is shared and changes by its use, so the
-- cache holds its place in the list of the selectors made so far. A map of conditions is a list in
-- the order that the loop visits.
pub mod Conditions
pub mod Rules
pub mod Kept
pub mod Selection
use caddy_dynamic_routing.Base.{
  ℕ, ◌==◌, Bool, true, false, List, [], ◌∷◌, ◌++◌, Option, none, some, ◌&&◌, ◌||◌, not, Text, bytes,
  str_eq, is_nil, has_prefix, trim, trim_prefix, if◌then◌else◌, length, get_elem?, set,
}
use caddy_dynamic_routing.Base.Int.{ℤ, pos, pos_part, leb_ℤ}
use caddy_dynamic_routing.Base.Sort.{SortSlice}
use caddy_dynamic_routing.Config.{WeightedUpstream, Rule, RouteConfig}
use caddy_dynamic_routing.Request.{Request}
use caddy_dynamic_routing.Lru.{Lru}
use caddy_dynamic_routing.Selector.{Selector, Pick, chosen, nothing, new_selector, select}
use caddy_dynamic_routing.Selector.Ring.{HashNode}

pub record MatchResult : Type 0 where
  pub upstreams : List WeightedUpstream
  pub algorithm : Text
  pub algorithm_key : Text
  pub matched_simple : Bool

-- `NewRuleMatcherWithCacheSizes`: the sizes, where a size that is not positive stands for 1024
unfoldable pub cache_size : ℤ → ℕ
cache_size n = if leb_ℤ n (pos 0) then 1024 else pos_part n

-- `resolvePlaceholder`
unfoldable pub request_value : Request → Text → Text
unfolding str_eq has_prefix trim_prefix
request_value r key =
    if str_eq key (bytes "http.request.method")
    then r.method
    else if str_eq key (bytes "http.request.host")
    then r.host
    else if str_eq key (bytes "http.request.uri.path")
    then (elim r.url_path [ some path ↦ path | none ↦ [] ])
    else if has_prefix key (bytes "http.request.header.")
    then (let h = trim_prefix key (bytes "http.request.header.") in
        if is_nil h then [] else r.header_get h)
    else []

abbrev pub key_of : Text → Text
unfolding trim
key_of placeholder = trim (λ c. c == b'{' || c == b'}') placeholder

-- `repl.GetString`, where there is a replacer
abbrev pub replaced : Option (Text → Option Text) → Text → Option Text
replaced none key = none
replaced (some get) key = get key

unfoldable pub resolve_placeholder : Option Request → Option (Text → Option Text) → Text → Text
resolve_placeholder r repl placeholder = elim (replaced repl (key_of placeholder)) [
  | some val ↦ val
  | none ↦ elim r [ some req ↦ request_value req (key_of placeholder) | none ↦ [] ]
]

-- The result that `MatchResult` makes of a rule that matches
unfoldable pub rule_result : Text → Text → Rule → MatchResult
rule_result algorithm key rule = record {
  upstreams = rule.upstreams;
  algorithm = if is_nil rule.algorithm then algorithm else rule.algorithm;
  algorithm_key = if is_nil rule.algorithm_key then key else rule.algorithm_key;
  matched_simple = false;
}

unfoldable pub default_algorithm : RouteConfig → Text
default_algorithm config =
    if is_nil config.algorithm then bytes "weighted_random" else config.algorithm

-- The result of the simple mode
unfoldable pub simple_result : RouteConfig → MatchResult
simple_result config = record {
  upstreams = record { address = config.upstream; weight = pos 1 } ∷ [];
  algorithm = default_algorithm config;
  algorithm_key = config.algorithm_key;
  matched_simple = true;
}

unfoldable pub is_simple : RouteConfig → Bool
is_simple config = not (is_nil config.upstream) && length config.rules == 0

module _ (lru : Lru (Text → Bool)) (compile : Text → Option (Text → Bool)) where
  -- `getRegex`
  unfoldable pub get_regex : Text → lru.Cache → Option (Text → Bool) × lru.Cache
  get_regex pattern c =
      let (cached, after) = lru.get pattern c in
      elim cached [
        | some re ↦ (some re, after)
        | none ↦ elim (compile pattern) [
          | none ↦ (none, after)
          | some re ↦ (some re, lru.add pattern re after)
        ]
      ]

  -- `matchRegex`
  unfoldable pub match_regex : Text → Text → lru.Cache → Bool × lru.Cache
  match_regex actual expected c =
      let (re, after) = get_regex (trim_prefix expected (bytes "~")) c in
      (elim re [ none ↦ false | some f ↦ f actual ], after)

  -- `matchValue`
  unfoldable pub match_value : Text → Text → lru.Cache → Bool × lru.Cache
  match_value actual expected c =
      if is_nil expected
      then (is_nil actual, c)
      else if has_prefix expected (bytes "~")
      then match_regex actual expected c
      else (str_eq actual expected, c)

  module _ (r : Option Request) (repl : Option (Text → Option Text)) where
    -- The first pass of `matchConditions`: `none` where an exact condition fails, else the regex
    -- conditions that it defers
    unfoldable pub exact_pass : List (Text × Text) → Option (List (Text × Text))
    exact_pass [] = some []
    exact_pass ((placeholder, expected) ∷ conds) =
        let rest = exact_pass conds in
        if has_prefix expected (bytes "~")
        then (elim rest [ none ↦ none | some ds ↦ some ((placeholder, expected) ∷ ds) ])
        else if str_eq (resolve_placeholder r repl placeholder) expected
        then rest
        else none

    -- The second pass
    unfoldable pub regex_pass : List (Text × Text) → lru.Cache → Bool × lru.Cache
    regex_pass [] c = (true, c)
    regex_pass ((placeholder, expected) ∷ conds) c =
        let (ok, after) = match_regex (resolve_placeholder r repl placeholder) expected c in
        let rest = regex_pass conds after in if ok then rest else (false, after)

    -- `matchConditions`
    unfoldable pub match_conditions : List (Text × Text) → lru.Cache → Bool × lru.Cache
    match_conditions conds c = elim (exact_pass conds) [
      | none ↦ (false, c)
      | some deferred ↦ regex_pass deferred c
    ]

    -- The loop over the rules
    unfoldable pub match_rules :
        Text → Text → List Rule → lru.Cache → Option MatchResult × lru.Cache
    match_rules algorithm key [] c = (none, c)
    match_rules algorithm key (rule ∷ rules) c =
        let (ok, after) = match_conditions rule.match c in
        let rest = match_rules algorithm key rules after in
        if ok then (some (rule_result algorithm key rule), after) else rest

    -- `MatchResult`, on a configuration that is not nil
    unfoldable pub match_result : RouteConfig → lru.Cache → Option MatchResult × lru.Cache
    match_result config c =
        if is_simple config
        then (some (simple_result config), c)
        else match_rules (default_algorithm config) config.algorithm_key config.rules c

-- The key of `getSelector`
unfoldable pub cache_key : Text → Text → Text
cache_key algorithm key = algorithm ++ (b':' ∷ key)

module _ (lru : Lru ℕ) where
  -- The selectors, and the cache of their places
  pub record Selectors : Type 0 where
    pub cache : lru.Cache
    pub made : List Selector

  -- `getSelector`
  unfoldable pub get_selector : Text → Text → Selectors → ℕ × Selectors
  get_selector algorithm key s =
      let (cached, after) = lru.get (cache_key algorithm key) s.cache in
      elim cached [
        | some i ↦ (i, record { cache = after; made = s.made })
        | none ↦ (
          length s.made,
          record {
            cache = lru.add (cache_key algorithm key) (length s.made) after;
            made = s.made ++ (new_selector algorithm key ∷ []);
          },
        )
      ]

  module _ (rand : ℕ → ℕ) (sorter : SortSlice HashNode) (r : Request) where
    -- A use of the selector at a place changes the selector there.
    unfoldable pub select_at : List WeightedUpstream → ℕ × Selectors → Pick × Selectors
    select_at us (i, s) = elim (get_elem? s.made i) [
      | none ↦ (nothing, s)
      | some sel ↦
          let (next, pick) = select rand sorter r sel us in
          (pick, record { cache = s.cache; made = set s.made i next })
    ]

    -- `selectUpstream`
    unfoldable pub select_upstream :
        List WeightedUpstream → Text → Text → Selectors → Pick × Selectors
    select_upstream [] algorithm key s = (nothing, s)
    select_upstream (u ∷ []) algorithm key s = (chosen u, s)
    select_upstream (u ∷ v ∷ us) algorithm key s =
        select_at (u ∷ v ∷ us) (get_selector algorithm key s)
