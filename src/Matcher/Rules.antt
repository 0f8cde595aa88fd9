-- ===== src/Matcher/Rules.antt =====
-- `MatchResult`: which rule is taken, and with which algorithm.
use caddy_dynamic_routing.Base.{
  ◌≡◌, refl, sym, ap, Bool, true, false, List, [], ◌∷◌, ◌++◌, Option, none, some, inl, inr, Text,
  arith, Bool-cases, All, All-In, In, In-append_right, IsOrdered, if◌then◌else◌,
}
use mathlib.Core.Path.{subst}
use caddy_dynamic_routing.Lru.{Lru}
use caddy_dynamic_routing.Request.{Request}
use caddy_dynamic_routing.Config.{Rule, RouteConfig}
use caddy_dynamic_routing.Config.Normal.{NotLower, IsNormal}
use caddy_dynamic_routing.Matcher.{
  MatchResult, match_conditions, rule_result, simple_result, is_simple, match_rules,
  default_algorithm, match_result,
}
use caddy_dynamic_routing.Matcher.Conditions.{IsCompiled, all_fit, match_conditions_lem}

module _ (lru : Lru (Text → Bool)) (compile : Text → Option (Text → Bool)) where
  module _ (r : Option Request) (repl : Option (Text → Option Text)) where
    -- The rule's conditions hold.
    abbrev pub IsMatch : Rule → Type 0
    IsMatch rule = all_fit lru compile r repl rule.match ≡ true

    abbrev pub IsMiss : Rule → Type 0
    IsMiss rule = all_fit lru compile r repl rule.match ≡ false

    -- The result is that of a rule that matches, and no rule before it does; or there is no result,
    -- and no rule matches.
    abbrev pub IsFirst : Text → Text → List Rule → Option MatchResult → Type 0
    IsFirst algorithm key rules none = All IsMiss rules
    IsFirst algorithm key rules (some res) =
        (passed : List Rule) × (rule : Rule) × (rest : List Rule) × (rules
          ≡ passed ++ (rule ∷ rest))
        × All IsMiss passed
        × IsMatch rule
        × (res ≡ rule_result algorithm key rule)

    IsFirst-miss :
        (algorithm key : Text) (q : Rule) (rules : List Rule) (o : Option MatchResult)
        → IsMiss q
        → IsFirst algorithm key rules o
        → IsFirst algorithm key (q ∷ rules) o
    IsFirst-miss algorithm key q rules none m h = (m, h)
    IsFirst-miss algorithm key q rules (some res) m (passed, rule, rest, split, missed, hit, same) =
        (q ∷ passed, rule, rest, ap (λ t. q ∷ t) split, (m, missed), hit, same)

    -- The loop over the rules takes the first rule whose conditions all hold, with the rule's own
    -- algorithm and key where it has them, and takes none only where no rule's conditions hold. A
    -- cache that holds what compiling gives still does.
    pub match_rules_lem :
        (algorithm key : Text) (rules : List Rule) (c : lru.Cache)
        → IsCompiled lru compile c
        → (o : Option MatchResult) × ((match_rules lru compile r repl algorithm key rules c).0 ≡ o)
          × IsFirst algorithm key rules o
          × IsCompiled lru compile (match_rules lru compile r repl algorithm key rules c).1
    unfolding match_rules
    match_rules_lem algorithm key [] c h = (none, refl, tt, h)
    match_rules_lem algorithm key (rule ∷ rules) c h =
        let (got, kept) = match_conditions_lem lru compile r repl rule.match c h in
        let after = (match_conditions lru compile r repl rule.match c).1 in
        elim (Bool-cases (all_fit lru compile r repl rule.match)) [
          | inl e ↦ (
            some (rule_result algorithm key rule),
            rw (match_rules, got, e),
            ([], rule, rules, refl, tt, e, refl),
            rw (match_rules, got, e) kept,
          )
          | inr e ↦
              let (o, found, first, left) = match_rules_lem algorithm key rules after kept in
              (
                o,
                rw (match_rules, got, e) found,
                IsFirst-miss algorithm key rule rules o e first,
                rw (match_rules, got, e) left,
              )
        ]

    -- The result is that of a rule that matches, and no rule that matches has a higher priority; or
    -- there is no result, and no rule matches.
    abbrev pub IsBest : Text → Text → List Rule → Option MatchResult → Type 0
    IsBest algorithm key rules none = (q : Rule) → In q rules → ¬ IsMatch q
    IsBest algorithm key rules (some res) =
        (rule : Rule) × In rule rules
        × IsMatch rule
        × ((q : Rule) → In q rules → IsMatch q → NotLower rule q)
        × (res ≡ rule_result algorithm key rule)

    IsMiss-not : (rules : List Rule) → All IsMiss rules → (q : Rule) → In q rules → ¬ IsMatch q
    IsMiss-not rules h q inside hit = let miss = All-In IsMiss rules h inside in absurd (cc)

    NotLower-refl : (rule : Rule) → NotLower rule rule
    NotLower-refl rule = ground arith

    NotLower-first :
        (passed : List Rule) (rule : Rule) (rest : List Rule)
        → IsOrdered NotLower (passed ++ (rule ∷ rest))
        → All IsMiss passed
        → (q : Rule) → In q (passed ++ (rule ∷ rest))
        → IsMatch q
        → NotLower rule q
    NotLower-first [] rule rest h m q (inl e) hit = subst (NotLower rule) e (NotLower-refl rule)
    NotLower-first [] rule rest h m q (inr i) hit = All-In (NotLower rule) rest h.0 i
    NotLower-first (p ∷ passed) rule rest h m q (inl e) hit =
        let miss = subst IsMiss e m.0 in absurd (cc)
    NotLower-first (p ∷ passed) rule rest h m q (inr i) hit =
        NotLower-first passed rule rest h.1 m.1 q i hit

    IsFirst-IsBest :
        (algorithm key : Text) (rules : List Rule) (o : Option MatchResult)
        → IsOrdered NotLower rules
        → IsFirst algorithm key rules o
        → IsBest algorithm key rules o
    IsFirst-IsBest algorithm key rules none h f = IsMiss-not rules f
    IsFirst-IsBest algorithm key rules (some res) h (passed, rule, rest, split, missed, hit, same) =
        (
          rule,
          subst (In rule) (sym split) (In-append_right rule passed (rule ∷ rest) (inl refl)),
          hit,
          λ q inside m.
              NotLower-first passed rule rest (subst (IsOrdered NotLower) split h) missed q
                (subst (In q) split inside) m,
          same,
        )

    -- In the simple mode the result is the configuration's upstream alone, else it is as the rules say.
    abbrev pub IsRouted : RouteConfig → Option MatchResult → Type 0
    IsRouted config o =
        if is_simple config
        then (o ≡ some (simple_result config))
        else IsBest (default_algorithm config) config.algorithm_key config.rules o

    -- On a normalised configuration, the simple mode answers with the configuration's upstream, and
    -- otherwise the answer is that of a matching rule of the highest priority among the rules that
    -- match; there is none only where no rule matches. A cache that holds what compiling gives still
    -- does.
    pub match_result-IsRouted :
        (config : RouteConfig) (c : lru.Cache)
        → IsNormal config
        → IsCompiled lru compile c
        → (o : Option MatchResult) × ((match_result lru compile r repl config c).0 ≡ o)
          × IsRouted config o
          × IsCompiled lru compile (match_result lru compile r repl config c).1
    unfolding match_result
    match_result-IsRouted config c n h = elim (Bool-cases (is_simple config)) [
      | inl e ↦
          (some (simple_result config), rw (match_result, e), rw e refl, rw (match_result, e) h)
      | inr e ↦
          let (o, found, first, left) =
            match_rules_lem (default_algorithm config) config.algorithm_key config.rules c h in
          (
            o,
            rw (match_result, e) found,
            rw e (
                IsFirst-IsBest (default_algorithm config) config.algorithm_key config.rules o
                  n.ordered first),
            rw (match_result, e) left,
          )
    ]
