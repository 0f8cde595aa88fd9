-- ===== src/Matcher/Conditions.antt =====
-- `matchConditions`: the two passes and the cache of compiled expressions change nothing.
use caddy_dynamic_routing.Base.{
  ◌≡◌, refl, sym, ap, ◌∙◌, Bool, true, false, ◌&&◌, List, [], ◌∷◌, Option, none, some, inl, inr,
  Text, bytes, str_eq, str_eq→eq, str_ne→ne, has_prefix, trim_prefix, arith, Bool-cases,
  Option-cases, if◌then◌else◌,
}
use mathlib.Core.List.{Permᴰ}
use caddy_dynamic_routing.Lru.{Lru}
use caddy_dynamic_routing.Request.{Request}
use caddy_dynamic_routing.Matcher.{
  resolve_placeholder, get_regex, match_regex, match_value, exact_pass, regex_pass,
  match_conditions,
}

module _ (lru : Lru (Text → Bool)) (compile : Text → Option (Text → Bool)) where
  -- The cache holds what compiling gives.
  abbrev pub IsCompiled : lru.Cache → Type 0
  IsCompiled c = (k : Text) (re : Text → Bool) → lru.peek k c ≡ some re → compile k ≡ some re

  -- What compiling the pattern anew says of a text.
  unfoldable pub passes : Text → Text → Bool
  passes actual expected = elim (compile (trim_prefix expected (bytes "~"))) [
    | none ↦ false
    | some f ↦ f actual
  ]

  -- The condition on its own: a text that begins with "~" is a pattern, any other the value.
  unfoldable pub fits : Text → Text → Bool
  fits actual expected =
      if has_prefix expected (bytes "~") then passes actual expected else str_eq actual expected

  IsCompiled-get : (k : Text) (c : lru.Cache) → IsCompiled c → IsCompiled (lru.get k c).1
  IsCompiled-get k c h j re e = h j re (sym (lru.peek-get j k c) ∙ e)

  IsCompiled-add :
      (k : Text) (re : Text → Bool) (c : lru.Cache)
      → compile k ≡ some re
      → IsCompiled c
      → IsCompiled (lru.add k re c)
  IsCompiled-add k re c e h j f g = elim (Bool-cases (str_eq j k)) [
    | inl same ↦
        let at_k = str_eq→eq j k same in
        ap compile at_k
        ∙ e
        ∙ sym (lru.peek-add_self k re c)
        ∙ sym (ap (λ t. lru.peek t (lru.add k re c)) at_k)
        ∙ g
    | inr other ↦ elim (lru.peek-add_ne j k re c (str_ne→ne j k other)) [
      | inl kept ↦ h j f (sym kept ∙ g)
      | inr gone ↦ absurd (cc)
    ]
  ]

  get_regex_lem :
      (k : Text) (c : lru.Cache)
      → IsCompiled c
      → ((get_regex lru compile k c).0 ≡ compile k) × IsCompiled (get_regex lru compile k c).1
  unfolding get_regex
  get_regex_lem k c h = elim (Option-cases (lru.peek k c)) [
    | inl e ↦ elim (Option-cases (compile k)) [
      | inl f ↦ rw (get_regex, lru.get-peek k c, e, f) (refl, IsCompiled-get k c h)
      | inr (re, f) ↦
          rw (get_regex, lru.get-peek k c, e, f)
            (refl, IsCompiled-add k re (lru.get k c).1 f (IsCompiled-get k c h))
    ]
    | inr (re, e) ↦ rw (get_regex, lru.get-peek k c, e) (sym (h k re e), IsCompiled-get k c h)
  ]

  match_regex_lem :
      (actual expected : Text) (c : lru.Cache)
      → IsCompiled c
      → ((match_regex lru compile actual expected c).0 ≡ passes actual expected)
        × IsCompiled (match_regex lru compile actual expected c).1
  unfolding match_regex passes
  match_regex_lem actual expected c h =
      let (got, kept) = get_regex_lem (trim_prefix expected (bytes "~")) c h in
      rw (match_regex, got) (refl, kept)

  -- The test of one value, cached or not, is that of the pattern or of the text, a cache that holds
  -- what compiling gives still does, and an expected text that is empty asks for an empty value.
  pub match_value_lem :
      (actual expected : Text) (c : lru.Cache)
      → IsCompiled c
      → ((match_value lru compile actual expected c).0 ≡ fits actual expected)
        × IsCompiled (match_value lru compile actual expected c).1
  unfolding match_value fits has_prefix str_eq
  match_value_lem [] [] c h = (refl, h)
  match_value_lem (a ∷ s) [] c h = (refl, h)
  match_value_lem actual (b ∷ t) c h = elim (Bool-cases (has_prefix (b ∷ t) (bytes "~"))) [
    | inl e ↦ rw e (match_regex_lem actual (b ∷ t) c h)
    | inr e ↦ rw e (refl, h)
  ]

  module _ (r : Option Request) (repl : Option (Text → Option Text)) where
    -- Every condition, on its own, in the order given
    unfoldable pub all_fit : List (Text × Text) → Bool
    all_fit [] = true
    all_fit ((placeholder, expected) ∷ conds) =
        fits (resolve_placeholder r repl placeholder) expected && all_fit conds

    abbrev all_pass : List (Text × Text) → Bool
    all_pass [] = true
    all_pass ((placeholder, expected) ∷ conds) =
        passes (resolve_placeholder r repl placeholder) expected && all_pass conds

    -- What the first pass leaves to the second
    abbrev then_pass : Option (List (Text × Text)) → Bool
    then_pass none = false
    then_pass (some ds) = all_pass ds

    exact_pass_lem :
        (conds : List (Text × Text))
        → then_pass (exact_pass lru compile r repl conds) ≡ all_fit conds
    unfolding exact_pass all_fit fits
    exact_pass_lem [] = refl
    exact_pass_lem ((placeholder, expected) ∷ conds) = ground (arith, exact_pass_lem conds)

    regex_pass_lem :
        (conds : List (Text × Text)) (c : lru.Cache)
        → IsCompiled c
        → ((regex_pass lru compile r repl conds c).0 ≡ all_pass conds)
          × IsCompiled (regex_pass lru compile r repl conds c).1
    unfolding regex_pass
    regex_pass_lem [] c h = (refl, h)
    regex_pass_lem ((placeholder, expected) ∷ conds) c h =
        let actual = resolve_placeholder r repl placeholder in
        let (got, kept) = match_regex_lem actual expected c h in
        elim (Bool-cases (passes actual expected)) [
          | inl e ↦
              rw (got, e) (regex_pass_lem conds (match_regex lru compile actual expected c).1 kept)
          | inr e ↦ rw (got, e) (refl, kept)
        ]

    -- Deferring the patterns and caching the compiled ones change nothing: the conditions match when
    -- each of them on its own does, and a cache that holds what compiling gives still does.
    pub match_conditions_lem :
        (conds : List (Text × Text)) (c : lru.Cache)
        → IsCompiled c
        → ((match_conditions lru compile r repl conds c).0 ≡ all_fit conds)
          × IsCompiled (match_conditions lru compile r repl conds c).1
    unfolding match_conditions
    match_conditions_lem conds c h = elim (Option-cases (exact_pass lru compile r repl conds)) [
      | inl e ↦ rw (match_conditions, e) (sym (ap then_pass e) ∙ exact_pass_lem conds, h)
      | inr (ds, e) ↦
          let (got, kept) = regex_pass_lem ds c h in
          rw (match_conditions, e) (got ∙ sym (ap then_pass e) ∙ exact_pass_lem conds, kept)
    ]

    all_fit-perm : {xs ys : List (Text × Text)} → Permᴰ xs ys → all_fit xs ≡ all_fit ys
    unfolding all_fit
    all_fit-perm Permᴰ.nil = refl
    all_fit-perm (Permᴰ.cons e p) = rw (e, all_fit-perm p)
    all_fit-perm (Permᴰ.swap e f) = rw (e, f) (ground arith)
    all_fit-perm (Permᴰ.trans p q) = all_fit-perm p ∙ all_fit-perm q

    -- Go visits a map in no particular order: two visits of the same conditions, with different
    -- caches that each hold what compiling gives, come to the same answer.
    pub match_conditions-perm :
        (xs ys : List (Text × Text)) (c d : lru.Cache)
        → Permᴰ xs ys
        → IsCompiled c
        → IsCompiled d
        → (match_conditions lru compile r repl xs c).0
          ≡ (match_conditions lru compile r repl ys d).0
    match_conditions-perm xs ys c d p h k =
        (match_conditions_lem xs c h).0 ∙ all_fit-perm p ∙ sym (match_conditions_lem ys d k).0
