-- ===== src/Plugin/Mode.antt =====
-- `Select`: what it returns is an upstream of the pool.
use caddy_dynamic_routing.Base.{
  ℕ, ◌==◌, ◌≡◌, Bool, List, [], ◌∷◌, Option, none, some, inl, inr, Text, Option-cases, Bool-cases,
  length, In, is_nil, ◌||◌,
}
use caddy_dynamic_routing.Base.Sort.{SortSlice}
use caddy_dynamic_routing.Source.{Answer, failed, found}
use caddy_dynamic_routing.Config.{RouteConfig, is_enabled, is_expired}
use caddy_dynamic_routing.Request.{Request}
use caddy_dynamic_routing.Lru.{Lru}
use caddy_dynamic_routing.Selector.{Pick, chosen, nothing, panic}
use caddy_dynamic_routing.Selector.Ring.{HashNode}
use caddy_dynamic_routing.Matcher.{MatchResult, match_result, select_upstream}
use caddy_dynamic_routing.Plugin.{
  Source, sift, Outcome, hit, missed, crashed, use_pick, use_result, use_found, use_config,
  use_answer, attempt, Event, MissReason, Choice, empty_pool, upstream, fall_back, broken, report,
  report_version, miss, Extractor, Policy, is_set, Machine, try_version, route, choose,
}
use caddy_dynamic_routing.Plugin.Index.{last_at, last_at-In, IsFresh, find_upstream_lem}
use caddy_dynamic_routing.Plugin.Attempt.{sift_lem}

-- An upstream that is returned is one of the pool.
abbrev pub IsInPool : {U : Type 0} → List U → Choice U → Type 0
IsInPool pool empty_pool = Unit
IsInPool pool (upstream u) = In u pool
IsInPool pool fall_back = Unit
IsInPool pool broken = Unit

module _ {U S : Type 0} (dial : U → Text) (source : Source S) (up : Option (U → Bool))
    (regexes : Lru (Text → Bool)) (compile : Text → Option (Text → Bool)) (cached : Lru ℕ)
    (rand : ℕ → ℕ) (sorter : SortSlice HashNode) (now : ℕ) (pool : List U) (r : Request) where
  -- A hit is on an upstream of the pool that dials the address.
  abbrev InPool : Outcome U → Type 0
  InPool (hit k a u) = In u pool × (dial u ≡ a)
  InPool (missed k why) = Unit
  InPool crashed = Unit

  record IsSafe (t : Outcome U × Machine dial source up regexes compile cached rand sorter now)
      : Type 0 where
    inside : InPool t.0
    fresh : IsFresh dial pool t.1.index

  use_pick-IsSafe :
      (repl : Text → Option Text) (key : Text) (p : Pick)
      (s : Machine dial source up regexes compile cached rand sorter now)
      → IsFresh dial pool s.index
      → IsSafe (use_pick dial source up regexes compile cached rand sorter now pool r repl key p s)
  unfolding use_pick
  use_pick-IsSafe repl key nothing s h = record { inside = tt; fresh = h }
  use_pick-IsSafe repl key panic s h = record { inside = tt; fresh = h }
  use_pick-IsSafe repl key (chosen w) s h =
      let (got, fresh) = find_upstream_lem dial pool w.address s.index h in
      elim (Option-cases (last_at dial w.address pool)) [
        | inl e ↦ rw (use_pick, got, e) (record { inside = tt; fresh = inr (inr fresh) })
        | inr (u, e) ↦
            rw (use_pick, got, e)
              (record { inside = last_at-In dial w.address pool u e; fresh = inr (inr fresh) })
      ]

  use_result-IsSafe :
      (repl : Text → Option Text) (key : Text) (res : MatchResult)
      (s : Machine dial source up regexes compile cached rand sorter now)
      → IsFresh dial pool s.index
      → IsSafe
          (use_result dial source up regexes compile cached rand sorter now pool r repl key res s)
  unfolding use_result
  use_result-IsSafe repl key res s h =
      let (_, fresh) = sift_lem dial up pool res.upstreams s.index h in
      let sifted = sift dial up pool res.upstreams s.index in
      let picked =
        select_upstream cached rand sorter r sifted.0.1 res.algorithm res.algorithm_key
          s.selectors in
      elim (Bool-cases (length sifted.0.0 == 0)) [
        | inl e ↦ rw (use_result, e) (record { inside = tt; fresh = fresh })
        | inr e ↦ elim (Bool-cases (length sifted.0.1 == 0)) [
          | inl f ↦ rw (use_result, e, f) (record { inside = tt; fresh = fresh })
          | inr f ↦
              rw (use_result, e, f)
                (use_pick-IsSafe repl key picked.0
                  (record s { index = sifted.1; selectors = picked.1 }) fresh)
        ]
      ]

  use_found-IsSafe :
      (repl : Text → Option Text) (key : Text) (o : Option MatchResult)
      (s : Machine dial source up regexes compile cached rand sorter now)
      → IsFresh dial pool s.index
      → IsSafe (use_found dial source up regexes compile cached rand sorter now pool r repl key o s)
  unfolding use_found
  use_found-IsSafe repl key none s h = record { inside = tt; fresh = h }
  use_found-IsSafe repl key (some res) s h = use_result-IsSafe repl key res s h

  use_config-IsSafe :
      (repl : Text → Option Text) (key : Text) (c : RouteConfig)
      (s : Machine dial source up regexes compile cached rand sorter now)
      → IsFresh dial pool s.index
      → IsSafe
          (use_config dial source up regexes compile cached rand sorter now pool r repl key c s)
  unfolding use_config
  use_config-IsSafe repl key c s h =
      let res = match_result regexes compile (some r) (some repl) c s.regex_cache in
      elim (Bool-cases (is_enabled c)) [
        | inl e ↦ elim (Bool-cases (is_expired now c)) [
          | inl f ↦ rw (use_config, e, f) (record { inside = tt; fresh = h })
          | inr f ↦
              rw (use_config, e, f)
                (use_found-IsSafe repl key res.0 (record s { regex_cache = res.1 }) h)
        ]
        | inr e ↦ rw (use_config, e) (record { inside = tt; fresh = h })
      ]

  use_answer-IsSafe :
      (repl : Text → Option Text) (key : Text) (b : Bool) (a : Answer)
      (s : Machine dial source up regexes compile cached rand sorter now)
      → IsFresh dial pool s.index
      → IsSafe
          (use_answer dial source up regexes compile cached rand sorter now pool r repl key b a s)
  unfolding use_answer
  use_answer-IsSafe repl key b failed s h = record { inside = tt; fresh = h }
  use_answer-IsSafe repl key b (found none) s h = record { inside = tt; fresh = h }
  use_answer-IsSafe repl key b (found (some c)) s h = use_config-IsSafe repl key c s h

  attempt-IsSafe :
      (repl : Text → Option Text) (e : Option Extractor)
      (s : Machine dial source up regexes compile cached rand sorter now)
      → IsFresh dial pool s.index
      → IsSafe (attempt dial source up regexes compile cached rand sorter now pool r repl e s)
  unfolding attempt
  attempt-IsSafe repl none s h = record { inside = tt; fresh = h }
  attempt-IsSafe repl (some extract) s h = elim (Bool-cases (is_nil (extract r repl))) [
    | inl e ↦ rw (attempt, e) (record { inside = tt; fresh = h })
    | inr e ↦
        rw (attempt, e)
          (use_answer-IsSafe repl (extract r repl) (source.healthy s.source_state)
            (source.get (extract r repl) s.source_state).0
            (record s { source_state = (source.get (extract r repl) s.source_state).1 }) h)
  ]

  report-InPool : (o : Outcome U) → InPool o → IsInPool pool (report o).1
  unfolding report
  report-InPool (hit k a u) h = h.0
  report-InPool (missed k why) h = tt
  report-InPool crashed h = tt

  report_version-InPool :
      (key : Text) (why : MissReason) (o : Outcome U)
      → InPool o
      → IsInPool pool (report_version key why o).1
  unfolding report_version
  report_version-InPool key why (hit k a u) h = h.0
  report_version-InPool key why (missed k reason) h = tt
  report_version-InPool key why crashed h = tt

  module _ (policy : Policy) (repl : Text → Option Text) where
    record IsKept
        (t : (List Event × Choice U)
          × Machine dial source up regexes compile cached rand sorter now)
        : Type 0 where
      kept : IsInPool pool t.0.1
      left : IsFresh dial pool t.1.index

    try_version-IsKept :
        (t : Outcome U × Machine dial source up regexes compile cached rand sorter now)
        → IsSafe t
        → IsKept
            (try_version dial source up regexes compile cached rand sorter now policy r pool repl t)
    unfolding try_version report
    try_version-IsKept (hit k a u, s) h = record {
      kept = report-InPool (hit k a u) h.inside;
      left = h.fresh;
    }
    try_version-IsKept (crashed, s) h = record { kept = tt; left = h.fresh }
    try_version-IsKept (missed k why, s) h =
        let safe = attempt-IsSafe repl policy.version_key s h.fresh in
        record { kept = report_version-InPool k why _ safe.inside; left = safe.fresh }

    route-IsKept :
        (s : Machine dial source up regexes compile cached rand sorter now)
        → IsFresh dial pool s.index
        → IsKept (route dial source up regexes compile cached rand sorter now policy r pool repl s)
    unfolding route miss
    route-IsKept s h =
        let safe = attempt-IsSafe repl policy.key s h in
        let first = attempt-IsSafe repl policy.instance_key s h in
        elim (Bool-cases (is_set policy.instance_key || is_set policy.version_key)) [
          | inl e ↦
              rw (route, e)
                (try_version-IsKept
                  (attempt dial source up regexes compile cached rand sorter now pool r repl
                    policy.instance_key s)
                  first)
          | inr e ↦ elim (Bool-cases (is_set policy.key)) [
            | inl f ↦
                rw (route, e, f)
                  (record {
                    kept =
                        report-InPool
                          (attempt dial source up regexes compile cached rand sorter now pool r repl
                            policy.key s).0
                          safe.inside;
                    left = safe.fresh;
                  })
            | inr f ↦ rw (route, e, f) (record { kept = tt; left = h })
          ]
        ]

module _ {U S : Type 0} (dial : U → Text) (source : Source S) (up : Option (U → Bool))
    (regexes : Lru (Text → Bool)) (compile : Text → Option (Text → Bool)) (cached : Lru ℕ)
    (rand : ℕ → ℕ) (sorter : SortSlice HashNode) (now : ℕ) (policy : Policy) (r : Request) where
  -- Where the index is not built, or is of a pool of another size, or is this pool's, an upstream that
  -- `Select` returns is one of the pool, whatever the data source, the conditions, the algorithm and
  -- the cached selectors, and the index is so afterwards.
  pub choose-IsInPool :
      (pool : List U) (repl : Option (Text → Option Text))
      (s : Machine dial source up regexes compile cached rand sorter now)
      → IsFresh dial pool s.index
      → IsInPool pool
          (choose dial source up regexes compile cached rand sorter now policy r pool repl s).0.1
        × IsFresh dial pool
            (choose dial source up regexes compile cached rand sorter now policy r pool repl
              s).1.index
  unfolding choose miss route try_version
  choose-IsInPool [] repl s h = (tt, h)
  choose-IsInPool (u ∷ us) none s h = (tt, h)
  choose-IsInPool (u ∷ us) (some repl) s h = elim (Bool-cases policy.has_source) [
    | inl e ↦
        let safe =
          route-IsKept dial source up regexes compile cached rand sorter now (u ∷ us) r policy repl
            s h in
        rw (choose, e) (safe.kept, safe.left)
    | inr e ↦ rw (choose, e) (tt, h)
  ]
