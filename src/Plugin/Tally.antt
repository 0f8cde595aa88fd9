-- ===== src/Plugin/Tally.antt =====
-- `Select`: what it records.
use caddy_dynamic_routing.Base.{
  ℕ, ◌+◌, ◌≡◌, refl, Bool, List, [], ◌∷◌, Option, none, some, inl, inr, Text, arith, Bool-cases,
  ◌||◌,
}
use caddy_dynamic_routing.Base.Sort.{SortSlice}
use caddy_dynamic_routing.Request.{Request}
use caddy_dynamic_routing.Lru.{Lru}
use caddy_dynamic_routing.Selector.Ring.{HashNode}
use caddy_dynamic_routing.Plugin.{
  Source, Outcome, hit, missed, crashed, attempt, Event, route_hit, route_miss, instance_fallback,
  MissReason, Choice, empty_pool, upstream, fall_back, broken, no_replacer, no_data_source,
  no_key_extractor, report, report_version, miss, Policy, is_set, Machine, try_version, route,
  choose,
}

-- The hits and the misses recorded
unfoldable pub tally : List Event → ℕ × ℕ
tally [] = (0, 0)
tally (route_hit k a ∷ es) = (1 + (tally es).0, (tally es).1)
tally (route_miss k why ∷ es) = ((tally es).0, 1 + (tally es).1)
tally (instance_fallback why ∷ es) = tally es

-- What a choice has to record: a hit where an upstream is returned, a miss where the fallback decides.
unfoldable pub due : {U : Type 0} → Choice U → ℕ × ℕ
due empty_pool = (0, 0)
due (upstream u) = (1, 0)
due fall_back = (0, 1)
due broken = (0, 0)

module _ {U : Type 0} where
  abbrev IsTallied : List Event × Choice U → Type 0
  IsTallied c = tally c.0 ≡ due c.1

  report-tally : (o : Outcome U) → IsTallied (report o)
  unfolding report tally due
  report-tally (hit k a u) = refl
  report-tally (missed k why) = refl
  report-tally crashed = refl

  report_version-tally :
      (key : Text) (why : MissReason) (o : Outcome U) → IsTallied (report_version key why o)
  unfolding report_version tally due
  report_version-tally key why (hit k a u) = refl
  report_version-tally key why (missed k reason) = ground arith
  report_version-tally key why crashed = refl

miss-tally : (U : Type 0) (why : MissReason) → tally (miss {U = U} why).0 ≡ due (miss {U = U} why).1
unfolding miss tally due
miss-tally U why = refl

module _ {U S : Type 0} (dial : U → Text) (source : Source S) (up : Option (U → Bool))
    (regexes : Lru (Text → Bool)) (compile : Text → Option (Text → Bool)) (cached : Lru ℕ)
    (rand : ℕ → ℕ) (sorter : SortSlice HashNode) (now : ℕ) (policy : Policy) (r : Request) where
  try_version-tally :
      (pool : List U) (repl : Text → Option Text)
      (t : Outcome U × Machine dial source up regexes compile cached rand sorter now)
      → IsTallied
          (try_version dial source up regexes compile cached rand sorter now policy r pool repl t).0
  unfolding try_version
  try_version-tally pool repl (hit k a u, s) = report-tally (hit k a u)
  try_version-tally pool repl (crashed, s) = report-tally {U = U} crashed
  try_version-tally pool repl (missed k why, s) = report_version-tally k why _

  route-tally :
      (pool : List U) (repl : Text → Option Text)
      (s : Machine dial source up regexes compile cached rand sorter now)
      → IsTallied
          (route dial source up regexes compile cached rand sorter now policy r pool repl s).0
  unfolding route
  route-tally pool repl s =
      elim (Bool-cases (is_set policy.instance_key || is_set policy.version_key)) [
        | inl e ↦
            rw (route, e)
              (try_version-tally pool repl (
                attempt dial source up regexes compile cached rand sorter now pool r repl
                  policy.instance_key s))
        | inr e ↦ elim (Bool-cases (is_set policy.key)) [
          | inl f ↦
              rw (route, e, f)
                (report-tally
                  (attempt dial source up regexes compile cached rand sorter now pool r repl
                    policy.key s).0)
          | inr f ↦ rw (route, e, f) (miss-tally U no_key_extractor)
        ]
      ]

  -- Whatever the request, the configuration and the state, `Select` records one hit and no miss where
  -- it returns an upstream, one miss and no hit where it leaves the choice to the fallback policy, and
  -- neither on an empty pool.
  pub choose-tally :
      (pool : List U) (repl : Option (Text → Option Text))
      (s : Machine dial source up regexes compile cached rand sorter now)
      → tally
          (choose dial source up regexes compile cached rand sorter now policy r pool repl s).0.0
        ≡ due
            (choose dial source up regexes compile cached rand sorter now policy r pool repl s).0.1
  unfolding choose route try_version tally due
  choose-tally [] repl s = refl
  choose-tally (u ∷ us) none s = miss-tally U no_replacer
  choose-tally (u ∷ us) (some repl) s = elim (Bool-cases policy.has_source) [
    | inl e ↦ rw (choose, e) (route-tally (u ∷ us) repl s)
    | inr e ↦ rw (choose, e) (miss-tally U no_data_source)
  ]
