-- ===== src/Plugin/Attempt.antt =====
-- The attempt of `Select`: what the candidates of a matched rule come to.
use caddy_dynamic_routing.Base.{
  ℕ, ◌==◌, ◌≡◌, ◌≢◌, ◌⊎◌, refl, sym, Bool, true, false, List, [], ◌∷◌, Option, none, some, inl, inr,
  Text, arith, Option-cases, Bool-cases, length, if◌then◌else◌, All, In,
}
use mathlib.Core.Path.{subst}
use caddy_dynamic_routing.Base.Sort.{SortSlice}
use caddy_dynamic_routing.Config.{WeightedUpstream}
use caddy_dynamic_routing.Request.{Request}
use caddy_dynamic_routing.Lru.{Lru}
use caddy_dynamic_routing.Selector.{chosen}
use caddy_dynamic_routing.Selector.Ring.{HashNode}
use caddy_dynamic_routing.Selector.Draw.{IsIntn}
use caddy_dynamic_routing.Matcher.{MatchResult, select_upstream}
use caddy_dynamic_routing.Matcher.Kept.{IsKeyed}
use caddy_dynamic_routing.Matcher.Selection.{IsReady, select_upstream_ready-IsChoice}
use caddy_dynamic_routing.Plugin.{
  Source, PoolIndex, find_upstream, is_up, sift, Outcome, hit, missed, crashed, State, use_pick,
  use_result, not_in_pool, no_available_upstream,
}
use caddy_dynamic_routing.Plugin.Index.{last_at, IsFresh, find_upstream_lem}

module _ {U : Type 0} (dial : U → Text) (up : Option (U → Bool)) (pool : List U) where
  -- The candidates that the pool has, and those of them that are up, by a search of the pool
  unfoldable pub present : List WeightedUpstream → List WeightedUpstream
  present [] = []
  present (w ∷ ws) = elim (last_at dial w.address pool) [
    | none ↦ present ws
    | some u ↦ w ∷ present ws
  ]

  unfoldable pub usable : List WeightedUpstream → List WeightedUpstream
  usable [] = []
  usable (w ∷ ws) = elim (last_at dial w.address pool) [
    | none ↦ usable ws
    | some u ↦ if is_up dial up u then w ∷ usable ws else usable ws
  ]

  pub sift_lem :
      (ws : List WeightedUpstream) (ix : PoolIndex dial)
      → IsFresh dial pool ix
      → ((sift dial up pool ws ix).0 ≡ (present ws, usable ws))
        × IsFresh dial pool (sift dial up pool ws ix).1
  unfolding sift present usable
  sift_lem [] ix h = (refl, h)
  sift_lem (w ∷ ws) ix h =
      let (found, now) = find_upstream_lem dial pool w.address ix h in
      let (got, fresh) = sift_lem ws (find_upstream dial pool w.address ix).1 (inr (inr now)) in
      elim (Option-cases (last_at dial w.address pool)) [
        | inl e ↦ rw (sift, present, usable, found, e, got) (refl, fresh)
        | inr (u, e) ↦ elim (Bool-cases (is_up dial up u)) [
          | inl f ↦ rw (sift, present, usable, found, e, got, f) (refl, fresh)
          | inr f ↦ rw (sift, present, usable, found, e, got, f) (refl, fresh)
        ]
      ]

  usable-In :
      (ws : List WeightedUpstream) (w : WeightedUpstream)
      → In w (usable ws)
      → In w ws × ((u : U) × (last_at dial w.address pool ≡ some u) × (is_up dial up u ≡ true))
  unfolding usable
  usable-In [] w m = elim m [ ]
  usable-In (v ∷ ws) w m = elim (Option-cases (last_at dial v.address pool)) [
    | inl e ↦ let (inside, fact) = usable-In ws w (rw (usable, e) at m) in (inr inside, fact)
    | inr (u, e) ↦ elim (Bool-cases (is_up dial up u)) [
      | inl f ↦
          let m' : In w (v ∷ usable ws) = rw (usable, e, f) at m in
          elim m' [
            | inl same ↦ (
              inl same,
              subst
                  (λ t. (u : U) × (last_at dial t.address pool ≡ some u) × (is_up dial up u ≡ true))
                  same (u, e, f),
            )
            | inr i ↦ let (inside, fact) = usable-In ws w i in (inr inside, fact)
          ]
      | inr f ↦ let (inside, fact) = usable-In ws w (rw (usable, e, f) at m) in (inr inside, fact)
    ]
  ]

  usable-present : (ws : List WeightedUpstream) → present ws ≡ [] → usable ws ≡ []
  unfolding present usable
  usable-present [] h = refl
  usable-present (w ∷ ws) h = elim (Option-cases (last_at dial w.address pool)) [
    | inl e ↦ rw (usable, e) (usable-present ws (rw (present, e) at h))
    | inr (u, e) ↦ absurd (ground arith)
  ]

-- What a rule's candidates come to: a hit is on a candidate's address, which the pool has and which
-- is up; a miss means that no candidate is in the pool and up, and its reason tells whether one is
-- in the pool.
unfoldable pub IsServed :
    {U : Type 0}
    → (U → Text)
    → Option (U → Bool)
    → List U
    → Text
    → List WeightedUpstream
    → Outcome U
    → Type 0
IsServed {U} dial up pool key ws (hit k a u) =
    (k ≡ key)
    × ((w : WeightedUpstream) × In w ws × (w.address ≡ a))
    × (last_at dial a pool ≡ some u)
    × (is_up dial up u ≡ true)
IsServed {U} dial up pool key ws (missed k why) =
    (k ≡ key)
    × (usable dial up pool ws ≡ [])
    × (why ≡ (if length (present dial up pool ws) == 0 then not_in_pool else no_available_upstream))
IsServed {U} dial up pool key ws crashed = ⊥

nil_of : {A : Type 0} (l : List A) → (length l == 0) ≡ true → l ≡ []
nil_of [] h = refl
nil_of (x ∷ xs) h = absurd (ground arith)

list-cases : {A : Type 0} (l : List A) → (l ≡ []) ⊎ ((x : A) × (xs : List A) × (l ≡ x ∷ xs))
list-cases [] = inl refl
list-cases (x ∷ xs) = inr (x, xs, refl)

module _ {U S : Type 0} (dial : U → Text) (source : Source S) (up : Option (U → Bool))
    (regexes : Lru (Text → Bool)) (compile : Text → Option (Text → Bool)) (cached : Lru ℕ)
    (rand : ℕ → ℕ) (sorter : SortSlice HashNode) (now : ℕ) (pool : List U) (r : Request)
    (repl : Text → Option Text) where
  use_pick_lem :
      (key : Text) (w : WeightedUpstream) (u : U)
      (s : State dial source up regexes compile cached rand sorter now)
      → IsFresh dial pool s.index
      → last_at dial w.address pool ≡ some u
      → (use_pick dial source up regexes compile cached rand sorter now pool r repl key
          (chosen w)
          s).0
        ≡ hit key w.address u
  unfolding use_pick
  use_pick_lem key w u s h e =
      let (found, _) = find_upstream_lem dial pool w.address s.index h in rw (use_pick, found, e)

  use_result_lem :
      (key : Text) (res : MatchResult)
      (s : State dial source up regexes compile cached rand sorter now) (v : WeightedUpstream)
      (vs : List WeightedUpstream) (w : WeightedUpstream) (u : U)
      → IsFresh dial pool s.index
      → usable dial up pool res.upstreams ≡ v ∷ vs
      → (select_upstream cached rand sorter r
          (v ∷ vs)
          res.algorithm
          res.algorithm_key
          s.selectors).0
        ≡ chosen w
      → last_at dial w.address pool ≡ some u
      → (use_result dial source up regexes compile cached rand sorter now pool r repl key res s).0
        ≡ hit key w.address u
  unfolding use_result
  use_result_lem key res s v vs w u h e picked there =
      let (got, fresh) = sift_lem dial up pool res.upstreams s.index h in
      let some_left : (length (v ∷ vs) == 0) ≡ false = ground arith in
      elim (Bool-cases (length (present dial up pool res.upstreams) == 0)) [
        | inl f ↦
            let none_usable = usable-present dial up pool res.upstreams (nil_of _ f) in absurd (cc)
        | inr f ↦ rw (use_result, got, e, f, some_left, picked) (use_pick_lem key w u _ fresh there)
      ]

  -- Where the index is fresh, the cached selectors fit and the request has a URL, a matched rule
  -- never panics and never misses for want of a selection. It is a hit, on a candidate's address
  -- that the pool has and whose upstream is up, exactly when there is such a candidate; else the miss
  -- says whether the pool has any of the candidates.
  pub use_result-IsServed :
      (key : Text) (res : MatchResult)
      (s : State dial source up regexes compile cached rand sorter now)
      → IsFresh dial pool s.index
      → IsIntn rand
      → r.url_path ≢ none
      → IsKeyed cached s.selectors
      → All (IsReady cached rand sorter r (usable dial up pool res.upstreams)) s.selectors.made
      → (o : Outcome U) × ((use_result dial source up regexes compile cached rand sorter now pool r
            repl key res s).0
          ≡ o)
        × IsServed dial up pool key res.upstreams o
  unfolding use_result IsServed
  use_result-IsServed key res s h n url keyed ready =
      let (got, fresh) = sift_lem dial up pool res.upstreams s.index h in
      elim (list-cases (usable dial up pool res.upstreams)) [
        | inl e ↦ elim (Bool-cases (length (present dial up pool res.upstreams) == 0)) [
          | inl f ↦ (missed key not_in_pool, rw (use_result, got, e, f) refl, (refl, e, rw f refl))
          | inr f ↦ (
            missed key no_available_upstream,
            rw (use_result, got, e, f) refl,
            (refl, e, rw f refl),
          )
        ]
        | inr (v, vs, e) ↦
            let (w, picked, inside) =
              select_upstream_ready-IsChoice cached rand sorter r v vs res.algorithm
                res.algorithm_key s.selectors n url keyed (rw e at ready) in
            let (among, (u, there, live)) =
              usable-In dial up pool res.upstreams w (subst (In w) (sym e) inside) in
            (
              hit key w.address u,
              use_result_lem key res s v vs w u h e picked there,
              (refl, (w, among, refl), there, live),
            )
      ]
