-- ===== src/HttpSource/Table.antt =====
-- `Get` and the cache against the API's table of routes.
use caddy_dynamic_routing.Base.{
  ℕ, ◌≡◌, ◌⊎◌, refl, sym, ap, ◌∙◌, true, false, List, Option, none, some, Text, inl, inr,
  Bool-cases, Option-cases, if◌then◌else◌, str_eq, str_eq→eq, str_ne→ne, ltb,
}
use caddy_dynamic_routing.Base.Maps.{load, delete, load-delete}
use caddy_dynamic_routing.Config.{RouteConfig}
use caddy_dynamic_routing.Source.{Answer, failed, found, config_of}
use caddy_dynamic_routing.Lru.{Lru}
use caddy_dynamic_routing.RouteCache.{
  RouteCache, is_valid, look_up, get, is_negative_cached, set_negative, set_route, delete_route,
  clear,
}
use caddy_dynamic_routing.RouteCache.Laws.{held, get_lem}
use caddy_dynamic_routing.HttpSource.{HttpSource, use_fetched, fetch_missing, get_route}

found_inj : {a b : Option RouteConfig} → found a ≡ found b → a ≡ b
found_inj {a = a} e = ap config_of e

module _ (lru : Lru RouteConfig) (table : Text → Option RouteConfig) where
  -- The cache says what the table says: an entry is the key's route, a negative entry's key has none.
  pub record IsConsistent (c : RouteCache lru) : Type 0 where
    pub entries :
        (key : Text) (v : RouteConfig) → lru.peek key c.cache ≡ some v → table key ≡ some v
    pub absent : (key : Text) (until : ℕ) → load key c.negative ≡ some until → table key ≡ none

  absent-delete :
      (k : Text) (m : List (Text × ℕ))
      → ((key : Text) (until : ℕ) → load key m ≡ some until → table key ≡ none)
      → (key : Text) (until : ℕ) → load key (delete k m) ≡ some until
      → table key ≡ none
  absent-delete k m h key until e = elim (Bool-cases (str_eq k key)) [
    | inl s ↦ absurd (cc (e, load-delete key k m, ap (λ b. if b then none else load key m) s))
    | inr s ↦
        let same : load key (delete k m) ≡ load key m =
          load-delete key k m ∙ ap (λ b. if b then none else load key m) s in
        h key until (sym same ∙ e)
  ]

  look_up-IsConsistent :
      (k : Text) (c : RouteCache lru) → IsConsistent c → IsConsistent (look_up lru k c).1
  unfolding look_up
  look_up-IsConsistent k c h = elim (Option-cases (lru.peek k c.cache)) [
    | inl e ↦
        rw (look_up, lru.get-peek k c.cache, e)
          (record {
            entries = λ key v p. h.entries key v (sym (lru.peek-get key k c.cache) ∙ p);
            absent = h.absent;
          })
    | inr (w, e) ↦
        rw (look_up, lru.get-peek k c.cache, e)
          (record {
            entries = λ key v p. h.entries key v (sym (lru.peek-get key k c.cache) ∙ p);
            absent = h.absent;
          })
  ]

  get-IsConsistent :
      (now : ℕ) (k : Text) (c : RouteCache lru) → IsConsistent c → IsConsistent (get lru now k c).1
  unfolding get
  get-IsConsistent now k c h = elim (Option-cases (load k c.negative)) [
    | inl e ↦ rw (get, e) (look_up-IsConsistent k c h)
    | inr (until, e) ↦ elim (Bool-cases (ltb now until)) [
      | inl f ↦ rw (get, e, f) (record { entries = h.entries; absent = h.absent })
      | inr f ↦
          rw (get, e, f)
            (look_up-IsConsistent k (record c { negative = delete k c.negative })
              (record { entries = h.entries; absent = absent-delete k c.negative h.absent }))
    ]
  ]

  is_negative_cached-IsConsistent :
      (now : ℕ) (k : Text) (c : RouteCache lru)
      → IsConsistent c
      → IsConsistent (is_negative_cached lru now k c).1
        × ((is_negative_cached lru now k c).0 ≡ true → table k ≡ none)
  unfolding is_negative_cached
  is_negative_cached-IsConsistent now k c h = elim (Option-cases (load k c.negative)) [
    | inl e ↦ rw (is_negative_cached, e) (h, λ p. absurd (cc (p)))
    | inr (until, e) ↦ elim (Bool-cases (ltb now until)) [
      | inl f ↦ rw (is_negative_cached, e, f) (h, λ p. h.absent k until e)
      | inr f ↦
          rw (is_negative_cached, e, f)
            (
              record { entries = h.entries; absent = absent-delete k c.negative h.absent },
              λ p. absurd (cc (p)),
            )
    ]
  ]

  pub set_route-IsConsistent :
      (k : Text) (v : RouteConfig) (c : RouteCache lru)
      → table k ≡ some v
      → IsConsistent c
      → IsConsistent (set_route lru k v c)
  unfolding set_route
  set_route-IsConsistent k v c t h = record {
    entries = λ key w p. elim (Bool-cases (str_eq key k)) [
      | inl e ↦
          let same : key ≡ k = str_eq→eq key k e in
          let added : lru.peek key (lru.add k v c.cache) ≡ some v =
            rw same (lru.peek-add_self k v c.cache) in
          ap table same ∙ t ∙ sym added ∙ p
      | inr e ↦ elim (lru.peek-add_ne key k v c.cache (str_ne→ne key k e)) [
        | inl q ↦ h.entries key w (sym q ∙ p)
        | inr q ↦ absurd (cc (p, q))
      ]
    ];
    absent = absent-delete k c.negative h.absent;
  }

  pub delete_route-IsConsistent :
      (k : Text) (c : RouteCache lru) → IsConsistent c → IsConsistent (delete_route lru k c)
  unfolding delete_route
  delete_route-IsConsistent k c h = record {
    entries = λ key v p. elim (Bool-cases (str_eq k key)) [
      | inl e ↦ absurd (
          cc (
            p,
            lru.peek-remove key k c.cache,
            ap (λ b. if b then none else lru.peek key c.cache) e,
          ))
      | inr e ↦
          let kept : lru.peek key (lru.remove k c.cache) ≡ lru.peek key c.cache =
            lru.peek-remove key k c.cache ∙ ap (λ b. if b then none else lru.peek key c.cache) e in
          h.entries key v (sym kept ∙ p)
    ];
    absent = absent-delete k c.negative h.absent;
  }

  set_negative-IsConsistent :
      (now : ℕ) (k : Text) (c : RouteCache lru)
      → table k ≡ none
      → IsConsistent c
      → IsConsistent (set_negative lru now k c)
  unfolding set_negative load
  set_negative-IsConsistent now k c t h = record {
    entries = h.entries;
    absent = λ key until e. elim (Bool-cases (str_eq k key)) [
      | inl s ↦ ap table (sym (str_eq→eq k key s)) ∙ t
      | inr s ↦ h.absent key until (rw (load, s) at e)
    ];
  }

  pub clear-IsConsistent : (c : RouteCache lru) → IsConsistent (clear lru c)
  unfolding clear load
  clear-IsConsistent c = record {
    entries = λ key v p. absurd (cc (p, lru.peek-purge key c.cache));
    absent = λ key until e. absurd (cc (e));
  }

  -- What a lookup finds is the table's route.
  get_found :
      (now : ℕ) (k : Text) (c : RouteCache lru) (v : RouteConfig)
      → IsConsistent c
      → (get lru now k c).0 ≡ some v
      → table k ≡ some v
  unfolding held
  get_found now k c v h p =
      let q : held lru now k c ≡ some v = sym (get_lem lru now k c) ∙ p in
      elim (Bool-cases (is_valid now (load k c.negative))) [
        | inl e ↦ absurd (cc (rw (held, e) at q))
        | inr e ↦ h.entries k v (rw (held, e) at q)
      ]

  -- The API answers for a key what its table says, or fails.
  abbrev pub IsCurrent : Text → Answer → Type 0
  IsCurrent key answer = (answer ≡ failed) ⊎ (answer ≡ found (table key))

  -- A lookup's result: the table's route; or an error, where the API fails; or no route, where the
  -- source is not healthy.
  abbrev pub IsResult : Text → Answer → HttpSource lru → Answer → Type 0
  IsResult key answer h r =
      (r ≡ found (table key))
      ⊎ ((r ≡ failed) × (answer ≡ failed))
      ⊎ ((r ≡ found none) × (h.healthy ≡ false))

  use_fetched_lem :
      (now : ℕ) (key : Text) (answer : Answer) (h : HttpSource lru)
      → IsCurrent key answer
      → IsConsistent h.cache
      → ((use_fetched lru now key answer h).0 ≡ answer)
        × IsConsistent (use_fetched lru now key answer h).1.cache
  unfolding use_fetched
  use_fetched_lem now key failed h a k = (refl, k)
  use_fetched_lem now key (found none) h (inl e) k = absurd (cc (e))
  use_fetched_lem now key (found none) h (inr e) k =
      (refl, set_negative-IsConsistent now key h.cache (sym (found_inj e)) k)
  use_fetched_lem now key (found (some v)) h (inl e) k = absurd (cc (e))
  use_fetched_lem now key (found (some v)) h (inr e) k =
      (refl, set_route-IsConsistent key v h.cache (sym (found_inj e)) k)

  fetch_missing_lem :
      (now : ℕ) (key : Text) (answer : Answer) (h : HttpSource lru)
      → IsCurrent key answer
      → IsConsistent h.cache
      → (((fetch_missing lru now key answer h).0 ≡ answer)
          ⊎ ((fetch_missing lru now key answer h).0 ≡ found (table key)))
        × IsConsistent (fetch_missing lru now key answer h).1.cache
  unfolding fetch_missing
  fetch_missing_lem now key answer h a k =
      let looked = get-IsConsistent now key h.cache k in
      elim (Option-cases (get lru now key h.cache).0) [
        | inr (v, e) ↦
            rw (fetch_missing, e) (inr (ap found (sym (get_found now key h.cache v k e))), looked)
        | inl e ↦
            let (r, c) =
              use_fetched_lem now key answer (record h { cache = (get lru now key h.cache).1 }) a
                looked in
            rw (fetch_missing, e) (inl r, c)
      ]

  answered :
      (key : Text) (answer : Answer) (h : HttpSource lru) {r : Answer}
      → (r ≡ answer) ⊎ (r ≡ found (table key))
      → IsCurrent key answer
      → IsResult key answer h r
  answered key answer h (inl e) (inl f) = inr (inl (e ∙ f, f))
  answered key answer h (inl e) (inr f) = inl (e ∙ f)
  answered key answer h (inr e) a = inl e

  -- `Get` answers what the API's table says for the key, from the cache or from the API, unless the
  -- API fails, and then with its error, or the source is not healthy, and then with no route; and the
  -- cache, its negative entries included, still says nothing but what the table says.
  pub get_route-IsResult :
      (now : ℕ) (key : Text) (answer : Answer) (h : HttpSource lru)
      → IsCurrent key answer
      → IsConsistent h.cache
      → IsResult key answer h (get_route lru now key answer h).0
        × IsConsistent (get_route lru now key answer h).1.cache
  unfolding get_route
  get_route-IsResult now key answer h a k =
      let c : RouteCache lru = (get lru now key h.cache).1 in
      let d : RouteCache lru = (is_negative_cached lru now key c).1 in
      let looked : IsConsistent c = get-IsConsistent now key h.cache k in
      let (checked, negative) = is_negative_cached-IsConsistent now key c looked in
      elim (Option-cases (get lru now key h.cache).0) [
        | inr (v, e) ↦
            rw (get_route, e) (inl (ap found (sym (get_found now key h.cache v k e))), looked)
        | inl e ↦ elim (Bool-cases (is_negative_cached lru now key c).0) [
          | inl n ↦ rw (get_route, e, n) (inl (ap found (sym (negative n))), checked)
          | inr n ↦ elim (Bool-cases h.healthy) [
            | inr f ↦ rw (get_route, e, n, f) (inr (inr (refl, refl)), checked)
            | inl f ↦
                let (r, rest) =
                  fetch_missing_lem now key answer (record h { cache = d; healthy = true }) a
                    checked in
                rw (get_route, e, n, f)
                  (answered key answer (record h { healthy = true }) r a, rest)
          ]
        ]
      ]
