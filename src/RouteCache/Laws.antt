-- ===== src/RouteCache/Laws.antt =====
-- The lookups of `RouteCache` after each of its operations.
use caddy_dynamic_routing.Base.{
  ℕ, ◌+◌, ◌≡◌, ◌≢◌, ◌⊎◌, refl, sym, ap, ◌∙◌, Option, none, some, inl, inr, Text, Option-cases,
  Bool-cases, str_eq, str_eq_refl, ne→str_ne, if◌then◌else◌, ltb,
}
use caddy_dynamic_routing.Base.Maps.{load, delete, load-delete}
use caddy_dynamic_routing.Config.{RouteConfig}
use caddy_dynamic_routing.Lru.{Lru}
use caddy_dynamic_routing.RouteCache.{
  RouteCache, tick, is_valid, look_up, get, set_negative, set_route, delete_route, clear,
}

module _ (lru : Lru RouteConfig) where
  -- What the cache holds for the key at the time: nothing under a negative entry that is valid, else
  -- what the LRU cache holds
  unfoldable pub held : ℕ → Text → RouteCache lru → Option RouteConfig
  held now k c = if is_valid now (load k c.negative) then none else lru.peek k c.cache

  look_up_lem : (k : Text) (c : RouteCache lru) → (look_up lru k c).0 ≡ lru.peek k c.cache
  unfolding look_up
  look_up_lem k c = elim (Option-cases (lru.peek k c.cache)) [
    | inl e ↦ rw (look_up, lru.get-peek k c.cache, e) refl
    | inr (v, e) ↦ rw (look_up, lru.get-peek k c.cache, e) refl
  ]

  pub get_lem : (now : ℕ) (k : Text) (c : RouteCache lru) → (get lru now k c).0 ≡ held now k c
  unfolding get held
  get_lem now k c = elim (Option-cases (load k c.negative)) [
    | inl e ↦ rw (get, held, e) (look_up_lem k c)
    | inr (until, e) ↦ elim (Bool-cases (ltb now until)) [
      | inl f ↦ rw (get, held, e, f) refl
      | inr f ↦ rw (get, held, e, f) (look_up_lem k (record c { negative = delete k c.negative }))
    ]
  ]

  held-set_route :
      (now : ℕ) (k : Text) (v : RouteConfig) (c : RouteCache lru)
      → held now k (set_route lru k v c) ≡ some v
  unfolding held set_route
  held-set_route now k v c =
      rw (held, set_route, load-delete k k c.negative, str_eq_refl k, lru.peek-add_self k v c.cache)
        refl

  held-set_route_ne :
      (now : ℕ) (j k : Text) (v : RouteConfig) (c : RouteCache lru)
      → j ≢ k
      → (held now j (set_route lru k v c) ≡ held now j c)
        ⊎ (held now j (set_route lru k v c) ≡ none)
  unfolding held set_route
  held-set_route_ne now j k v c h =
      let apart = ne→str_ne k j (λ e. h (sym e)) in
      let kept : load j (delete k c.negative) ≡ load j c.negative =
        rw (load-delete j k c.negative, apart) refl in
      elim (Bool-cases (is_valid now (load j c.negative))) [
        | inl e ↦ inl (rw (held, set_route, kept, e) refl)
        | inr e ↦ elim (lru.peek-add_ne j k v c.cache h) [
          | inl f ↦ inl (rw (held, set_route, kept, e) f)
          | inr f ↦ inr (rw (held, set_route, kept, e) f)
        ]
      ]

  -- After `Set`, a lookup of the key finds the configuration, even where a negative entry stood; a
  -- lookup of any other key finds what it would have found before, or nothing where the LRU cache
  -- dropped its entry.
  pub get-set_route :
      (now : ℕ) (k : Text) (v : RouteConfig) (c : RouteCache lru)
      → ((get lru now k (set_route lru k v c)).0 ≡ some v)
        × ((j : Text)
            → j ≢ k
            → ((get lru now j (set_route lru k v c)).0 ≡ (get lru now j c).0)
              ⊎ ((get lru now j (set_route lru k v c)).0 ≡ none))
  get-set_route now k v c = (
    get_lem now k (set_route lru k v c) ∙ held-set_route now k v c,
    λ j h. elim (held-set_route_ne now j k v c h) [
      | inl e ↦ inl (get_lem now j (set_route lru k v c) ∙ e ∙ sym (get_lem now j c))
      | inr e ↦ inr (get_lem now j (set_route lru k v c) ∙ e)
    ],
  )

  held-set_negative :
      (now later : ℕ) (k : Text) (c : RouteCache lru)
      → held later k (set_negative lru now k c)
        ≡ (if ltb later (now + c.negative_ttl) then none else lru.peek k c.cache)
  unfolding held set_negative load
  held-set_negative now later k c = rw (held, set_negative, load, str_eq_refl k) refl

  -- After `SetNegative`, a lookup of the key finds nothing for the negative TTL, whatever the LRU cache
  -- holds, and from then on what the LRU cache holds.
  pub get-set_negative :
      (now later : ℕ) (k : Text) (c : RouteCache lru)
      → (get lru later k (set_negative lru now k c)).0
        ≡ (if ltb later (now + c.negative_ttl) then none else lru.peek k c.cache)
  get-set_negative now later k c =
      get_lem later k (set_negative lru now k c) ∙ held-set_negative now later k c

  held-delete_route :
      (now : ℕ) (j k : Text) (c : RouteCache lru)
      → held now j (delete_route lru k c) ≡ (if str_eq k j then none else held now j c)
  unfolding held delete_route
  held-delete_route now j k c = elim (Bool-cases (str_eq k j)) [
    | inl e ↦
        rw (held, delete_route, load-delete j k c.negative, lru.peek-remove j k c.cache, e) refl
    | inr e ↦
        rw (held, delete_route, load-delete j k c.negative, lru.peek-remove j k c.cache, e) refl
  ]

  held-clear : (now : ℕ) (k : Text) (c : RouteCache lru) → held now k (clear lru c) ≡ none
  unfolding held clear load
  held-clear now k c = lru.peek-purge k c.cache

  -- `Delete` makes the lookups of its key find nothing and those of other keys what they found before,
  -- and after `Clear` no lookup finds anything.
  pub get-delete_route :
      (now : ℕ) (j k : Text) (c : RouteCache lru)
      → ((get lru now j (delete_route lru k c)).0
          ≡ (if str_eq k j then none else (get lru now j c).0))
        × ((get lru now j (clear lru c)).0 ≡ none)
  get-delete_route now j k c = (
    get_lem now j (delete_route lru k c)
        ∙ held-delete_route now j k c
        ∙ ap (λ o. if str_eq k j then none else o) (sym (get_lem now j c)),
    get_lem now j (clear lru c) ∙ held-clear now j c,
  )

  -- One of the counters of hits and misses moves, by one.
  abbrev pub IsCounted : RouteCache lru → Option RouteConfig × RouteCache lru → Type 0
  IsCounted c t =
      ((t.1.hits ≡ tick c.hits) × (t.1.misses ≡ c.misses))
      ⊎ ((t.1.hits ≡ c.hits) × (t.1.misses ≡ tick c.misses) × (t.0 ≡ none))

  look_up-IsCounted : (k : Text) (c : RouteCache lru) → IsCounted c (look_up lru k c)
  unfolding look_up
  look_up-IsCounted k c = elim (Option-cases (lru.peek k c.cache)) [
    | inl e ↦ inr (rw (look_up, lru.get-peek k c.cache, e) (refl, refl, refl))
    | inr (v, e) ↦ inl (rw (look_up, lru.get-peek k c.cache, e) (refl, refl))
  ]

  -- Each lookup counts once: as a hit, or as a miss, and then it finds nothing. (A negative entry that
  -- is valid counts as a hit.)
  pub get-IsCounted : (now : ℕ) (k : Text) (c : RouteCache lru) → IsCounted c (get lru now k c)
  unfolding get
  get-IsCounted now k c = elim (Option-cases (load k c.negative)) [
    | inl e ↦ rw (get, e) (look_up-IsCounted k c)
    | inr (until, e) ↦ elim (Bool-cases (ltb now until)) [
      | inl f ↦ inl (rw (get, e, f) (refl, refl))
      | inr f ↦ rw (get, e, f) (look_up-IsCounted k (record c { negative = delete k c.negative }))
    ]
  ]
