-- ===== src/RouteCache/Held.antt =====
-- What the LRU cache holds of a key, and how much room it has.
use caddy_dynamic_routing.Base.{
  ℕ, ◌+◌, ◌≤◌, ◌<◌, ◌≡◌, ◌≢◌, ◌⊎◌, refl, sym, ◌∙◌, Option, none, some, Text, inl, inr, Bool-cases,
  if◌then◌else◌, leb, str_eq, str_eq→eq, str_ne→ne, arith,
}
use caddy_dynamic_routing.Config.{RouteConfig}
use caddy_dynamic_routing.Lru.{Lru}
use caddy_dynamic_routing.RouteCache.{RouteCache, set_route, delete_route}

module _ (lru : Lru RouteConfig) where
  -- There is room for `n` more entries, and there is not.
  abbrev pub HasRoom : ℕ → RouteCache lru → Type 0
  HasRoom n c = lru.len c.cache + n ≤ lru.size c.cache

  abbrev pub LacksRoom : ℕ → RouteCache lru → Type 0
  LacksRoom n c = lru.size c.cache < lru.len c.cache + n

  -- The cache holds the route; or it holds nothing of the key, and then `Lack` is the case.
  abbrev pub IsHeld : Type 0 → Text → Option RouteConfig → RouteCache lru → Type 0
  IsHeld Lack key o c = (lru.peek key c.cache ≡ o) ⊎ ((lru.peek key c.cache ≡ none) × Lack)

  -- The same, where there is room for `n` more entries unless `Lack` is the case
  abbrev pub IsKept : Type 0 → ℕ → Text → Option RouteConfig → RouteCache lru → Type 0
  IsKept Lack n key o c = IsHeld Lack key o c × (HasRoom n c ⊎ Lack)

  pub IsKept-start :
      (n : ℕ) (key : Text) (o : Option RouteConfig) (c : RouteCache lru)
      → lru.peek key c.cache ≡ o
      → IsKept (LacksRoom n c) n key o c
  IsKept-start n key o c h = (
    inl h,
    elim (Bool-cases (leb (lru.len c.cache + n) (lru.size c.cache))) [
      | inl e ↦ inl (ground arith)
      | inr e ↦ inr (ground arith)
    ],
  )

  pub IsKept-le :
      (Lack : Type 0) (m n : ℕ) (key : Text) (o : Option RouteConfig) (c : RouteCache lru)
      → n ≤ m
      → IsKept Lack m key o c
      → IsKept Lack n key o c
  IsKept-le Lack m n key o c l (h, room) =
      (h, elim room [ inl r ↦ inl (omega arith) | inr w ↦ inr w ])

  set_route-IsHeld :
      (Lack : Type 0) (n : ℕ) (key j : Text) (v : RouteConfig) (o : Option RouteConfig)
      (c : RouteCache lru)
      → IsKept Lack (n + 1) key o c
      → IsHeld Lack key (if str_eq j key then some v else o) (set_route lru j v c)
  unfolding set_route
  set_route-IsHeld Lack n key j v o c (h, room) = elim (Bool-cases (str_eq j key)) [
    | inl s ↦
        let same : key ≡ j = sym (str_eq→eq j key s) in
        let added : lru.peek key (lru.add j v c.cache) ≡ some v =
          rw same (lru.peek-add_self j v c.cache) in
        rw s (inl added)
    | inr s ↦
        let apart : key ≢ j = λ p. str_ne→ne j key s (sym p) in
        rw s (elim room [
          | inl r ↦
              let q = lru.peek-add_room key j v c.cache apart (omega arith) in
              elim h [ inl p ↦ inl (q ∙ p) | inr p ↦ inr (q ∙ p.0, p.1) ]
          | inr w ↦ elim (lru.peek-add_ne key j v c.cache apart) [
            | inl q ↦ elim h [ inl p ↦ inl (q ∙ p) | inr p ↦ inr (q ∙ p.0, w) ]
            | inr q ↦ inr (q, w)
          ]
        ])
  ]

  pub set_route-IsKept :
      (Lack : Type 0) (n : ℕ) (key j : Text) (v : RouteConfig) (o : Option RouteConfig)
      (c : RouteCache lru)
      → IsKept Lack (n + 1) key o c
      → IsKept Lack n key (if str_eq j key then some v else o) (set_route lru j v c)
  unfolding set_route
  set_route-IsKept Lack n key j v o c h = (
    set_route-IsHeld Lack n key j v o c h,
    elim h.1 [
      | inl r ↦ inl (omega (arith, lru.len-add j v c.cache, lru.size-add j v c.cache))
      | inr w ↦ inr w
    ],
  )

  pub delete_route-IsKept :
      (Lack : Type 0) (n : ℕ) (key j : Text) (o : Option RouteConfig) (c : RouteCache lru)
      → IsKept Lack n key o c
      → IsKept Lack n key (if str_eq j key then none else o) (delete_route lru j c)
  unfolding delete_route
  delete_route-IsKept Lack n key j o c (h, room) =
      let left : HasRoom n (delete_route lru j c) ⊎ Lack = elim room [
        | inl r ↦ inl (omega (arith, lru.len-remove j c.cache, lru.size-remove j c.cache))
        | inr w ↦ inr w
      ] in
      elim (Bool-cases (str_eq j key)) [
        | inl s ↦ (rw (delete_route, lru.peek-remove key j c.cache, s) (inl refl), left)
        | inr s ↦ (rw (delete_route, lru.peek-remove key j c.cache, s) h, left)
      ]
