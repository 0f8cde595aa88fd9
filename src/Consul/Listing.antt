-- ===== src/Consul/Listing.antt =====
-- `watch`: the cache after a list of all pairs.
use caddy_dynamic_routing.Base.{
  ℕ, ◌+◌, length, arith, ◌≡◌, refl, ap, ◌∙◌, true, false, List, [], ◌∷◌, Option, none, some, Text,
  inl, inr, In, map, Bool-cases, Option-cases, if◌then◌else◌, str_eq, str_eq→eq, str_eq_refl,
}
use caddy_dynamic_routing.Base.Texts.{has}
use caddy_dynamic_routing.Base.Sort.{SortSlice}
use caddy_dynamic_routing.Config.{RouteConfig, Rule}
use caddy_dynamic_routing.Config.Parse.{Decoders, Result, ok, err, parse}
use caddy_dynamic_routing.Lru.{Lru}
use caddy_dynamic_routing.RouteCache.{RouteCache, delete_route, all_keys}
use caddy_dynamic_routing.RouteCache.Held.{
  LacksRoom, IsHeld, IsKept, IsKept-start, IsKept-le, set_route-IsKept,
}
use caddy_dynamic_routing.Consul.{update_pair, update_pairs, delete_unlisted, apply_list}

module _ (lru : Lru RouteConfig) (decoders : Decoders) (sort : SortSlice Rule) where
  -- The route that a value gives a key that had one before
  abbrev pub or_before : Result (Option RouteConfig) → Option RouteConfig → Option RouteConfig
  or_before (err _) before = before
  or_before (ok none) before = before
  or_before (ok (some v)) before = some v

  -- The last pair of the key whose value gives a route, or the route before the list
  unfoldable pub last_value : Text → List (Text × Text) → Option RouteConfig → Option RouteConfig
  last_value key [] before = before
  last_value key ((j, value) ∷ pairs) before =
      last_value key pairs
        (if str_eq j key then or_before (parse decoders sort value) before else before)

  update_pair-IsKept :
      (Lack : Type 0) (n : ℕ) (key j value : Text) (o : Option RouteConfig) (c : RouteCache lru)
      (r : Result (Option RouteConfig))
      → parse decoders sort value ≡ r
      → IsKept lru Lack (n + 1) key o c
      → IsKept lru Lack n key
          (if str_eq j key then or_before (parse decoders sort value) o else o)
          (update_pair lru decoders sort j value c)
  unfolding update_pair
  update_pair-IsKept Lack n key j value o c (err x) e h =
      let less = IsKept-le lru Lack (n + 1) n key o c (omega arith) h in
      elim (Bool-cases (str_eq j key)) [
        | inl s ↦ rw (update_pair, e, s) less
        | inr s ↦ rw (update_pair, e, s) less
      ]
  update_pair-IsKept Lack n key j value o c (ok none) e h =
      let less = IsKept-le lru Lack (n + 1) n key o c (omega arith) h in
      elim (Bool-cases (str_eq j key)) [
        | inl s ↦ rw (update_pair, e, s) less
        | inr s ↦ rw (update_pair, e, s) less
      ]
  update_pair-IsKept Lack n key j value o c (ok (some v)) e h =
      rw (update_pair, e) (set_route-IsKept lru Lack n key j v o c h)

  update_pairs-IsKept :
      (Lack : Type 0) (key : Text) (pairs : List (Text × Text)) (o : Option RouteConfig)
      (c : RouteCache lru)
      → IsKept lru Lack (length pairs) key o c
      → IsHeld lru Lack key (last_value key pairs o) (update_pairs lru decoders sort pairs c)
  unfolding update_pairs last_value
  update_pairs-IsKept Lack key [] o c h = h.0
  update_pairs-IsKept Lack key ((j, value) ∷ pairs) o c h =
      update_pairs-IsKept Lack key pairs
        (if str_eq j key then or_before (parse decoders sort value) o else o)
        (update_pair lru decoders sort j value c)
        (update_pair-IsKept Lack (length pairs) key j value o c (parse decoders sort value) refl (
          IsKept-le lru Lack (length ((j, value) ∷ pairs)) (length pairs + 1) key o c (omega arith)
            h))

  -- The deletions take away what is not listed, and nothing else.
  delete_unlisted-listed :
      (key : Text) (names ks : List Text) (c : RouteCache lru)
      → has key names ≡ true
      → lru.peek key (delete_unlisted lru decoders sort names ks c).cache ≡ lru.peek key c.cache
  unfolding delete_unlisted delete_route
  delete_unlisted-listed key names [] c h = refl
  delete_unlisted-listed key names (k ∷ ks) c h = elim (Bool-cases (has k names)) [
    | inl e ↦ rw (delete_unlisted, e) (delete_unlisted-listed key names ks c h)
    | inr e ↦ elim (Bool-cases (str_eq k key)) [
      | inl s ↦ absurd (cc (e, h, ap (λ t. has t names) (str_eq→eq k key s)))
      | inr s ↦
          rw (delete_unlisted, e)
            (delete_unlisted-listed key names ks (delete_route lru k c) h
              ∙ lru.peek-remove key k c.cache
              ∙ ap (λ b. if b then none else lru.peek key c.cache) s)
    ]
  ]

  stays_none :
      (key : Text) (names ks : List Text) (c : RouteCache lru)
      → lru.peek key c.cache ≡ none
      → lru.peek key (delete_unlisted lru decoders sort names ks c).cache ≡ none
  unfolding delete_unlisted delete_route
  stays_none key names [] c h = h
  stays_none key names (k ∷ ks) c h = elim (Bool-cases (has k names)) [
    | inl e ↦ rw (delete_unlisted, e) (stays_none key names ks c h)
    | inr e ↦
        let gone : lru.peek key (lru.remove k c.cache) ≡ none = elim (Bool-cases (str_eq k key)) [
          | inl s ↦
              lru.peek-remove key k c.cache ∙ ap (λ b. if b then none else lru.peek key c.cache) s
          | inr s ↦
              lru.peek-remove key k c.cache
              ∙ ap (λ b. if b then none else lru.peek key c.cache) s
              ∙ h
        ] in
        rw (delete_unlisted, e) (stays_none key names ks (delete_route lru k c) gone)
  ]

  delete_unlisted-none :
      (key : Text) (names ks : List Text) (c : RouteCache lru)
      → has key names ≡ false
      → In key ks
      → lru.peek key (delete_unlisted lru decoders sort names ks c).cache ≡ none
  unfolding delete_unlisted delete_route
  delete_unlisted-none key names [] c h m = absurd m
  delete_unlisted-none key names (k ∷ ks) c h (inl e) =
      let out : has k names ≡ false = ap (λ t. has t names) e ∙ h in
      let gone : lru.peek key (lru.remove k c.cache) ≡ none =
        lru.peek-remove key k c.cache
        ∙ ap (λ t. if str_eq t key then none else lru.peek key c.cache) e
        ∙ ap (λ b. if b then none else lru.peek key c.cache) (str_eq_refl key) in
      rw (delete_unlisted, out) (stays_none key names ks (delete_route lru k c) gone)
  delete_unlisted-none key names (k ∷ ks) c h (inr m) = elim (Bool-cases (has k names)) [
    | inl e ↦ rw (delete_unlisted, e) (delete_unlisted-none key names ks c h m)
    | inr e ↦ rw (delete_unlisted, e) (delete_unlisted-none key names ks (delete_route lru k c) h m)
  ]

  -- After a list of the prefix the cache holds for a key that is not listed nothing, and for a
  -- listed key exactly the route of its last pair that has one, else the route before the list. Only
  -- where the cache had not the room for as many more entries as there are pairs can it hold nothing
  -- for a listed key. So a value that no longer parses does not take the route away, and a pair that
  -- is gone does.
  pub apply_list-IsHeld :
      (key : Text) (pairs : List (Text × Text)) (c : RouteCache lru)
      → IsHeld lru
          (LacksRoom lru (length pairs) c)
          key
          (if has key (map (λ p. p.0) pairs)
            then last_value key pairs (lru.peek key c.cache)
            else none)
          (apply_list lru decoders sort pairs c)
  unfolding apply_list all_keys
  apply_list-IsHeld key pairs c =
      let names : List Text = map (λ p. p.0) pairs in
      let updated : RouteCache lru = update_pairs lru decoders sort pairs c in
      let keys : List Text = all_keys lru updated in
      let held =
        update_pairs-IsKept (LacksRoom lru (length pairs) c) key pairs (lru.peek key c.cache) c
          (IsKept-start lru (length pairs) key (lru.peek key c.cache) c refl) in
      elim (Bool-cases (has key names)) [
        | inl e ↦
            let kept = delete_unlisted-listed key names keys updated e in
            rw e (elim held [ inl p ↦ inl (kept ∙ p) | inr p ↦ inr (kept ∙ p.0, p.1) ])
        | inr e ↦ rw e (
            inl (elim (Option-cases (lru.peek key updated.cache)) [
              | inl n ↦ stays_none key names keys updated n
              | inr (v, n) ↦
                  delete_unlisted-none key names keys updated e
                    ((lru.mem-keys key updated.cache).1 (λ p. absurd (cc (n, p))))
            ]))
      ]
