-- ===== src/HttpSource/Refreshed.antt =====
-- The source through its operations, and `refreshCache` after the API's table has changed.
use caddy_dynamic_routing.Base.{
  ℕ, ◌≡◌, ◌≢◌, ◌⊎◌, refl, sym, ap, ◌∙◌, List, [], ◌∷◌, Option, none, some, Text, inl, inr, In,
  Bool-cases, some_inj, if◌then◌else◌, is_nil, str_eq, str_eq→eq, str_ne→ne,
}
use mathlib.Core.Path.{subst}
use caddy_dynamic_routing.Base.Maps.{load}
use caddy_dynamic_routing.Config.{RouteConfig}
use caddy_dynamic_routing.Source.{Answer, failed, found, config_of}
use caddy_dynamic_routing.Lru.{Lru}
use caddy_dynamic_routing.RouteCache.{
  RouteCache, new_route_cache, is_valid, get, set_route, delete_route, all_keys,
}
use caddy_dynamic_routing.RouteCache.Laws.{held, get_lem}
use caddy_dynamic_routing.HttpSource.{
  Reply, Settings, HttpSource, with_defaults, cache_size, provision, get_route, refresh_key,
  refresh_keys, refresh_cache, do_health_check, tick_refresh, admin_clear_cache,
}
use caddy_dynamic_routing.HttpSource.Table.{
  IsConsistent, IsCurrent, IsResult, set_route-IsConsistent, delete_route-IsConsistent,
  clear-IsConsistent, get_route-IsResult,
}

module _ (lru : Lru RouteConfig) (table : Text → Option RouteConfig) where
  -- The states of a source while the API's table stays the same: as provisioned, after lookups,
  -- ticks of the refresh loop, and clearings of the cache
  pub data IsReachable : HttpSource lru → Type 0 where
    provisioned :
        (s ready : Settings) (checked : Reply) (h : HttpSource lru)
        → provision lru s checked ≡ some (ready, h)
        → IsReachable h
    asked :
        (now : ℕ) (key : Text) (answer : Answer) (h : HttpSource lru)
        → IsCurrent lru table key answer
        → IsReachable h
        → IsReachable (get_route lru now key answer h).1
    ticked :
        (answers : Text → Answer) (checked : Reply) (h : HttpSource lru)
        → ((key : Text) → IsCurrent lru table key (answers key))
        → IsReachable h
        → IsReachable (tick_refresh lru answers checked h)
    cleared : (h : HttpSource lru) → IsReachable h → IsReachable (admin_clear_cache lru h)

  new-IsConsistent : (n : ℕ) → IsConsistent lru table (new_route_cache lru n)
  unfolding new_route_cache load
  new-IsConsistent n = record {
    entries = λ key v p. absurd (cc (p, lru.peek-new (new_route_cache lru n).max_size key));
    absent = λ key until e. absurd (cc (e));
  }

  provision-IsConsistent :
      (s ready : Settings) (checked : Reply) (h : HttpSource lru)
      → provision lru s checked ≡ some (ready, h)
      → IsConsistent lru table h.cache
  unfolding provision
  provision-IsConsistent s ready checked h e = elim (Bool-cases (is_nil s.url)) [
    | inl f ↦ absurd (cc (rw (provision, f) at e))
    | inr f ↦
        let same = some_inj (rw (provision, f) at e) in
        subst (IsConsistent lru table) (ap (λ p. p.1.cache) same)
          (new-IsConsistent (cache_size lru (with_defaults s).max_cache_size))
  ]

  refresh_key-IsConsistent :
      (key : Text) (answer : Answer) (c : RouteCache lru)
      → IsCurrent lru table key answer
      → IsConsistent lru table c
      → IsConsistent lru table (refresh_key lru key answer c)
  unfolding refresh_key
  refresh_key-IsConsistent key failed c a k = k
  refresh_key-IsConsistent key (found none) c a k = delete_route-IsConsistent lru table key c k
  refresh_key-IsConsistent key (found (some v)) c (inl e) k = absurd (cc (e))
  refresh_key-IsConsistent key (found (some v)) c (inr e) k =
      set_route-IsConsistent lru table key v c (sym (ap config_of e)) k

  refresh_keys-IsConsistent :
      (answers : Text → Answer) (keys : List Text) (c : RouteCache lru)
      → ((key : Text) → IsCurrent lru table key (answers key))
      → IsConsistent lru table c
      → IsConsistent lru table (refresh_keys lru answers keys c)
  unfolding refresh_keys
  refresh_keys-IsConsistent answers [] c a k = k
  refresh_keys-IsConsistent answers (key ∷ keys) c a k =
      refresh_keys-IsConsistent answers keys (refresh_key lru key (answers key) c) a
        (refresh_key-IsConsistent key (answers key) c (a key) k)

  IsReachable-IsConsistent : (h : HttpSource lru) → IsReachable h → IsConsistent lru table h.cache
  unfolding tick_refresh refresh_cache do_health_check admin_clear_cache
  IsReachable-IsConsistent h (provisioned s ready checked _ e) =
      provision-IsConsistent s ready checked h e
  IsReachable-IsConsistent h (asked now key answer before a r) =
      (get_route-IsResult lru table now key answer before a (IsReachable-IsConsistent before r)).1
  IsReachable-IsConsistent h (ticked answers checked before a r) =
      refresh_keys-IsConsistent answers (all_keys lru before.cache) before.cache a
        (IsReachable-IsConsistent before r)
  IsReachable-IsConsistent h (cleared before r) = clear-IsConsistent lru table before.cache

  -- The source implements a read-only table, as long as the API's table stays the same. However it
  -- has been used since it was provisioned, by lookups, refreshes, health checks and clearings of the
  -- cache, each of which may have met failures of the API, a lookup answers the table's route for the
  -- key, or the API's error where it fails now, or no route where the source is not healthy.
  pub IsReachable-IsResult :
      (now : ℕ) (key : Text) (answer : Answer) (h : HttpSource lru)
      → IsReachable h
      → IsCurrent lru table key answer
      → IsResult lru table key answer h (get_route lru now key answer h).0
  IsReachable-IsResult now key answer h r a =
      (get_route-IsResult lru table now key answer h a (IsReachable-IsConsistent h r)).0

  refresh_key_lem :
      (key j : Text) (v : RouteConfig) (c : RouteCache lru) (o : Option RouteConfig)
      → table key ≡ o
      → lru.peek j (refresh_key lru key (found o) c).cache ≡ some v
      → (table j ≡ some v) ⊎ ((lru.peek j c.cache ≡ some v) × (j ≢ key))
  unfolding refresh_key set_route delete_route
  refresh_key_lem key j v c none t p = elim (Bool-cases (str_eq key j)) [
    | inl e ↦
        absurd (
          cc (p, lru.peek-remove j key c.cache, ap (λ b. if b then none else lru.peek j c.cache) e))
    | inr e ↦
        let kept : lru.peek j (lru.remove key c.cache) ≡ lru.peek j c.cache =
          lru.peek-remove j key c.cache ∙ ap (λ b. if b then none else lru.peek j c.cache) e in
        inr (sym kept ∙ p, λ n. str_ne→ne key j e (sym n))
  ]
  refresh_key_lem key j v c (some w) t p = elim (Bool-cases (str_eq j key)) [
    | inl e ↦
        let same : j ≡ key = str_eq→eq j key e in
        let added : lru.peek j (lru.add key w c.cache) ≡ some w =
          rw same (lru.peek-add_self key w c.cache) in
        inl (ap table same ∙ t ∙ sym added ∙ p)
    | inr e ↦ elim (lru.peek-add_ne j key w c.cache (str_ne→ne j key e)) [
      | inl q ↦ inr (sym q ∙ p, str_ne→ne j key e)
      | inr q ↦ absurd (cc (p, q))
    ]
  ]

  refresh_keys_lem :
      (answers : Text → Answer) (keys : List Text) (j : Text) (v : RouteConfig) (c : RouteCache lru)
      → ((key : Text) → answers key ≡ found (table key))
      → lru.peek j (refresh_keys lru answers keys c).cache ≡ some v
      → (table j ≡ some v) ⊎ ((lru.peek j c.cache ≡ some v) × (In j keys → ⊥))
  unfolding refresh_keys
  refresh_keys_lem answers [] j v c a p = inr (p, λ m. m)
  refresh_keys_lem answers (key ∷ keys) j v c a p =
      elim (refresh_keys_lem answers keys j v (refresh_key lru key (answers key) c) a p) [
        | inl e ↦ inl e
        | inr (q, n) ↦
            let q' : lru.peek j (refresh_key lru key (found (table key)) c).cache ≡ some v =
              subst (λ x. lru.peek j (refresh_key lru key x c).cache ≡ some v) (a key) q in
            elim (refresh_key_lem key j v c (table key) refl q') [
              | inl e ↦ inl e
              | inr (r, m) ↦ inr (r, λ i. elim i [ inl s ↦ m (sym s) | inr k ↦ n k ])
            ]
      ]

  -- Whatever the cache held, a refresh in which the API answers for every key leaves nothing of an
  -- earlier table: a route that the cache gives from then on is the one that the table has now, and
  -- a key whose route is gone has none.
  pub refresh_cache-IsFresh :
      (answers : Text → Answer) (h : HttpSource lru) (now : ℕ) (key : Text) (v : RouteConfig)
      → ((k : Text) → answers k ≡ found (table k))
      → (get lru now key (refresh_cache lru answers h).cache).0 ≡ some v
      → table key ≡ some v
  unfolding refresh_cache held all_keys
  refresh_cache-IsFresh answers h now key v a p =
      let after : RouteCache lru = refresh_keys lru answers (all_keys lru h.cache) h.cache in
      let q : held lru now key after ≡ some v = sym (get_lem lru now key after) ∙ p in
      elim (Bool-cases (is_valid now (load key after.negative))) [
        | inl e ↦ absurd (cc (rw (held, e) at q))
        | inr e ↦
            elim (refresh_keys_lem answers (all_keys lru h.cache) key v h.cache a
              (rw (held, e) at q)) [
                | inl t ↦ t
                | inr (r, n) ↦
                    absurd (n ((lru.mem-keys key h.cache.cache).1 (λ e. absurd (cc (r, e)))))
              ]
      ]
