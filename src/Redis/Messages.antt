-- ===== src/Redis/Messages.antt =====
-- `handleMessage`: which key a message names, and the cache behind it.
use caddy_dynamic_routing.Base.{
  ℕ, ◌+◌, arith, ◌≡◌, refl, [], ◌++◌, Option, none, some, Text, bytes, inl, inr, Bool-cases,
  if◌then◌else◌, str_eq,
}
use caddy_dynamic_routing.Base.Sort.{SortSlice}
use caddy_dynamic_routing.Config.{RouteConfig, Rule}
use caddy_dynamic_routing.Config.Parse.{Decoders, Result, ok, err, parse}
use caddy_dynamic_routing.Lru.{Lru}
use caddy_dynamic_routing.RouteCache.{RouteCache, delete_route}
use caddy_dynamic_routing.RouteCache.Held.{
  LacksRoom, IsHeld, IsKept, IsKept-start, IsKept-le, set_route-IsKept, delete_route-IsKept,
}
use caddy_dynamic_routing.Redis.{
  Value, nil_value, broken_value, value, Message, Action, refresh_action, delete_action, no_action,
  keyspace_prefix, store_value, refresh_key, act,
}

-- The messages that a publisher, or the server itself, sends for a key
abbrev pub update_message : Text → Message
update_message key = record { channel = []; payload = bytes "update:" ++ key }

abbrev pub delete_message : Text → Message
delete_message key = record { channel = []; payload = bytes "delete:" ++ key }

abbrev pub notification : ℕ → Text → Text → Message
notification db key event = record { channel = keyspace_prefix db ++ key; payload = event }

-- A key's route behind a refresh, and behind an action
abbrev pub refreshed : Result (Option RouteConfig) → Option RouteConfig → Option RouteConfig
refreshed (err _) before = before
refreshed (ok none) before = before
refreshed (ok (some v)) before = some v

module _ (lru : Lru RouteConfig) (decoders : Decoders) (sort : SortSlice Rule) where
  abbrev pub now_routed : Value → Option RouteConfig → Option RouteConfig
  now_routed nil_value before = none
  now_routed broken_value before = before
  now_routed (value text) before = refreshed (parse decoders sort text) before

  abbrev pub acted : (Text → Value) → Action → Text → Option RouteConfig → Option RouteConfig
  acted server (refresh_action j) key before =
      if str_eq j key then now_routed (server j) before else before
  acted server (delete_action j) key before = if str_eq j key then none else before
  acted server no_action key before = before

  -- Of the actions, only an update may lack the room for another entry.
  abbrev pub Lacks : Action → RouteCache lru → Type 0
  Lacks (refresh_action j) c = LacksRoom lru 1 c
  Lacks (delete_action j) c = ⊥
  Lacks no_action c = ⊥

  store_value-IsKept :
      (Lack : Type 0) (key j text : Text) (o : Option RouteConfig) (c : RouteCache lru)
      (r : Result (Option RouteConfig))
      → parse decoders sort text ≡ r
      → IsKept lru Lack (0 + 1) key o c
      → IsKept lru Lack 0 key
          (if str_eq j key then refreshed r o else o)
          (store_value lru decoders sort j text c)
  unfolding store_value
  store_value-IsKept Lack key j text o c (err x) e h =
      let less = IsKept-le lru Lack 1 0 key o c (omega arith) h in
      elim (Bool-cases (str_eq j key)) [
        | inl s ↦ rw (store_value, e, s) less
        | inr s ↦ rw (store_value, e, s) less
      ]
  store_value-IsKept Lack key j text o c (ok none) e h =
      let less = IsKept-le lru Lack 1 0 key o c (omega arith) h in
      elim (Bool-cases (str_eq j key)) [
        | inl s ↦ rw (store_value, e, s) less
        | inr s ↦ rw (store_value, e, s) less
      ]
  store_value-IsKept Lack key j text o c (ok (some v)) e h =
      rw (store_value, e) (set_route-IsKept lru Lack 0 key j v o c h)

  refresh_key-IsKept :
      (Lack : Type 0) (key j : Text) (val : Value) (o : Option RouteConfig) (c : RouteCache lru)
      → IsKept lru Lack 1 key o c
      → IsKept lru Lack 0 key
          (if str_eq j key then now_routed val o else o)
          (refresh_key lru decoders sort j val c)
  unfolding refresh_key
  refresh_key-IsKept Lack key j nil_value o c h =
      delete_route-IsKept lru Lack 0 key j o c (IsKept-le lru Lack 1 0 key o c (omega arith) h)
  refresh_key-IsKept Lack key j broken_value o c h =
      let less = IsKept-le lru Lack 1 0 key o c (omega arith) h in
      elim (Bool-cases (str_eq j key)) [ inl s ↦ rw s less | inr s ↦ rw s less ]
  refresh_key-IsKept Lack key j (value text) o c h =
      store_value-IsKept Lack key j text o c (parse decoders sort text) refl h

  -- A message changes the route of the key that it names and of no other. An update gives the key
  -- the route that the server has for it now, takes it away where the server has no value, and
  -- leaves it where the server fails or its value does not parse; a removal takes it away. Only an
  -- update that finds the cache without room for another entry can leave a key with nothing
  -- instead.
  pub act-IsHeld :
      (server : Text → Value) (action : Action) (key : Text) (c : RouteCache lru)
      → IsHeld lru
          (Lacks action c)
          key
          (acted server action key (lru.peek key c.cache))
          (act lru decoders sort server action c)
  unfolding act delete_route
  act-IsHeld server (refresh_action j) key c =
      (refresh_key-IsKept (LacksRoom lru 1 c) key j (server j) (lru.peek key c.cache) c
        (IsKept-start lru 1 key (lru.peek key c.cache) c refl)).0
  act-IsHeld server (delete_action j) key c = inl (lru.peek-remove key j c.cache)
  act-IsHeld server no_action key c = inl refl
