-- ===== src/Etcd/Replay.antt =====
-- The initial load and the events of a watch: what the cache holds of each key.
use caddy_dynamic_routing.Base.{
  ℕ, ◌+◌, ◌≡◌, refl, arith, List, [], ◌∷◌, ◌++◌, Option, none, some, Text, inl, inr, Bool-cases,
  Option-cases, if◌then◌else◌, str_eq,
}
use caddy_dynamic_routing.Base.Sort.{SortSlice}
use caddy_dynamic_routing.Config.{RouteConfig, Rule}
use caddy_dynamic_routing.Config.Parse.{Decoders}
use caddy_dynamic_routing.Lru.{Lru}
use caddy_dynamic_routing.RouteCache.{RouteCache, delete_route}
use caddy_dynamic_routing.RouteCache.Held.{
  LacksRoom, IsHeld, IsKept, IsKept-start, IsKept-le, set_route-IsKept, delete_route-IsKept,
}
use caddy_dynamic_routing.Etcd.{
  Event, put_event, delete_event, Message, context_done, channel_closed, response_error, events,
  route_of, store_value, initial_load, apply_event, apply_events, receive, watch, load_at_start,
}

-- The events that all messages bring up to the first that ends the watch
unfoldable pub received : List Message → List Event
received [] = []
received (events evs ∷ ms) = evs ++ received ms
received (_ ∷ ms) = []

-- The pairs of a load as events
unfoldable pub puts : List (Text × Text) → List Event
puts [] = []
puts ((key, value) ∷ kvs) = put_event key value ∷ puts kvs

-- How many entries the events add, at most
unfoldable pub stores : List Event → ℕ
stores [] = 0
stores (put_event key value ∷ evs) = stores evs + 1
stores (delete_event key ∷ evs) = stores evs

stores-append : (xs ys : List Event) → stores (xs ++ ys) ≡ stores xs + stores ys
unfolding stores
stores-append [] ys = omega arith
stores-append (put_event key value ∷ xs) ys = omega (arith, stores-append xs ys)
stores-append (delete_event key ∷ xs) ys = stores-append xs ys

module _ (lru : Lru RouteConfig) (decoders : Decoders) (sort : SortSlice Rule) where
  -- The route of a key after a value was put: the value's, or, where it says none, the one before
  abbrev pub or_before : Option RouteConfig → Option RouteConfig → Option RouteConfig
  or_before none before = before
  or_before (some v) before = some v

  -- The specification: a map that has the last route that was put since the key was last removed
  unfoldable pub replay_event : Text → Event → Option RouteConfig → Option RouteConfig
  replay_event key (put_event j value) before =
      if str_eq j key then or_before (route_of lru decoders sort value) before else before
  replay_event key (delete_event j) before = if str_eq j key then none else before

  unfoldable pub replay : Text → List Event → Option RouteConfig → Option RouteConfig
  replay key [] before = before
  replay key (ev ∷ evs) before = replay key evs (replay_event key ev before)

  store_value-IsKept :
      (Lack : Type 0) (n : ℕ) (key j value : Text) (o : Option RouteConfig) (c : RouteCache lru)
      → IsKept lru Lack (n + 1) key o c
      → IsKept lru Lack n key
          (replay_event key (put_event j value) o)
          (store_value lru decoders sort j value c)
  unfolding replay_event store_value
  store_value-IsKept Lack n key j value o c h =
      elim (Option-cases (route_of lru decoders sort value)) [
        | inl e ↦
            let less = IsKept-le lru Lack (n + 1) n key o c (omega arith) h in
            elim (Bool-cases (str_eq j key)) [
              | inl s ↦ rw (replay_event, store_value, e, s) less
              | inr s ↦ rw (replay_event, store_value, e, s) less
            ]
        | inr (v, e) ↦ rw (replay_event, store_value, e) (set_route-IsKept lru Lack n key j v o c h)
      ]

  apply_events-IsKept :
      (Lack : Type 0) (n : ℕ) (key : Text) (evs : List Event) (o : Option RouteConfig)
      (c : RouteCache lru)
      → IsKept lru Lack (stores evs + n) key o c
      → IsKept lru Lack n key (replay key evs o) (apply_events lru decoders sort evs c)
  unfolding apply_events apply_event replay replay_event stores
  apply_events-IsKept Lack n key [] o c h = IsKept-le lru Lack (0 + n) n key o c (omega arith) h
  apply_events-IsKept Lack n key (put_event j value ∷ evs) o c h =
      apply_events-IsKept Lack n key evs (replay_event key (put_event j value) o)
        (store_value lru decoders sort j value c)
        (store_value-IsKept Lack (stores evs + n) key j value o c
          (IsKept-le lru Lack (stores evs + 1 + n) (stores evs + n + 1) key o c (omega arith) h))
  apply_events-IsKept Lack n key (delete_event j ∷ evs) o c h =
      apply_events-IsKept Lack n key evs (if str_eq j key then none else o) (delete_route lru j c)
        (delete_route-IsKept lru Lack (stores evs + n) key j o c h)

  replay-append :
      (key : Text) (xs ys : List Event) (o : Option RouteConfig)
      → replay key (xs ++ ys) o ≡ replay key ys (replay key xs o)
  unfolding replay
  replay-append key [] ys o = refl
  replay-append key (ev ∷ xs) ys o = replay-append key xs ys (replay_event key ev o)

  receive-IsKept :
      (Lack : Type 0) (key : Text) (ms : List Message) (o : Option RouteConfig) (c : RouteCache lru)
      → IsKept lru Lack (stores (received ms)) key o c
      → IsHeld lru Lack key (replay key (received ms) o) (receive lru decoders sort ms c).1
  unfolding receive received replay
  receive-IsKept Lack key [] o c h = h.0
  receive-IsKept Lack key (context_done ∷ ms) o c h = h.0
  receive-IsKept Lack key (channel_closed ∷ ms) o c h = h.0
  receive-IsKept Lack key (response_error ∷ ms) o c h = h.0
  receive-IsKept Lack key (events evs ∷ ms) o c h = rw (replay-append key evs (received ms) o) (
      receive-IsKept Lack key ms (replay key evs o) (apply_events lru decoders sort evs c) (
        apply_events-IsKept Lack (stores (received ms)) key evs o c
          (rw (stores-append evs (received ms)) at h)))

  initial_load-IsKept :
      (Lack : Type 0) (n : ℕ) (key : Text) (kvs : List (Text × Text)) (o : Option RouteConfig)
      (c : RouteCache lru)
      → IsKept lru Lack (stores (puts kvs) + n) key o c
      → IsKept lru Lack n key (replay key (puts kvs) o) (initial_load lru decoders sort kvs c)
  unfolding initial_load puts replay stores
  initial_load-IsKept Lack n key [] o c h = IsKept-le lru Lack (0 + n) n key o c (omega arith) h
  initial_load-IsKept Lack n key ((j, value) ∷ kvs) o c h =
      let m : ℕ = stores (puts kvs) in
      initial_load-IsKept Lack n key kvs (replay_event key (put_event j value) o)
        (store_value lru decoders sort j value c)
        (store_value-IsKept Lack (m + n) key j value o c
          (IsKept-le lru Lack (m + 1 + n) (m + n + 1) key o c (omega arith) h))

  -- After the initial load and a watch the cache holds, for every key, exactly what a map has after
  -- the loaded pairs and the watch's events were put into it and removed from it in their order. Only
  -- where the cache, at the start, has not the room for as many entries as these put can it hold
  -- nothing instead. A value that does not parse, or is empty, leaves the route before it in place,
  -- in the cache and in the map.
  pub watch-replay :
      (key : Text) (kvs : List (Text × Text)) (ms : List Message) (c : RouteCache lru)
      → lru.peek key c.cache ≡ none
      → IsHeld lru
          (LacksRoom lru (stores (puts kvs ++ received ms)) c)
          key
          (replay key (puts kvs ++ received ms) none)
          (watch lru decoders sort ms (load_at_start lru decoders sort (some kvs) c)).1.cache
  unfolding watch load_at_start
  watch-replay key kvs ms c h =
      let Lack : Type 0 = LacksRoom lru (stores (puts kvs ++ received ms)) c in
      let start = IsKept-start lru (stores (puts kvs ++ received ms)) key none c h in
      rw (replay-append key (puts kvs) (received ms) none) (
        receive-IsKept Lack key ms (replay key (puts kvs) none)
          (initial_load lru decoders sort kvs c)
          (initial_load-IsKept Lack (stores (received ms)) key kvs none c (
            IsKept-le lru Lack (stores (puts kvs ++ received ms))
              (stores (puts kvs) + stores (received ms)) key none c
              (omega (arith, stores-append (puts kvs) (received ms))) start)))
