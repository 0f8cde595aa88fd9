-- ===== src/Events.antt =====
-- events.go: the event bus and the emitter in front of it. A handler is named by a number, a
-- published event is the list of the handlers that are called, in order.
pub mod Order
use caddy_dynamic_routing.Base.{
  ℕ, ◌≡◌, Bool, true, false, List, [], ◌∷◌, ◌++◌, Option, none, some, Text, bytes, str_eq,
  if◌then◌else◌,
}
use caddy_dynamic_routing.Base.Maps.{load}

-- `EventBus`: the handlers of each event
abbrev pub EventBus : Type 0
EventBus = List (Text × List ℕ)

abbrev pub handlers_of : Option (List ℕ) → List ℕ
handlers_of none = []
handlers_of (some hs) = hs

-- `Subscribe`
unfoldable pub subscribe : Text → ℕ → EventBus → EventBus
subscribe event_name handler bus =
    (event_name, handlers_of (load event_name bus) ++ (handler ∷ [])) ∷ bus

-- `Publish`: the handlers that are called
unfoldable pub publish : Text → EventBus → List ℕ
publish event_name bus = handlers_of (load event_name bus) ++ handlers_of (load (bytes "*") bus)

-- An emitter's methods, which publish where it is enabled
unfoldable pub emit : Bool → Text → EventBus → List ℕ
emit enabled event_name bus = let called = publish event_name bus in if enabled then called else []
