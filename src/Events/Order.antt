-- ===== src/Events/Order.antt =====
-- The order in which the handlers of an event are called.
use caddy_dynamic_routing.Base.{
  append_assoc, append_nil, ℕ, ◌≡◌, refl, sym, ap, ◌∙◌, List, [], ◌∷◌, ◌++◌, Text, bytes, str_eq,
  if◌then◌else◌, inl, inr, Bool-cases, str_eq→eq,
}
use mathlib.Core.Path.{ap₂}
use caddy_dynamic_routing.Base.Maps.{load}
use caddy_dynamic_routing.Events.{EventBus, handlers_of, subscribe, publish}

-- A bus after subscriptions, the first of the list first
unfoldable pub subscribe_all : List (Text × ℕ) → EventBus → EventBus
subscribe_all [] bus = bus
subscribe_all ((name, handler) ∷ subs) bus = subscribe_all subs (subscribe name handler bus)

-- The handlers that were subscribed under a name, in order
unfoldable pub under : Text → List (Text × ℕ) → List ℕ
under name [] = []
under name ((j, handler) ∷ subs) =
    let rest = under name subs in if str_eq j name then handler ∷ rest else rest

load-subscribe_all :
    (name : Text) (subs : List (Text × ℕ)) (bus : EventBus)
    → handlers_of (load name (subscribe_all subs bus))
      ≡ handlers_of (load name bus) ++ under name subs
unfolding subscribe_all under subscribe load
load-subscribe_all name [] bus = sym (append_nil (handlers_of (load name bus)))
load-subscribe_all name ((j, handler) ∷ subs) bus =
    let step = load-subscribe_all name subs (subscribe j handler bus) in
    elim (Bool-cases (str_eq j name)) [
      | inl e ↦
          let same : handlers_of (load j bus) ≡ handlers_of (load name bus) =
            ap (λ t. handlers_of (load t bus)) (str_eq→eq j name e) in
          rw (under, e)
            (step
              ∙ (rw (subscribe, load, e)
                  (append_assoc (handlers_of (load j bus)) (handler ∷ []) (under name subs)
                    ∙ ap (λ t. t ++ (handler ∷ under name subs)) same)))
      | inr e ↦ rw (under, e) (step ∙ (rw (subscribe, load, e) refl))
    ]

-- An event is published to the handlers that were subscribed to its name, in the order of their
-- subscriptions, and then to those that were subscribed to "*", in the order of theirs, none left
-- out, and a handler called once for each of its subscriptions. So a handler of all events comes
-- after the event's own ones even where it was subscribed first.
pub publish-subscribe_all :
    (name : Text) (subs : List (Text × ℕ))
    → publish name (subscribe_all subs []) ≡ under name subs ++ under (bytes "*") subs
unfolding publish load
publish-subscribe_all name subs =
    ap₂ (◌++◌) (load-subscribe_all name subs []) (load-subscribe_all (bytes "*") subs [])
