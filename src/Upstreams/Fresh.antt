-- ===== src/Upstreams/Fresh.antt =====
-- `GetUpstreams`: what is served, from the cache or not, is what the source answered.
use caddy_dynamic_routing.Base.{
  ℕ, ◌≤◌, ◌≡◌, ◌⊎◌, refl, ap, true, List, [], ◌∷◌, Option, none, some, Text, inl, inr, Bool-cases,
  Option-cases, str_eq, str_eq→eq,
}
use mathlib.Core.Path.{subst}
use caddy_dynamic_routing.Base.Maps.{load}
use caddy_dynamic_routing.Base.Int.{ℤ, ltb_ℤ}
use caddy_dynamic_routing.Config.{RouteConfig, since}
use caddy_dynamic_routing.Source.{Answer, failed, found}
use caddy_dynamic_routing.Upstreams.{
  Cached, Times, Returned, config_to_upstreams, fresh, use_answer, get_upstreams,
}

-- What the source answers for a key when it is asked at a time
module _ (source : ℕ → Text → Answer) where
  -- The list is what the source answered for the key, at the time or before.
  pub record IsAnswered (key : Text) (time : ℕ) (us : List Text) : Type 0 where
    pub asked : ℕ
    pub config : RouteConfig
    pub before : asked ≤ time
    pub answered : source asked key ≡ found (some config)
    pub converted : config_to_upstreams config ≡ us

  -- Every entry of the cache is an answer of the source, no younger than it says.
  abbrev pub IsBacked : List (Text × Cached) → Type 0
  IsBacked cache =
      (key : Text) (c : Cached) → load key cache ≡ some c → IsAnswered key c.last_update c.upstreams

  -- The list is an entry of the cache, younger than the interval at one of the two looks at it or
  -- returned since the source failed; or the source was asked, and it is its answer.
  pub data IsServed (interval : ℤ) (key : Text) (times : Times) (asked : ℕ)
      (cache : List (Text × Cached)) : List Text → Type 0 where
    young :
        (c : Cached)
        → load key cache ≡ some c
        → (ltb_ℤ (since times.checked c.last_update) interval ≡ true)
          ⊎ (ltb_ℤ (since times.rechecked c.last_update) interval ≡ true)
        → IsServed interval key times asked cache c.upstreams
    stale :
        (c : Cached)
        → load key cache ≡ some c
        → source asked key ≡ failed
        → IsServed interval key times asked cache c.upstreams
    no_route : source asked key ≡ found none → IsServed interval key times asked cache []
    anew :
        (config : RouteConfig)
        → source asked key ≡ found (some config)
        → IsServed interval key times asked cache (config_to_upstreams config)

  -- What a call returns: an error only where the source failed and no entry stands for the key
  abbrev pub IsReturned : ℤ → Text → Times → ℕ → List (Text × Cached) → Option (List Text) → Type 0
  IsReturned interval key times asked cache none =
      (source asked key ≡ failed) × (load key cache ≡ none)
  IsReturned interval key times asked cache (some us) = IsServed interval key times asked cache us

  -- What a call returns and leaves is right.
  abbrev IsRight : ℤ → Text → Times → ℕ → List (Text × Cached) → Returned → Type 0
  IsRight interval key times asked cache r =
      IsReturned interval key times asked cache r.0 × IsBacked r.1

  -- An entry that is put in front is backed, and the others are as before.
  IsBacked-put :
      (key : Text) (c : Cached) (cache : List (Text × Cached))
      → IsAnswered key c.last_update c.upstreams
      → IsBacked cache
      → IsBacked ((key, c) ∷ cache)
  unfolding load
  IsBacked-put key c cache a h k d e = elim (Bool-cases (str_eq key k)) [
    | inl p ↦
        let same : c ≡ d = ap (λ o. elim o [ none ↦ c | some v ↦ v ]) (rw (load, p) at e) in
        subst (λ j. IsAnswered j d.last_update d.upstreams) (str_eq→eq key k p)
          (subst (λ v. IsAnswered key v.last_update v.upstreams) same a)
    | inr p ↦ h k d (rw (load, p) at e)
  ]

  use_answer-IsRight :
      (interval : ℤ) (key : Text) (times : Times) (asked : ℕ) (answer : Answer)
      (cache : List (Text × Cached))
      → asked ≤ times.updated
      → source asked key ≡ answer
      → IsBacked cache
      → IsRight interval key times asked cache (use_answer times.updated key answer cache)
  unfolding use_answer
  use_answer-IsRight interval key times asked failed cache h e b =
      elim (Option-cases (load key cache)) [
        | inl n ↦ rw (use_answer, n) ((e, n), b)
        | inr (c, n) ↦ rw (use_answer, n) (stale c n e, b)
      ]
  use_answer-IsRight interval key times asked (found none) cache h e b = (no_route e, b)
  use_answer-IsRight interval key times asked (found (some config)) cache h e b = (
    anew config e,
    IsBacked-put key
        (record { upstreams = config_to_upstreams config; last_update = times.updated }) cache
        (record { asked = asked; config = config; before = h; answered = e; converted = refl }) b,
  )

  fresh-young :
      (interval : ℤ) (now : ℕ) (o : Option Cached) (us : List Text)
      → fresh interval now o ≡ some us
      → (c : Cached) × (o ≡ some c)
        × (ltb_ℤ (since now c.last_update) interval ≡ true)
        × (c.upstreams ≡ us)
  unfolding fresh
  fresh-young interval now none us h = absurd (cc)
  fresh-young interval now (some c) us h =
      elim (Bool-cases (ltb_ℤ (since now c.last_update) interval)) [
        | inl e ↦ (c, refl, e, ap (λ o. elim o [ none ↦ us | some v ↦ v ]) (rw (fresh, e) at h))
        | inr e ↦ absurd (cc (rw (fresh, e) at h))
      ]

  -- `GetUpstreams`, of a source that may change at any time. What a call serves is an entry of the
  -- cache that is younger than the refresh interval at one of the call's two looks at it, or what the
  -- source answers at the moment, no pool where it has no configuration, or, only where the source
  -- fails, an entry of any age; an error is returned only where the source fails and the cache has
  -- no entry. Every entry was answered by the source for its very key, at its time or before, and
  -- the call keeps this so.
  pub get_upstreams-IsReturned :
      (interval : ℤ) (key : Text) (times : Times) (asked : ℕ) (cache : List (Text × Cached))
      → asked ≤ times.updated
      → IsBacked cache
      → IsReturned interval key times asked cache
          (get_upstreams interval key times (source asked key) cache).0
        × IsBacked (get_upstreams interval key times (source asked key) cache).1
  unfolding get_upstreams
  get_upstreams-IsReturned interval key times asked cache h b =
      let answer = source asked key in
      elim (Option-cases (fresh interval times.checked (load key cache))) [
        | inr (us, e) ↦
            let (c, l, y, p) = fresh-young interval times.checked (load key cache) us e in
            rw (get_upstreams, e)
              (subst (IsServed interval key times asked cache) p (young c l (inl y)), b)
        | inl e ↦ elim (Option-cases (fresh interval times.rechecked (load key cache))) [
          | inr (us, f) ↦
              let (c, l, y, p) = fresh-young interval times.rechecked (load key cache) us f in
              rw (get_upstreams, e, f)
                (subst (IsServed interval key times asked cache) p (young c l (inr y)), b)
          | inl f ↦
              rw (get_upstreams, e, f)
                (use_answer-IsRight interval key times asked answer cache h refl b)
        ]
      ]
