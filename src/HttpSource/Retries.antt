-- ===== src/HttpSource/Retries.antt =====
-- `fetch`: the requests of one call, and the answer.
use caddy_dynamic_routing.Base.{
  ℕ, zero, suc, ◌+◌, ◌≤◌, ◌<◌, ◌==◌, ◌≡◌, refl, sym, ap, ◌∙◌, Bool, true, false, not, ◌&&◌, Option,
  none, inl, inr, Bool-cases, arith,
}
use caddy_dynamic_routing.Config.{RouteConfig}
use caddy_dynamic_routing.Source.{Answer, failed, found}
use caddy_dynamic_routing.HttpSource.{Fetched, broken, not_found, fetched, fetch_from}

-- What an attempt that does not fail answers
abbrev pub IsSuccess : Fetched → Option RouteConfig → Type 0
IsSuccess broken config = ⊥
IsSuccess not_found config = config ≡ none
IsSuccess (fetched c) config = config ≡ c

-- All attempts from one number up to another, this one left out, fail.
abbrev pub AllBroken : (ℕ → Fetched) → ℕ → ℕ → Type 0
AllBroken try a b = (i : ℕ) → a ≤ i → i < b → try i ≡ broken

-- The outcome of the attempts `start`, ..., `end - 1`: the first that does not fail decides and is the
-- last; or all fail; or the context is done before a retry.
pub data IsFetch (try : ℕ → Fetched) (done : ℕ → Bool) (start end : ℕ) : Answer × ℕ → Type 0 where
  success :
      (i sent : ℕ) (config : Option RouteConfig)
      → start ≤ i
      → i < end
      → i + 1 ≡ start + sent
      → AllBroken try start i
      → IsSuccess (try i) config
      → IsFetch try done start end (found config, sent)
  exhausted :
      (sent : ℕ)
      → start + sent ≡ end
      → AllBroken try start end
      → IsFetch try done start end (failed, sent)
  cancelled :
      (i sent : ℕ)
      → start ≤ i
      → i < end
      → i ≡ start + sent
      → AllBroken try start i
      → done i ≡ true
      → IsFetch try done start end (failed, sent)

all_broken :
    (try : ℕ → Fetched) (a b : ℕ) → try a ≡ broken → AllBroken try (suc a) b → AllBroken try a b
all_broken try a b e h i p q = elim (Bool-cases (a == i)) [
  | inl s ↦ let same : a ≡ i = ground arith in ap try (sym same) ∙ e
  | inr s ↦ h i (ground arith) q
]

none_broken : (try : ℕ → Fetched) (a : ℕ) → AllBroken try a a
none_broken try a i p q = absurd (omega arith)

IsFetch-retry :
    (try : ℕ → Fetched) (done : ℕ → Bool) (start end : ℕ) (r : Answer × ℕ)
    → try start ≡ broken
    → IsFetch try done (suc start) end r
    → IsFetch try done start end (r.0, suc r.1)
IsFetch-retry try done start end r e (success i sent config p q s h k) =
    success i (suc sent) config (omega arith) q (omega arith) (all_broken try start i e h) k
IsFetch-retry try done start end r e (exhausted sent s h) =
    exhausted (suc sent) (omega arith) (all_broken try start end e h)
IsFetch-retry try done start end r e (cancelled i sent p q s h k) =
    cancelled i (suc sent) (omega arith) q (omega arith) (all_broken try start i e h) k

fetch_from_step :
    (try : ℕ → Fetched) (done : ℕ → Bool) (left start end : ℕ) (f : Fetched)
    → start < end
    → try start ≡ f
    → (not (start == 0) && done start) ≡ false
    → IsFetch try done (suc start) end (fetch_from try done (suc start) left)
    → IsFetch try done start end (fetch_from try done start (suc left))
unfolding fetch_from
fetch_from_step try done left start end broken l t e h =
    rw (fetch_from, e, t)
      (IsFetch-retry try done start end (fetch_from try done (suc start) left) t h)
fetch_from_step try done left start end not_found l t e h =
    let k : IsSuccess (try start) none = rw t refl in
    rw (fetch_from, e, t)
      (success start 1 none (omega arith) l (omega arith) (none_broken try start) k)
fetch_from_step try done left start end (fetched config) l t e h =
    let k : IsSuccess (try start) config = rw t refl in
    rw (fetch_from, e, t)
      (success start 1 config (omega arith) l (omega arith) (none_broken try start) k)

-- `fetch` sends at most one request for each attempt, one after another. The first attempt that does
-- not fail ends it: its configuration is the answer, or none for the status 404, and no request
-- follows. It fails only after all attempts have failed, or where the context is done before a retry.
pub fetch_from-IsFetch :
    (try : ℕ → Fetched) (done : ℕ → Bool) (left start end : ℕ)
    → start + left ≡ end
    → IsFetch try done start end (fetch_from try done start left)
unfolding fetch_from
fetch_from-IsFetch try done zero start end h =
    exhausted 0 (omega arith) (λ i p q. absurd (omega arith))
fetch_from-IsFetch try done (suc left) start end h =
    elim (Bool-cases (not (start == 0) && done start)) [
      | inl e ↦
          rw (fetch_from, e)
            (cancelled start 0 (omega arith) (omega arith) (omega arith) (none_broken try start)
              (ground arith))
      | inr e ↦
          fetch_from_step try done left start end (try start) (omega arith) refl e
            (fetch_from-IsFetch try done left (suc start) end (omega arith))
    ]
