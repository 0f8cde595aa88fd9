-- ===== src/Composite/Awaited.antt =====
-- `getPriorityParallel`: the order of arrival does not matter, though the loop stops early.
use caddy_dynamic_routing.Base.{
  ℕ, zero, suc, ◌+◌, ◌≡◌, ◌≢◌, refl, sym, ap, ◌∙◌, Bool, true, false, List, [], ◌∷◌, map, Option,
  none, some, inl, inr, arith, Bool-cases, All, IsOrdered, length, ltb,
}
use mathlib.Core.List.{Permᴰ}
use caddy_dynamic_routing.Config.{RouteConfig}
use caddy_dynamic_routing.Source.{Answer, failed, found, config_of}
use caddy_dynamic_routing.Composite.{
  nils, get_priority, note, first_noted, first_or, await, priority_arrivals,
}
use caddy_dynamic_routing.Composite.Arrival.{
  indexed, Apart, Slots, run, run-perm, run-indexed, note_comm, note_shift, note_start,
  indexed-IsOrdered, IsOrdered-perm,
}

abbrev note_all : List (ℕ × Answer) → Slots → Slots
note_all = run note note_comm note_shift note_start

-- Once the first source has a configuration, no other answer of it is to come.
abbrev Settled : Slots → List (ℕ × Answer) → Type 0
Settled [] rs = Unit
Settled (none ∷ cs) rs = Unit
Settled (some c ∷ cs) rs = All (λ r. r.0 ≢ 0) rs

note-Settled :
    (cs : Slots) (r : ℕ × Answer) (rs : List (ℕ × Answer))
    → All (Apart r) rs
    → Settled cs (r ∷ rs)
    → Settled (note r cs) rs
unfolding note
note-Settled [] (i, failed) rs h k = tt
note-Settled [] (i, found none) rs h k = tt
note-Settled [] (i, found (some c)) rs h k = tt
note-Settled (none ∷ cs) (i, failed) rs h k = tt
note-Settled (none ∷ cs) (i, found none) rs h k = tt
note-Settled (none ∷ cs) (zero, found (some c)) rs h k = later rs h
  where
    later : (qs : List (ℕ × Answer)) → All (Apart (0, found (some c))) qs → All (λ r. r.0 ≢ 0) qs
    later [] a = tt
    later (q ∷ qs) (n, a) = (λ e. n (sym e), later qs a)
note-Settled (none ∷ cs) (suc i, found (some c)) rs h k = tt
note-Settled (some d ∷ cs) (i, failed) rs h k = k.1
note-Settled (some d ∷ cs) (i, found none) rs h k = k.1
note-Settled (some d ∷ cs) (zero, found (some c)) rs h k = k.1
note-Settled (some d ∷ cs) (suc i, found (some c)) rs h k = k.1

-- Answers of other sources leave the first one's configuration.
note_all-head :
    (rs : List (ℕ × Answer)) (c : RouteConfig) (cs : Slots)
    → All (λ r. r.0 ≢ 0) rs
    → (ds : Slots) × (note_all rs (some c ∷ cs) ≡ some c ∷ ds)
unfolding run
note_all-head [] c cs h = (cs, refl)
note_all-head ((zero, a) ∷ rs) c cs (n, h) = absurd (n refl)
note_all-head ((suc i, a) ∷ rs) c cs (n, h) =
    let (ds, e) = note_all-head rs c (note (i, a) cs) h in
    (ds, ap (note_all rs) (note_shift i a (some c) cs) ∙ e)

first_noted-some : (b : Bool) (c : RouteConfig) (cs : Slots) → first_noted b (some c ∷ cs) ≡ some c
unfolding first_noted
first_noted-some b c cs = refl

first_or-early :
    (cs : Slots) (rs : List (ℕ × Answer)) (rest : Option RouteConfig)
    → Settled cs rs
    → rest ≡ first_noted true (note_all rs cs)
    → first_or (first_noted false cs) rest ≡ first_noted true (note_all rs cs)
unfolding first_noted
first_or-early [] rs rest s h = h
first_or-early (none ∷ cs) rs rest s h = h
first_or-early (some c ∷ cs) rs rest s h =
    let (ds, e) = note_all-head rs c cs s in sym (ap (first_noted true) e)

first_or-same : (o : Option RouteConfig) → first_or o o ≡ o
first_or-same none = refl
first_or-same (some c) = refl

await-last :
    (n k : ℕ) (rs : List (ℕ × Answer)) (cs : Slots)
    → length rs ≡ 0
    → first_or (first_noted true cs) (await n k cs rs) ≡ first_noted true (note_all rs cs)
unfolding await run
await-last n k [] cs h = first_or-same (first_noted true cs)
await-last n k (r ∷ rs) cs h = absurd (omega arith)

await_lem :
    (n k : ℕ) (rs : List (ℕ × Answer)) (cs : Slots)
    → k + length rs ≡ n
    → IsOrdered Apart rs
    → Settled cs rs
    → await n k cs rs ≡ first_noted true (note_all rs cs)
unfolding await run
await_lem n k [] cs h o s = refl
await_lem n k (r ∷ rs) cs h (a, o) s =
    let settled = note-Settled cs r rs a s in
    elim (Bool-cases (ltb (suc k) n)) [
      | inl e ↦
          rw (await, e)
            (first_or-early (note r cs) rs (await n (suc k) (note r cs) rs) settled
              (await_lem n (suc k) rs (note r cs) (omega arith) o settled))
      | inr e ↦ rw (await, e) (await-last n (suc k) rs (note r cs) (ground arith))
    ]

first_noted-answers : (xs : List Answer) → first_noted true (map config_of xs) ≡ get_priority xs
unfolding first_noted get_priority
first_noted-answers [] = refl
first_noted-answers (failed ∷ xs) = first_noted-answers xs
first_noted-answers (found none ∷ xs) = first_noted-answers xs
first_noted-answers (found (some c) ∷ xs) = refl

length-indexed : (k : ℕ) (xs : List Answer) → length (indexed k xs) ≡ length xs
unfolding indexed
length-indexed k [] = refl
length-indexed k (a ∷ xs) = ap suc (length-indexed (suc k) xs)

length-perm : {xs ys : List (ℕ × Answer)} → Permᴰ xs ys → length xs ≡ length ys
length-perm Permᴰ.nil = refl
length-perm (Permᴰ.cons e p) = ap suc (length-perm p)
length-perm (Permᴰ.swap e f) = refl
length-perm (Permᴰ.trans p q) = length-perm p ∙ length-perm q

nils-Settled : (n : ℕ) (rs : List (ℕ × Answer)) → Settled (nils n) rs
unfolding nils
nils-Settled zero rs = tt
nils-Settled (suc n) rs = tt

-- In whatever order the sources' answers arrive, and although it stops as soon as the first source
-- has answered with a configuration, the parallel priority mode gives what asking one source after
-- another gives.
pub priority_arrivals_lem :
    (xs : List Answer) (rs : List (ℕ × Answer))
    → Permᴰ (indexed 0 xs) rs
    → priority_arrivals (length xs) rs ≡ get_priority xs
unfolding priority_arrivals
priority_arrivals_lem xs rs p =
    await_lem (length xs) 0 rs (nils (length xs))
      (omega (arith, length-perm p, length-indexed 0 xs))
      (IsOrdered-perm p (indexed-IsOrdered 0 xs)) (nils-Settled (length xs) rs)
    ∙ ap (first_noted true) (
        sym (
          run-perm note note_comm note_shift note_start p (indexed-IsOrdered 0 xs)
            (nils (length xs)))
        ∙ run-indexed note note_comm note_shift note_start xs)
    ∙ first_noted-answers xs
