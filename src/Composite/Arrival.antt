-- ===== src/Composite/Arrival.antt =====
-- The parallel modes: the order in which the answers arrive does not matter.
use caddy_dynamic_routing.Base.{
  ℕ, zero, suc, ◌<◌, ◌≡◌, ◌≢◌, refl, sym, ap, ◌∙◌, List, [], ◌∷◌, map, Option, none, some, arith,
  All, All-perm, IsOrdered, length, set,
}
use mathlib.Core.List.{Permᴰ}
use mathlib.Core.Path.{subst}
use caddy_dynamic_routing.Config.{RouteConfig}
use caddy_dynamic_routing.Source.{Answer, failed, found, config_of}
use caddy_dynamic_routing.Composite.{
  nils, place, place_all, merge_answers, merge_configs, merge_next, merge_arrivals, note,
}

-- The answers with their sources' indices
unfoldable pub indexed : ℕ → List Answer → List (ℕ × Answer)
indexed k [] = []
indexed k (a ∷ xs) = (k, a) ∷ indexed (suc k) xs

abbrev pub Apart : ℕ × Answer → ℕ × Answer → Type 0
Apart x y = x.0 ≢ y.0

pub IsOrdered-perm :
    {xs ys : List (ℕ × Answer)} → Permᴰ xs ys → IsOrdered Apart xs → IsOrdered Apart ys
IsOrdered-perm Permᴰ.nil h = tt
IsOrdered-perm (Permᴰ.cons {a = x} {b = y} {l₁ = xs} {l₂ = ys} e p) (a, h) =
    (subst (λ t. All (Apart t) ys) e (All-perm (Apart x) p a), IsOrdered-perm p h)
IsOrdered-perm (Permᴰ.swap {a = x} {b = y} {a' = y'} {b' = x'} {l = l} e f) ((n, al), (bl, h)) = (
  (λ q. n (ap (λ t. t.0) e ∙ sym q ∙ ap (λ t. t.0) (sym f)), subst (λ t. All (Apart t) l) f bl),
  (subst (λ t. All (Apart t) l) e al, h),
)
IsOrdered-perm (Permᴰ.trans p q) h = IsOrdered-perm q (IsOrdered-perm p h)

set_comm :
    (cs : List (Option RouteConfig)) (i j : ℕ) (u v : Option RouteConfig)
    → i ≢ j
    → set (set cs j v) i u ≡ set (set cs i u) j v
set_comm [] i j u v h = refl
set_comm (c ∷ cs) zero zero u v h = absurd (h refl)
set_comm (c ∷ cs) zero (suc j) u v h = refl
set_comm (c ∷ cs) (suc i) zero u v h = refl
set_comm (c ∷ cs) (suc i) (suc j) u v h = ap (λ t. c ∷ t) (set_comm cs i j u v (λ e. h (ap suc e)))

abbrev pub Slots : Type 0
Slots = List (Option RouteConfig)

module _ (step : ℕ × Answer → Slots → Slots)
    (comm : (x y : ℕ × Answer) (cs : Slots) → x.0 ≢ y.0 → step x (step y cs) ≡ step y (step x cs))
    (shift : (i : ℕ) (a : Answer) (c : Option RouteConfig) (cs : Slots)
      → step (suc i, a) (c ∷ cs) ≡ c ∷ step (i, a) cs)
    (start : (a : Answer) (cs : Slots) → step (0, a) (none ∷ cs) ≡ config_of a ∷ cs) where
  unfoldable pub run : List (ℕ × Answer) → Slots → Slots
  run [] cs = cs
  run (r ∷ rs) cs = run rs (step r cs)

  pub run-perm :
      {xs ys : List (ℕ × Answer)}
      → Permᴰ xs ys
      → IsOrdered Apart xs
      → (cs : Slots) → run xs cs ≡ run ys cs
  unfolding run
  run-perm Permᴰ.nil h cs = refl
  run-perm (Permᴰ.cons {a = x} {b = y} {l₁ = xs} {l₂ = ys} e p) (a, h) cs =
      run-perm p h (step x cs) ∙ ap (λ t. run ys (step t cs)) e
  run-perm (Permᴰ.swap {a = x} {b = y} {a' = y'} {b' = x'} {l = l} e f) h cs =
      ap (run l) (comm y x cs (λ q. h.0.0 (sym q)))
      ∙ ap (λ t. run l (step x (step t cs))) f
      ∙ ap (λ t. run l (step t (step y' cs))) e
  run-perm (Permᴰ.trans p q) h cs = run-perm p h cs ∙ run-perm q (IsOrdered-perm p h) cs

  run-shift :
      (k : ℕ) (xs : List Answer) (c : Option RouteConfig) (cs : Slots)
      → run (indexed (suc k) xs) (c ∷ cs) ≡ c ∷ run (indexed k xs) cs
  unfolding run indexed
  run-shift k [] c cs = refl
  run-shift k (a ∷ xs) c cs =
      ap (run (indexed (suc (suc k)) xs)) (shift k a c cs) ∙ run-shift (suc k) xs c (step (k, a) cs)

  pub run-indexed : (xs : List Answer) → run (indexed 0 xs) (nils (length xs)) ≡ map config_of xs
  unfolding run indexed nils
  run-indexed [] = refl
  run-indexed (a ∷ xs) =
      ap (run (indexed 1 xs)) (start a (nils (length xs)))
      ∙ run-shift 0 xs (config_of a) (nils (length xs))
      ∙ ap (λ t. config_of a ∷ t) (run-indexed xs)

module _ where
  place_comm :
      (x y : ℕ × Answer) (cs : Slots) → x.0 ≢ y.0 → place x (place y cs) ≡ place y (place x cs)
  unfolding place
  place_comm (i, failed) (j, b) cs h = refl
  place_comm (i, found c) (j, failed) cs h = refl
  place_comm (i, found c) (j, found d) cs h = set_comm cs i j c d h

  place_shift :
      (i : ℕ) (a : Answer) (c : Option RouteConfig) (cs : Slots)
      → place (suc i, a) (c ∷ cs) ≡ c ∷ place (i, a) cs
  unfolding place
  place_shift i failed c cs = refl
  place_shift i (found d) c cs = refl

  place_start : (a : Answer) (cs : Slots) → place (0, a) (none ∷ cs) ≡ config_of a ∷ cs
  unfolding place
  place_start failed cs = refl
  place_start (found d) cs = refl

  pub note_comm :
      (x y : ℕ × Answer) (cs : Slots) → x.0 ≢ y.0 → note x (note y cs) ≡ note y (note x cs)
  unfolding note
  note_comm (i, failed) (j, b) cs h = refl
  note_comm (i, found none) (j, b) cs h = refl
  note_comm (i, found (some c)) (j, failed) cs h = refl
  note_comm (i, found (some c)) (j, found none) cs h = refl
  note_comm (i, found (some c)) (j, found (some d)) cs h = set_comm cs i j (some c) (some d) h

  pub note_shift :
      (i : ℕ) (a : Answer) (c : Option RouteConfig) (cs : Slots)
      → note (suc i, a) (c ∷ cs) ≡ c ∷ note (i, a) cs
  unfolding note
  note_shift i failed c cs = refl
  note_shift i (found none) c cs = refl
  note_shift i (found (some d)) c cs = refl

  pub note_start : (a : Answer) (cs : Slots) → note (0, a) (none ∷ cs) ≡ config_of a ∷ cs
  unfolding note
  note_start failed cs = refl
  note_start (found none) cs = refl
  note_start (found (some d)) cs = refl

indexed-lt : (k j : ℕ) (xs : List Answer) (a : Answer) → j < k → All (Apart (j, a)) (indexed k xs)
unfolding indexed
indexed-lt k j [] a h = tt
indexed-lt k j (b ∷ xs) a h =
    (λ e. absurd (omega (arith, e)), indexed-lt (suc k) j xs a (omega arith))

pub indexed-IsOrdered : (k : ℕ) (xs : List Answer) → IsOrdered Apart (indexed k xs)
unfolding indexed
indexed-IsOrdered k [] = tt
indexed-IsOrdered k (a ∷ xs) =
    (indexed-lt (suc k) k xs a (omega arith), indexed-IsOrdered (suc k) xs)

place_all-run :
    (rs : List (ℕ × Answer)) (cs : Slots)
    → place_all rs cs ≡ run place place_comm place_shift place_start rs cs
unfolding place_all run
place_all-run [] cs = refl
place_all-run (r ∷ rs) cs = place_all-run rs (place r cs)

merge_configs-answers :
    (m : Option RouteConfig) (xs : List Answer)
    → merge_configs m (map config_of xs) ≡ merge_answers m xs
unfolding merge_configs merge_answers
merge_configs-answers m [] = refl
merge_configs-answers m (failed ∷ xs) = merge_configs-answers m xs
merge_configs-answers m (found none ∷ xs) = merge_configs-answers m xs
merge_configs-answers m (found (some c) ∷ xs) = merge_configs-answers (some (merge_next m c)) xs

-- In whatever order the sources' answers arrive, the parallel merge gives what the sequential one
-- gives.
pub merge_arrivals_lem :
    (xs : List Answer) (rs : List (ℕ × Answer))
    → Permᴰ (indexed 0 xs) rs
    → merge_arrivals (length xs) rs ≡ merge_answers none xs
unfolding merge_arrivals
merge_arrivals_lem xs rs p =
    ap (merge_configs none) (
      place_all-run rs (nils (length xs))
      ∙ sym (
          run-perm place place_comm place_shift place_start p (indexed-IsOrdered 0 xs)
            (nils (length xs)))
      ∙ run-indexed place place_comm place_shift place_start xs)
    ∙ merge_configs-answers none xs
