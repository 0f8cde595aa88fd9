-- ===== src/Base/Texts.antt =====
-- Lists of texts as sets: membership as a test, and the first occurrences.
use mathlib.Core.Path.{◌≡◌, refl, sym, subst}
use mathlib.Core.Logic.{◌⊎◌, ◌↔◌, inl, inr}
use mathlib.Core.Bool.{Bool, true, false}
use mathlib.Core.List.{List, [], ◌∷◌}
use caddy_dynamic_routing.Base.Tests.{if◌then◌else◌, Bool-cases}
use caddy_dynamic_routing.Base.Lists.{In}
use caddy_dynamic_routing.Base.Strings.{Text, str_eq, str_eq→eq, str_eq_refl, str_ne→ne}

-- `m[x]` for a map to Booleans, its keys with the value true in a list
unfoldable pub has : Text → List Text → Bool
has x [] = false
has x (y ∷ ys) = let rest = has x ys in if str_eq y x then true else rest

-- The loop that leaves out what has been seen
unfoldable pub dedupe : List Text → List Text → List Text
dedupe seen [] = []
dedupe seen (u ∷ us) =
    let old = dedupe seen us in
    let new = u ∷ dedupe (u ∷ seen) us in if has u seen then old else new

pub has→In : (x : Text) (ys : List Text) → has x ys ≡ true → In x ys
unfolding has
has→In x [] h = absurd (cc)
has→In x (y ∷ ys) h = elim (Bool-cases (str_eq y x)) [
  | inl e ↦ inl (str_eq→eq y x e)
  | inr e ↦ inr (has→In x ys (rw (has, e) at h))
]

pub In→has : (x : Text) (ys : List Text) → In x ys → has x ys ≡ true
unfolding has
In→has x [] h = elim h [ ]
In→has x (y ∷ ys) (inl e) =
    let same : str_eq y x ≡ true = rw e (str_eq_refl x) in rw (has, same) refl
In→has x (y ∷ ys) (inr m) = elim (Bool-cases (str_eq y x)) [
  | inl e ↦ rw (has, e) refl
  | inr e ↦ rw (has, e) (In→has x ys m)
]

-- No text of the list occurs again behind.
abbrev pub IsDistinct : List Text → Type 0
IsDistinct [] = Unit
IsDistinct (x ∷ xs) = (In x xs → ⊥) × IsDistinct xs

not_has : (x : Text) (ys : List Text) → has x ys ≡ false → In x ys → ⊥
not_has x ys e m = absurd (cc (e, In→has x ys m))

In-dedupe→ : (seen us : List Text) (x : Text) → In x (dedupe seen us) → In x us × (In x seen → ⊥)
unfolding dedupe
In-dedupe→ seen [] x h = elim h [ ]
In-dedupe→ seen (u ∷ us) x h = elim (Bool-cases (has u seen)) [
  | inl e ↦ let (a, b) = In-dedupe→ seen us x (rw (dedupe, e) at h) in (inr a, b)
  | inr e ↦
      let rest = In-dedupe→ (u ∷ seen) us x in
      let m : (u ≡ x) ⊎ In x (dedupe (u ∷ seen) us) = rw (dedupe, e) at h in
      elim m [
        | inl p ↦ (inl p, λ n. not_has u seen e (subst (λ t. In t seen) (sym p) n))
        | inr n ↦ (inr (rest n).0, λ k. (rest n).1 (inr k))
      ]
]

In→dedupe : (seen us : List Text) (x : Text) → In x us → (In x seen → ⊥) → In x (dedupe seen us)
unfolding dedupe
In→dedupe seen [] x h k = elim h [ ]
In→dedupe seen (u ∷ us) x h k = elim (Bool-cases (has u seen)) [
  | inl e ↦
      rw (dedupe, e)
        (elim h [
          | inl p ↦ absurd (k (subst (λ t. In t seen) p (has→In u seen e)))
          | inr m ↦ In→dedupe seen us x m k
        ])
  | inr e ↦
      rw (dedupe, e)
        (elim (Bool-cases (str_eq u x)) [
          | inl f ↦ inl (str_eq→eq u x f)
          | inr f ↦ elim h [
            | inl p ↦ inl p
            | inr m ↦ inr (
                In→dedupe (u ∷ seen) us x m
                  (λ n. elim n [ inl p ↦ str_ne→ne u x f p | inr q ↦ k q ]))
          ]
        ])
]

dedupe-IsDistinct : (seen us : List Text) → IsDistinct (dedupe seen us)
unfolding dedupe
dedupe-IsDistinct seen [] = tt
dedupe-IsDistinct seen (u ∷ us) = elim (Bool-cases (has u seen)) [
  | inl e ↦ rw (dedupe, e) (dedupe-IsDistinct seen us)
  | inr e ↦
      rw (dedupe, e)
        (λ m. (In-dedupe→ (u ∷ seen) us u m).1 (inl refl), dedupe-IsDistinct (u ∷ seen) us)
]

-- The first occurrences of a list: no text twice, and the texts of the list.
pub dedupe_lem :
    (us : List Text) → IsDistinct (dedupe [] us) × ((x : Text) → In x (dedupe [] us) ↔ In x us)
dedupe_lem us = (
  dedupe-IsDistinct [] us,
  λ x. (λ m. (In-dedupe→ [] us x m).0, λ m. In→dedupe [] us x m (λ n. n)),
)
