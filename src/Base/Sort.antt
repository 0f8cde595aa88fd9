-- ===== src/Base/Sort.antt =====
-- `sort.Slice` and its kin: the order of equal entries is not specified, so a sort is a parameter
-- with what its documentation promises. Insertion sort is one that keeps the promise.
use caddy_dynamic_routing.Base.{
  Bool, true, false, List, [], ◌∷◌, ◌≡◌, refl, All, All-perm, perm_refl, IsOrdered, Bool-cases, inl,
  inr, if◌then◌else◌,
}
use mathlib.Core.List.{Permᴰ}

-- The requirement on `less`: it is a strict weak order.
pub record IsWeakOrder {A : Type 0} (less : A → A → Bool) : Type 0 where
  pub asym : (a b : A) → less a b ≡ true → less b a ≡ false
  pub trans_not : (a b c : A) → less b a ≡ false → less c b ≡ false → less c a ≡ false

pub record SortSlice (A : Type 0) : Type 0 where
  pub sort : (A → A → Bool) → List A → List A
  pub sort-perm : (less : A → A → Bool) (xs : List A) → Permᴰ xs (sort less xs)
  pub sort-IsOrdered :
      (less : A → A → Bool) (xs : List A)
      → IsWeakOrder less
      → IsOrdered (λ a b. less b a ≡ false) (sort less xs)

module _ {A : Type 0} (less : A → A → Bool) where
  unfoldable pub insert : A → List A → List A
  insert x [] = x ∷ []
  insert x (y ∷ ys) = if less y x then y ∷ insert x ys else x ∷ y ∷ ys

  unfoldable pub insertion_sort : List A → List A
  unfolding insert
  insertion_sort [] = []
  insertion_sort (x ∷ xs) = insert x (insertion_sort xs)

  insert-perm : (x : A) (ys : List A) → Permᴰ (x ∷ ys) (insert x ys)
  unfolding insert
  insert-perm x [] = perm_refl _
  insert-perm x (y ∷ ys) = elim (Bool-cases (less y x)) [
    | inl e ↦ rw e (Permᴰ.trans (Permᴰ.swap refl refl) (Permᴰ.cons refl (insert-perm x ys)))
    | inr e ↦ rw e (perm_refl _)
  ]

  pub insertion_sort-perm : (xs : List A) → Permᴰ xs (insertion_sort xs)
  unfolding insertion_sort
  insertion_sort-perm [] = Permᴰ.nil
  insertion_sort-perm (x ∷ xs) =
      Permᴰ.trans (Permᴰ.cons refl (insertion_sort-perm xs)) (insert-perm x (insertion_sort xs))

  module _ (o : IsWeakOrder less) where
    All-below :
        (x y : A) (ys : List A)
        → less y x ≡ false
        → All (λ b. less b y ≡ false) ys
        → All (λ b. less b x ≡ false) ys
    All-below x y [] h k = tt
    All-below x y (z ∷ zs) h (p, k) = (o.trans_not x y z h p, All-below x y zs h k)

    insert-IsOrdered :
        (x : A) (ys : List A)
        → IsOrdered (λ a b. less b a ≡ false) ys
        → IsOrdered (λ a b. less b a ≡ false) (insert x ys)
    unfolding insert
    insert-IsOrdered x [] h = (tt, tt)
    insert-IsOrdered x (y ∷ ys) (p, h) = elim (Bool-cases (less y x)) [
      | inl e ↦ rw e (
        All-perm (λ b. less b y ≡ false) (insert-perm x ys) (o.asym y x e, p),
        insert-IsOrdered x ys h,
      )
      | inr e ↦ rw e ((e, All-below x y ys e p), (p, h))
    ]

    pub insertion_sort-IsOrdered :
        (xs : List A) → IsOrdered (λ a b. less b a ≡ false) (insertion_sort xs)
    unfolding insertion_sort
    insertion_sort-IsOrdered [] = tt
    insertion_sort-IsOrdered (x ∷ xs) =
        insert-IsOrdered x (insertion_sort xs) (insertion_sort-IsOrdered xs)

abbrev pub by_insertion : {A : Type 0} → SortSlice A
by_insertion = record {
  sort = insertion_sort;
  sort-perm = insertion_sort-perm;
  sort-IsOrdered = λ less xs o. insertion_sort-IsOrdered less o xs;
}
