-- ===== src/Lru/Recent.antt =====
-- A least-recently-used cache that keeps the promise, for the witnesses and tests.
use caddy_dynamic_routing.Base.{
  ℕ, zero, suc, ◌+◌, ◌-◌, ◌≤◌, ◌<◌, length, ◌≡◌, ◌≢◌, ◌⊎◌, inl, inr, refl, ap, ◌↔◌, Option, none,
  some, List, [], ◌∷◌, map, Text, In, str_eq, str_eq_iff, str_eq_refl, str_eq→eq, if◌then◌else◌,
  arith, Bool-cases,
}
use caddy_dynamic_routing.Lru.{Lru}

module _ {V : Type 0} where
  unfoldable pub lookup : Text → List (Text × V) → Option V
  lookup k [] = none
  lookup k ((j, v) ∷ l) = if str_eq j k then some v else lookup k l

  unfoldable pub drop_key : Text → List (Text × V) → List (Text × V)
  drop_key k [] = []
  drop_key k ((j, v) ∷ l) = if str_eq j k then drop_key k l else (j, v) ∷ drop_key k l

  unfoldable pub first_entries : ℕ → List (Text × V) → List (Text × V)
  first_entries zero l = []
  first_entries (suc n) [] = []
  first_entries (suc n) (e ∷ l) = e ∷ first_entries n l

  lookup-drop_key :
      (j k : Text) (l : List (Text × V))
      → lookup j (drop_key k l) ≡ (if str_eq k j then none else lookup j l)
  unfolding lookup drop_key
  lookup-drop_key j k [] = ground arith
  lookup-drop_key j k ((i, v) ∷ l) =
      ground (arith, str_eq_iff i k, str_eq_iff k j, str_eq_iff i j, lookup-drop_key j k l)

  lookup-first_entries :
      (j : Text) (n : ℕ) (l : List (Text × V))
      → (lookup j (first_entries n l) ≡ lookup j l) ⊎ (lookup j (first_entries n l) ≡ none)
  unfolding lookup first_entries
  lookup-first_entries j zero l = inr refl
  lookup-first_entries j (suc n) [] = inl refl
  lookup-first_entries j (suc n) ((i, v) ∷ l) = ground (arith, lookup-first_entries j n l)

  length-drop_key : (k : Text) (l : List (Text × V)) → length (drop_key k l) ≤ length l
  unfolding drop_key
  length-drop_key k [] = omega arith
  length-drop_key k ((j, v) ∷ l) = ground (arith, length-drop_key k l)

  length-first_entries : (n : ℕ) (l : List (Text × V)) → length (first_entries n l) ≤ length l
  unfolding first_entries
  length-first_entries zero l = omega arith
  length-first_entries (suc n) [] = omega arith
  length-first_entries (suc n) (e ∷ l) = omega (arith, length-first_entries n l)

  -- Entries that are few enough are all among the first.
  first_entries_all : (n : ℕ) (l : List (Text × V)) → length l ≤ n → first_entries n l ≡ l
  unfolding first_entries
  first_entries_all zero [] h = refl
  first_entries_all zero (e ∷ l) h = absurd (omega arith)
  first_entries_all (suc n) [] h = refl
  first_entries_all (suc n) (e ∷ l) h = ap (λ t. e ∷ t) (first_entries_all n l (omega arith))

  pub lookup-In : (k : Text) (l : List (Text × V)) → In k (map (λ e. e.0) l) ↔ (lookup k l ≢ none)
  unfolding lookup
  lookup-In k [] = (λ m. elim m [ ], λ h. absurd (h refl))
  lookup-In k ((j, v) ∷ l) = (
    λ m. elim m [
      | inl e ↦ rw (e, str_eq_refl k) (λ h. cc)
      | inr i ↦ elim (Bool-cases (str_eq j k)) [
        | inl e ↦ rw e (λ h. cc)
        | inr e ↦ rw e ((lookup-In k l).0 i)
      ]
    ],
    λ h. elim (Bool-cases (str_eq j k)) [
      | inl e ↦ inl (str_eq→eq j k e)
      | inr e ↦ inr ((lookup-In k l).1 (rw e at h))
    ],
  )

pub record Store (V : Type 0) : Type 0 where
  pub spare : ℕ
  pub items : List (Text × V)

module _ {V : Type 0} where
  abbrev pub touch : Text → V → Store V → Store V
  touch k v s = record s { items = (k, v) ∷ first_entries s.spare (drop_key k s.items) }

  abbrev pub get_item : Text → Store V → Option V × Store V
  get_item k s = elim (lookup k s.items) [
    | none ↦ (none, s)
    | some v ↦ (some v, record s { items = (k, v) ∷ drop_key k s.items })
  ]

  pub touch_ne :
      (j k : Text) (v : V) (s : Store V)
      → j ≢ k
      → (lookup j (touch k v s).items ≡ lookup j s.items) ⊎ (lookup j (touch k v s).items ≡ none)
  unfolding lookup
  touch_ne j k v s h = ground (
    arith,
    str_eq_iff k j,
    lookup-first_entries j s.spare (drop_key k s.items),
    lookup-drop_key j k s.items,
  )

  pub touch_room :
      (j k : Text) (v : V) (s : Store V)
      → j ≢ k
      → length s.items < s.spare + 1
      → lookup j (touch k v s).items ≡ lookup j s.items
  unfolding lookup
  touch_room j k v s h l =
      let few : length (drop_key k s.items) ≤ s.spare = omega (arith, length-drop_key k s.items) in
      rw (first_entries_all s.spare (drop_key k s.items) few)
        (ground (arith, str_eq_iff k j, lookup-drop_key j k s.items))

  pub length-touch :
      (k : Text) (v : V) (s : Store V) → length (touch k v s).items ≤ length s.items + 1
  length-touch k v s =
      omega (arith, length-first_entries s.spare (drop_key k s.items), length-drop_key k s.items)

  pub remove_shorter : (k : Text) (s : Store V) → length (drop_key k s.items) ≤ length s.items
  remove_shorter k s = length-drop_key k s.items

  pub touch_self : (k : Text) (v : V) (s : Store V) → lookup k (touch k v s).items ≡ some v
  unfolding lookup
  touch_self k v s = rw (str_eq_refl k)

  pub get_item-lookup : (k : Text) (s : Store V) → (get_item k s).0 ≡ lookup k s.items
  get_item-lookup k s = ground arith

  pub lookup-get_item :
      (j k : Text) (s : Store V) → lookup j (get_item k s).1.items ≡ lookup j s.items
  unfolding lookup
  lookup-get_item j k s = ground (arith, lookup-drop_key j k s.items, str_eq_iff k j)

  pub drop_key_lem :
      (j k : Text) (s : Store V)
      → lookup j (drop_key k s.items) ≡ (if str_eq k j then none else lookup j s.items)
  drop_key_lem j k s = lookup-drop_key j k s.items

  pub lookup_nil : (k : Text) → ◌≡◌ {A = Option V} (lookup k []) none
  unfolding lookup
  lookup_nil k = refl

  abbrev pub recent : Lru V
  recent = record {
    Cache = Store V;
    new = λ n. record { spare = n - 1; items = [] };
    get = get_item;
    peek = λ k s. lookup k s.items;
    add = touch;
    remove = λ k s. record s { items = drop_key k s.items };
    purge = λ s. record s { items = [] };
    keys = λ s. map (λ e. e.0) s.items;
    len = λ s. length s.items;
    size = λ s. s.spare + 1;
    peek-new = λ n k. lookup_nil k;
    get-peek = get_item-lookup;
    peek-get = lookup-get_item;
    peek-add_self = touch_self;
    peek-add_ne = touch_ne;
    peek-remove = drop_key_lem;
    peek-purge = λ k c. lookup_nil k;
    mem-keys = λ k s. lookup-In k s.items;
    peek-add_room = touch_room;
    len-add = length-touch;
    size-add = λ k v s. refl;
    len-remove = remove_shorter;
    size-remove = λ k s. refl;
  }
