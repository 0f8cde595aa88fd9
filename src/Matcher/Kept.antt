-- ===== src/Matcher/Kept.antt =====
-- `getSelector`: the selectors that the cache keeps.
use caddy_dynamic_routing.Base.{
  ℕ, zero, suc, ◌≡◌, refl, sym, ◌∙◌, List, [], ◌∷◌, ◌++◌, some, inl, inr, Text, arith, Option-cases,
  Bool-cases, str_eq, str_eq→eq, str_ne→ne, All, All-append, length, get_elem?,
}
use mathlib.Core.Path.{subst}
use caddy_dynamic_routing.Lru.{Lru}
use caddy_dynamic_routing.Selector.{Selector, new_selector}
use caddy_dynamic_routing.Matcher.{cache_key, Selectors, get_selector}

module _ (lru : Lru ℕ) where
  -- Every place that the cache holds is that of a selector made for the key.
  abbrev pub IsKeyed : Selectors lru → Type 0
  IsKeyed s =
      (k : Text) (i : ℕ)
      → lru.peek k s.cache ≡ some i
      → (sel : Selector) × (get_elem? s.made i ≡ some sel)
        × (cache_key sel.algorithm sel.hash_key ≡ k)

  get_elem?-snoc :
      (xs : List Selector) (y : Selector) → get_elem? (xs ++ (y ∷ [])) (length xs) ≡ some y
  get_elem?-snoc [] y = refl
  get_elem?-snoc (x ∷ xs) y = get_elem?-snoc xs y

  get_elem?-left :
      (xs ys : List Selector) (i : ℕ) (x : Selector)
      → get_elem? xs i ≡ some x
      → get_elem? (xs ++ ys) i ≡ some x
  get_elem?-left [] ys i x h = absurd (cc)
  get_elem?-left (z ∷ xs) ys zero x h = h
  get_elem?-left (z ∷ xs) ys (suc i) x h = get_elem?-left xs ys i x h

  new_selector_key :
      (a k : Text)
      → cache_key (new_selector a k).algorithm (new_selector a k).hash_key ≡ cache_key a k
  unfolding new_selector
  new_selector_key a k = refl

  IsKeyed-add :
      (a k : Text) (s : Selectors lru) (c : lru.Cache)
      → IsKeyed s
      → ((j : Text) → lru.peek j c ≡ lru.peek j s.cache)
      → IsKeyed (record {
        cache = lru.add (cache_key a k) (length s.made) c;
        made = s.made ++ (new_selector a k ∷ []);
      })
  IsKeyed-add a k s c h same j i e = elim (Bool-cases (str_eq j (cache_key a k))) [
    | inl f ↦
        let here = str_eq→eq j (cache_key a k) f in
        let at_end : i ≡ length s.made =
          ground (arith, lru.peek-add_self (cache_key a k) (length s.made) c) in
        (
          new_selector a k,
          subst (λ t. get_elem? (s.made ++ (new_selector a k ∷ [])) t ≡ some (new_selector a k))
              (sym at_end) (get_elem?-snoc s.made (new_selector a k)),
          new_selector_key a k ∙ sym here,
        )
    | inr f ↦
        elim (lru.peek-add_ne j (cache_key a k) (length s.made) c (str_ne→ne j (cache_key a k) f)) [
          | inl kept ↦
              let (sel, found, keyed) = h j i (sym (same j) ∙ sym kept ∙ e) in
              (sel, get_elem?-left s.made (new_selector a k ∷ []) i sel found, keyed)
          | inr gone ↦ absurd (cc)
        ]
  ]

  -- `getSelector` answers with a selector that was made for the same key, and leaves every place in
  -- the cache that of a selector made for its key.
  pub get_selector_lem :
      (a k : Text) (s : Selectors lru)
      → IsKeyed s
      → ((sel : Selector) × (get_elem? (get_selector lru a k s).1.made (get_selector lru a k s).0
            ≡ some sel)
          × (cache_key sel.algorithm sel.hash_key ≡ cache_key a k))
        × IsKeyed (get_selector lru a k s).1
  unfolding get_selector
  get_selector_lem a k s h = elim (Option-cases (lru.peek (cache_key a k) s.cache)) [
    | inl e ↦
        rw (get_selector, lru.get-peek (cache_key a k) s.cache, e)
          (
            (new_selector a k, get_elem?-snoc s.made (new_selector a k), new_selector_key a k),
            IsKeyed-add a k s (lru.get (cache_key a k) s.cache).1 h
                (λ j. lru.peek-get j (cache_key a k) s.cache),
          )
    | inr (i, e) ↦
        rw (get_selector, lru.get-peek (cache_key a k) s.cache, e)
          (h (cache_key a k) i e, λ j n f. h j n (sym (lru.peek-get j (cache_key a k) s.cache) ∙ f))
  ]

  get_selector-cached :
      (a k : Text) (s : Selectors lru) (i : ℕ)
      → lru.peek (cache_key a k) s.cache ≡ some i
      → ((get_selector lru a k s).0 ≡ i) × ((get_selector lru a k s).1.made ≡ s.made)
  unfolding get_selector
  get_selector-cached a k s i e =
      rw (get_selector, lru.get-peek (cache_key a k) s.cache, e) (refl, refl)

  peek-get_selector :
      (a k : Text) (s : Selectors lru)
      → lru.peek (cache_key a k) (get_selector lru a k s).1.cache ≡ some (get_selector lru a k s).0
  unfolding get_selector
  peek-get_selector a k s = elim (Option-cases (lru.peek (cache_key a k) s.cache)) [
    | inl e ↦
        rw (get_selector, lru.get-peek (cache_key a k) s.cache, e)
          (lru.peek-add_self (cache_key a k) (length s.made) (lru.get (cache_key a k) s.cache).1)
    | inr (i, e) ↦
        rw (get_selector, lru.get-peek (cache_key a k) s.cache, e)
          (lru.peek-get (cache_key a k) (cache_key a k) s.cache ∙ e)
  ]

  -- Asked again, `getSelector` answers with the same selector and makes no other, so the state of an
  -- algorithm is carried from one request to the next.
  pub get_selector-get_selector :
      (a k : Text) (s : Selectors lru)
      → ((get_selector lru a k (get_selector lru a k s).1).0 ≡ (get_selector lru a k s).0)
        × ((get_selector lru a k (get_selector lru a k s).1).1.made
            ≡ (get_selector lru a k s).1.made)
  get_selector-get_selector a k s =
      get_selector-cached a k (get_selector lru a k s).1 (get_selector lru a k s).0
        (peek-get_selector a k s)

  -- The selector that `getSelector` answers with is one of those at hand, or new.
  pub get_selector-All :
      (P : Selector → Type 0) (a k : Text) (s : Selectors lru)
      → P (new_selector a k)
      → All P s.made
      → All P (get_selector lru a k s).1.made
  unfolding get_selector
  get_selector-All P a k s p h = elim (Option-cases (lru.peek (cache_key a k) s.cache)) [
    | inl e ↦
        rw (get_selector, lru.get-peek (cache_key a k) s.cache, e)
          (All-append P s.made (new_selector a k ∷ []) h (p, tt))
    | inr (i, e) ↦ rw (get_selector, lru.get-peek (cache_key a k) s.cache, e) h
  ]
