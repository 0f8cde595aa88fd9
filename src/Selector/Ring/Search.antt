-- ===== src/Selector/Ring/Search.antt =====
-- `sort.Search` of Go's library: the binary search for the first index at which a test holds.
use caddy_dynamic_routing.Base.{
  ℕ, zero, suc, ◌+◌, ◌/◌, ◌≤◌, ◌<◌, ◌≡◌, Bool, true, false, arith, Bool-cases, inl, inr, ltb,
}

unfoldable pub search : ℕ → (ℕ → Bool) → ℕ → ℕ → ℕ
search zero f i j = i
search (suc fuel) f i j = elim (ltb i j) [
  | false ↦ i
  | true ↦ elim (f ((i + j) / 2)) [
    | false ↦ search fuel f ((i + j) / 2 + 1) j
    | true ↦ search fuel f i ((i + j) / 2)
  ]
]

-- The test fails below the index and holds from it on.
pub record IsFirst (f : ℕ → Bool) (n r : ℕ) : Type 0 where
  pub below : (k : ℕ) → k < r → f k ≡ false
  pub above : (k : ℕ) → r ≤ k → k < n → f k ≡ true
  pub bound : r ≤ n

module _ (f : ℕ → Bool) (n : ℕ) (mono : (k l : ℕ) → k ≤ l → l < n → f k ≡ true → f l ≡ true) where
  false_below : (l k : ℕ) → k ≤ l → l < n → f l ≡ false → f k ≡ false
  false_below l k a b e = elim (Bool-cases (f k)) [
    | inr g ↦ g
    | inl g ↦ absurd (ground (arith, mono k l a b g))
  ]

  search-IsFirst :
      (fuel i j : ℕ)
      → i ≤ j
      → j ≤ n
      → j ≤ i + fuel
      → ((k : ℕ) → k < i → f k ≡ false)
      → ((k : ℕ) → j ≤ k → k < n → f k ≡ true)
      → IsFirst f n (search fuel f i j)
  unfolding search
  search-IsFirst zero i j a b c below above = record {
    below = below;
    above = λ k p q. above k (omega arith) q;
    bound = omega arith;
  }
  search-IsFirst (suc fuel) i j a b c below above = elim (Bool-cases (ltb i j)) [
    | inr e ↦
        rw (e, search)
          (record { below = below; above = λ k p q. above k (ground arith) q; bound = omega arith })
    | inl e ↦ elim (Bool-cases (f ((i + j) / 2))) [
      | inr e' ↦
          rw (e, e', search)
            (search-IsFirst fuel ((i + j) / 2 + 1) j (ground arith) b (ground arith)
              (λ k p. false_below ((i + j) / 2) k (omega arith) (ground arith) e') above)
      | inl e' ↦
          rw (e, e', search)
            (search-IsFirst fuel i ((i + j) / 2) (ground arith) (ground arith) (ground arith) below
              (λ k p q. mono ((i + j) / 2) k p q e'))
    ]
  ]

  -- On a test that stays true once it holds, `n` rounds are enough, and the result is the first
  -- index at which it holds, or `n`.
  pub search_lem : IsFirst f n (search n f 0 n)
  search_lem =
      search-IsFirst n 0 n (omega arith) (omega arith) (omega arith) (λ k p. absurd (omega arith))
        (λ k p q. absurd (omega arith))
