-- ===== src/Selector/Smooth/Argmax.antt =====
-- What one pass of the smooth round-robin's loop computes, apart.
use caddy_dynamic_routing.Base.{
  ℕ, suc, ◌+◌, ◌<◌, ◌≡◌, refl, ap, true, false, List, [], ◌∷◌, Option, none, some, arith,
  if◌then◌else◌, get_elem?, ltb, ltb→lt, ◌-◌, Bool-cases, inl, inr,
}
use caddy_dynamic_routing.Base.Int.{ℤ, ◌+ℤ◌, ltb_ℤ}
use caddy_dynamic_routing.Selector.Smooth.{Round, scan}

unfoldable pub raise : List ℤ → List ℤ → List ℤ
raise (w ∷ ws) (c ∷ cs) = (c +ℤ w) ∷ raise ws cs
raise _ _ = []

unfoldable pub total_from : List ℤ → List ℤ → ℤ → ℤ
total_from (w ∷ ws) (c ∷ cs) total = total_from ws cs (total +ℤ w)
total_from _ _ total = total

unfoldable pub argmax : ℕ → List ℤ → ℕ → ℤ → ℕ
argmax i [] m high = m
argmax i (c ∷ cs) m high =
    argmax (i + 1) cs (if ltb_ℤ high c then i else m) (if ltb_ℤ high c then c else high)

pub scan_lem :
    (ws cs : List ℤ) (i : ℕ) (total : ℤ) (m : ℕ) (high : ℤ)
    → scan i ws cs total m high ≡ record {
      current = raise ws cs;
      total = total_from ws cs total;
      max_idx = argmax i (raise ws cs) m high;
    }
unfolding scan raise total_from argmax
scan_lem [] cs i total m high = refl
scan_lem (w ∷ ws) [] i total m high = refl
scan_lem (w ∷ ws) (c ∷ cs) i total m high =
    ap (λ (r : Round). record r { current = (c +ℤ w) ∷ r.current })
      (scan_lem ws cs (i + 1) (total +ℤ w) _ _)

-- No entry is above `v`.
abbrev pub IsMax : List ℤ → ℤ → Type 0
IsMax l v = (j : ℕ) (x : ℤ) → get_elem? l j ≡ some x → ltb_ℤ v x ≡ false

module _ (l : List ℤ) where
  IsSuffix : ℕ → List ℤ → Type 0
  IsSuffix i rest = (j : ℕ) → get_elem? l (i + j) ≡ get_elem? rest j

  IsBelow : ℕ → ℤ → Type 0
  IsBelow i v = (j : ℕ) (x : ℤ) → j < i → get_elem? l j ≡ some x → ltb_ℤ v x ≡ false

  head_elem : (c : ℤ) (rest : List ℤ) (i : ℕ) → IsSuffix i (c ∷ rest) → get_elem? l i ≡ some c
  unfolding IsSuffix
  head_elem c rest i h = let e : i + 0 ≡ i = omega arith in rw e at (h 0)

  tail_IsSuffix : (c : ℤ) (rest : List ℤ) (i : ℕ) → IsSuffix i (c ∷ rest) → IsSuffix (i + 1) rest
  unfolding IsSuffix
  tail_IsSuffix c rest i h j = let e : i + 1 + j ≡ i + suc j = omega arith in rw e (h (suc j))

  IsMax-end : (i : ℕ) (v : ℤ) → IsSuffix i [] → IsBelow i v → IsMax l v
  unfolding IsSuffix IsBelow
  IsMax-end i v h b j x e = elim (Bool-cases (ltb j i)) [
    | inl p ↦ b j x (ltb→lt j i p) e
    | inr p ↦
        let q : i + (j - i) ≡ j = ground arith in
        let n : get_elem? l j ≡ none = rw q at (h (j - i)) in absurd (cc)
  ]

  IsBelow-next :
      (c high v : ℤ) (rest : List ℤ) (i : ℕ)
      → IsSuffix i (c ∷ rest)
      → IsBelow i high
      → ltb_ℤ v high ≡ false
      → ltb_ℤ v c ≡ false
      → IsBelow (i + 1) v
  unfolding IsBelow
  IsBelow-next c high v rest i h b p q j x lt e = elim (Bool-cases (ltb j i)) [
    | inl r ↦ let before = b j x (ltb→lt j i r) e in ground arith
    | inr r ↦
        let same : j ≡ i = ground arith in
        let at : get_elem? l i ≡ some x = rw same at e in
        let mine = head_elem c rest i h in let e' : c ≡ x = ground arith in rw e' at q
  ]

  -- `rest` is what the list holds from the index `i` on, and `high`, its entry at `m`, is the highest
  -- before it.
  argmax-IsMax :
      (rest : List ℤ) (i m : ℕ) (high : ℤ)
      → IsSuffix i rest
      → get_elem? l m ≡ some high
      → IsBelow i high
      → (v : ℤ) × (get_elem? l (argmax i rest m high) ≡ some v) × IsMax l v
  unfolding argmax
  argmax-IsMax [] i m high suffix here bound = (high, here, IsMax-end i high suffix bound)
  argmax-IsMax (c ∷ rest) i m high suffix here bound = elim (Bool-cases (ltb_ℤ high c)) [
    | inl e ↦ rw e (
        argmax-IsMax rest (i + 1) i c (tail_IsSuffix c rest i suffix) (head_elem c rest i suffix)
          (IsBelow-next c high c rest i suffix bound (ground arith) (ground arith)))
    | inr e ↦ rw e (
        argmax-IsMax rest (i + 1) m high (tail_IsSuffix c rest i suffix) here
          (IsBelow-next c high high rest i suffix bound (ground arith) e))
  ]

-- A first entry above the starting value makes the result the index of the highest entry.
pub argmax_lem :
    (c : ℤ) (l : List ℤ) (high : ℤ)
    → ltb_ℤ high c ≡ true
    → (v : ℤ) × (get_elem? (c ∷ l) (argmax 0 (c ∷ l) 0 high) ≡ some v) × IsMax (c ∷ l) v
unfolding argmax IsSuffix IsBelow
argmax_lem c l high h = rw h (
    argmax-IsMax (c ∷ l) l 1 0 c (λ j. let e : 1 + j ≡ suc j = omega arith in rw e) refl
      (λ j x lt e.
        let z : j ≡ 0 = omega arith in
        let e' : ◌≡◌ {A = Option ℤ} (some c) (some x) = rw z at e in ground arith))
