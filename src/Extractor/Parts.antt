-- ===== src/Extractor/Parts.antt =====
-- `parseExpression`: the parts make up the expression.
use caddy_dynamic_routing.Base.{
  append_nil, ℕ, suc, ◌+◌, ◌-◌, ◌==◌, ◌≡◌, ◌≤◌, ◌<◌, refl, sym, ap, ◌∙◌, true, List, [], ◌∷◌, ◌++◌,
  Option, none, some, Text, inl, inr, arith, Bool-cases, length, ltb,
}
use caddy_dynamic_routing.Base.Replace.{take, slice, drop, slice-append, drop_all}
use caddy_dynamic_routing.Extractor.{Part, find_from, literal, parse_matches, parse_expression}

-- The values of the parts, one after another
unfoldable pub written : List Part → Text
written [] = []
written (p ∷ ps) = p.value ++ written ps

-- Matches in order, within the text, from the position on
abbrev IsSpans : ℕ → List (ℕ × ℕ) → ℕ → Type 0
IsSpans low [] high = low ≤ high
IsSpans low ((a, b) ∷ ms) high = (low ≤ a) × (a < b) × IsSpans b ms high

IsSpans-low :
    (j i : ℕ) (ms : List (ℕ × ℕ)) (high : ℕ) → j ≤ i → IsSpans i ms high → IsSpans j ms high
IsSpans-low j i [] high h k = omega arith
IsSpans-low j i ((a, b) ∷ ms) high h (k, l, m) = (omega arith, l, m)

-- Where a scan stands: no brace is open, or one is, at a position before.
abbrev IsOpen : ℕ → Option ℕ → Type 0
IsOpen i none = 0 ≤ i
IsOpen i (some a) = a < i

abbrev low : ℕ → Option ℕ → ℕ
low i none = i
low i (some a) = a

-- A scan yields spans in order, from the open brace on, where there is one.
find_from-IsSpans :
    (s : Text) (i : ℕ) (start : Option ℕ)
    → IsOpen i start
    → IsSpans (low i start) (find_from i start s) (i + length s)
unfolding find_from
find_from-IsSpans [] i none h = omega arith
find_from-IsSpans [] i (some a) h = omega arith
find_from-IsSpans (c ∷ s) i none h =
    let e : i + suc (length s) ≡ suc i + length s = omega arith in
    rw e (elim (Bool-cases (c == b'{')) [
      | inl t ↦ rw t (find_from-IsSpans s (suc i) (some i) (omega arith))
      | inr f ↦ rw f (
          IsSpans-low i (suc i) (find_from (suc i) none s) (suc i + length s) (omega arith)
            (find_from-IsSpans s (suc i) none (omega arith)))
    ])
find_from-IsSpans (c ∷ s) i (some a) h =
    let e : i + suc (length s) ≡ suc i + length s = omega arith in
    let after = find_from-IsSpans s (suc i) none (omega arith) in
    rw e (elim (Bool-cases (c == b'}')) [
      | inl t ↦ rw t (elim (Bool-cases (i == suc a)) [
        | inl u ↦ rw u (
            IsSpans-low a (suc i) (find_from (suc i) none s) (suc i + length s) (omega arith) after)
        | inr v ↦ rw v (omega arith, omega arith, after)
      ])
      | inr f ↦ rw f (find_from-IsSpans s (suc i) (some a) (omega arith))
    ])

written-literal :
    (expr : Text) (a b : ℕ) (ps : List Part)
    → a ≤ b
    → written (literal expr a b ++ ps) ≡ slice expr a b ++ written ps
unfolding written slice take
written-literal expr a b ps h = elim (Bool-cases (ltb a b)) [
  | inl t ↦ rw t refl
  | inr f ↦ let e : b - a ≡ 0 = ground arith in rw (f, e) refl
]

parse_matches-written :
    (expr : Text) (last : ℕ) (ms : List (ℕ × ℕ))
    → IsSpans last ms (length expr)
    → written (parse_matches expr last ms) ≡ drop last expr
unfolding written parse_matches
parse_matches-written expr last [] h =
    ap written (sym (append_nil (literal expr last (length expr))))
    ∙ written-literal expr last (length expr) [] h
    ∙ ap (λ t. slice expr last (length expr) ++ t) (sym (drop_all expr))
    ∙ slice-append expr last (length expr) h
parse_matches-written expr last ((a, b) ∷ ms) (h, k, l) =
    let part : Part = record { is_placeholder = true; value = slice expr a b } in
    let e : a ≤ b = omega arith in
    written-literal expr last a (part ∷ parse_matches expr b ms) h
    ∙ ap (λ t. slice expr last a ++ (slice expr a b ++ t)) (parse_matches-written expr b ms l)
    ∙ ap (λ t. slice expr last a ++ t) (slice-append expr a b e)
    ∙ slice-append expr last a h

-- The parts that an expression is parsed into spell the expression again: the values of literals
-- and placeholders, one after another, lose nothing and repeat nothing.
pub parse_expression-written : (expr : Text) → written (parse_expression expr) ≡ expr
unfolding parse_expression drop
parse_expression-written expr =
    let spans : IsSpans 0 (find_from 0 none expr) (0 + length expr) =
      find_from-IsSpans expr 0 none (omega arith) in
    let e : 0 + length expr ≡ length expr = omega arith in
    parse_matches-written expr 0 (find_from 0 none expr) (rw (sym e) spans)
