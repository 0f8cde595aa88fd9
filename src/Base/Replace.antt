-- ===== src/Base/Replace.antt =====
-- `strings.ReplaceAll`, and slices of a text.
use caddy_dynamic_routing.Base.{
  ℕ, zero, suc, ◌+◌, ◌-◌, ◌≤◌, ◌≡◌, refl, sym, ap, ◌∙◌, [], ◌∷◌, ◌++◌, Text, has_prefix,
  if◌then◌else◌, length, arith,
}

-- The replacement of a text `old` that is not empty; first the bytes that are left to skip of an
-- occurrence that was replaced.
unfoldable pub replace_from : Text → Text → ℕ → Text → Text
replace_from old new k [] = []
replace_from old new (suc k) (c ∷ s) = replace_from old new k s
replace_from old new zero (c ∷ s) =
    let hit = has_prefix (c ∷ s) old in
    let rest = replace_from old new (if hit then length old - 1 else 0) s in
    if hit then new ++ rest else c ∷ rest

-- `strings.ReplaceAll(s, old, new)`
unfoldable pub replace_all : Text → Text → Text → Text
unfolding replace_from
replace_all s old new = replace_from old new 0 s

-- `s[n:]` and `s[:n]`
unfoldable pub drop : ℕ → Text → Text
drop zero s = s
drop (suc n) [] = []
drop (suc n) (c ∷ s) = drop n s

unfoldable pub take : ℕ → Text → Text
take zero s = []
take (suc n) [] = []
take (suc n) (c ∷ s) = c ∷ take n s

-- `s[a:b]`
unfoldable pub slice : Text → ℕ → ℕ → Text
unfolding take drop
slice s a b = take (b - a) (drop a s)

pub take-drop : (n : ℕ) (s : Text) → take n s ++ drop n s ≡ s
unfolding take drop
take-drop zero s = refl
take-drop (suc n) [] = refl
take-drop (suc n) (c ∷ s) = ap (λ t. c ∷ t) (take-drop n s)

drop_nil : (n : ℕ) → drop n [] ≡ []
unfolding drop
drop_nil zero = refl
drop_nil (suc n) = refl

drop-drop : (m n : ℕ) (s : Text) → drop m (drop n s) ≡ drop (n + m) s
unfolding drop
drop-drop m zero s = let e : 0 + m ≡ m = omega arith in rw e refl
drop-drop m (suc n) [] = drop_nil m ∙ sym (drop_nil (suc n + m))
drop-drop m (suc n) (c ∷ s) =
    let e : suc n + m ≡ suc (n + m) = omega arith in rw e (drop-drop m n s)

pub drop_all : (s : Text) → drop (length s) s ≡ []
unfolding drop
drop_all [] = refl
drop_all (c ∷ s) = drop_all s

-- A slice and what stands behind it are what stands from its beginning on.
pub slice-append : (s : Text) (a b : ℕ) → a ≤ b → slice s a b ++ drop b s ≡ drop a s
unfolding slice
slice-append s a b h =
    let e : b ≡ a + (b - a) = omega arith in
    ap (λ t. take (b - a) (drop a s) ++ t) (ap (λ n. drop n s) e ∙ sym (drop-drop (b - a) a s))
    ∙ take-drop (b - a) (drop a s)
