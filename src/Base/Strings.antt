-- ===== src/Base/Strings.antt =====
-- Go strings: lists of bytes, compared and cut the way package strings does.
use Prim.Native.Char.{code}
use Prim.Native.Nat.{ℕ}
use Prim.Native.String.{String}
use mathlib.Core.Path.{◌≡◌, refl, ap₂}
use mathlib.Core.Logic.{◌≢◌, ◌↔◌}
use mathlib.Core.Bool.{Bool, true, false, ◌&&◌, ◌||◌}
use mathlib.Core.List.{List, [], ◌∷◌}
use native.Mathlib.Omega.{arith}
use caddy_dynamic_routing.Base.Tests.{◌==◌, leb, if◌then◌else◌}

abbrev pub Text : Type 0
Text = List ℕ

-- The bytes of an ASCII literal.
abbrev pub bytes : String → Text
bytes String.[] = []
bytes (String.◌∷◌ c s) = code c ∷ bytes s

-- `s == t`
unfoldable pub str_eq : Text → Text → Bool
str_eq [] [] = true
str_eq (a ∷ s) (b ∷ t) = a == b && str_eq s t
str_eq _ _ = false

-- `strings.HasPrefix(s, p)`
unfoldable pub has_prefix : Text → Text → Bool
has_prefix s [] = true
has_prefix [] (b ∷ p) = false
has_prefix (a ∷ s) (b ∷ p) = a == b && has_prefix s p

-- `s == ""`
abbrev pub is_nil : Text → Bool
is_nil [] = true
is_nil (a ∷ s) = false

-- `strings.Contains(s, p)`
unfoldable pub contains : Text → Text → Bool
contains [] p = has_prefix [] p
contains (a ∷ s) p = has_prefix (a ∷ s) p || contains s p

-- `strings.TrimPrefix(s, p)` for a prefix of one byte
unfoldable pub trim_prefix_byte : ℕ → Text → Text
trim_prefix_byte c [] = []
trim_prefix_byte c (a ∷ s) = if a == c then s else a ∷ s

-- What is left when a prefix of the length of `p` is cut off.
unfoldable pub cut : Text → Text → Text
cut [] s = s
cut (b ∷ p) [] = []
cut (b ∷ p) (a ∷ s) = cut p s

-- `strings.TrimPrefix(s, p)`
unfoldable pub trim_prefix : Text → Text → Text
unfolding has_prefix cut
trim_prefix s p = if has_prefix s p then cut p s else s

-- Drops the leading bytes that pass the test.
unfoldable pub trim_left : (ℕ → Bool) → Text → Text
trim_left p [] = []
trim_left p (a ∷ s) = if p a then trim_left p s else a ∷ s

-- Drops the trailing bytes that pass the test.
unfoldable pub trim_right : (ℕ → Bool) → Text → Text
trim_right p [] = []
trim_right p (a ∷ s) = keep (trim_right p s)
  where
    keep : Text → Text
    keep [] = if p a then [] else a ∷ []
    keep (b ∷ r) = a ∷ b ∷ r

-- `strings.Trim(s, set)`
unfoldable pub trim : (ℕ → Bool) → Text → Text
unfolding trim_left trim_right
trim p s = trim_right p (trim_left p s)

-- The ASCII white space: "\t", "\n", "\v", "\f", "\r", " ".
abbrev pub is_space : ℕ → Bool
is_space c = c == 32 || (leb 9 c && leb c 13)

-- `strings.TrimSpace(s)`
unfoldable pub trim_space : Text → Text
unfolding trim
trim_space s = trim is_space s

-- `strings.Split(s, c)` for a separator of one byte
unfoldable pub push_head : ℕ → List Text → List Text
push_head a [] = (a ∷ []) ∷ []
push_head a (p ∷ ps) = (a ∷ p) ∷ ps

unfoldable pub split_on : ℕ → Text → List Text
unfolding push_head
split_on c [] = [] ∷ []
split_on c (a ∷ s) = if a == c then [] ∷ split_on c s else push_head a (split_on c s)

-- `s[:i]` for the first index `i` of the byte, the whole text where there is none
unfoldable pub before : ℕ → Text → Text
before c [] = []
before c (a ∷ s) = if a == c then [] else a ∷ before c s

pub str_eq→eq : (s t : Text) → str_eq s t ≡ true → s ≡ t
unfolding str_eq
str_eq→eq [] [] h = refl
str_eq→eq [] (b ∷ t) h = ground arith
str_eq→eq (a ∷ s) [] h = ground arith
str_eq→eq (a ∷ s) (b ∷ t) h = ap₂ (◌∷◌) (ground arith) (str_eq→eq s t (ground arith))

pub str_eq_refl : (s : Text) → str_eq s s ≡ true
unfolding str_eq
str_eq_refl [] = refl
str_eq_refl (a ∷ s) = ground (arith, str_eq_refl s)

pub str_eq_iff : (s t : Text) → (str_eq s t ≡ true) ↔ (s ≡ t)
str_eq_iff s t = (str_eq→eq s t, λ e. rw e (str_eq_refl t))

pub str_ne→ne : (s t : Text) → str_eq s t ≡ false → s ≢ t
str_ne→ne s t h = λ e. ground (arith, str_eq_iff s t)

pub ne→str_ne : (s t : Text) → s ≢ t → str_eq s t ≡ false
ne→str_ne s t h = ground (arith, str_eq_iff s t)

pub is_nil→eq : (t : Text) → is_nil t ≡ true → t ≡ []
is_nil→eq [] h = refl
is_nil→eq (x ∷ t) h = absurd (cc)
