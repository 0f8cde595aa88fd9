-- ===== src/Selector/Hash.antt =====
-- matcher/selector.go: the FNV-1a hash, `hashToIndex` and `computeUpstreamsHash`.
use Prim.Native.Nat.{bit_xor}
use native.Mathlib.Nat.{mod-lt}
use caddy_dynamic_routing.Base.{
  ℕ, ◌*◌, ◌/◌, ◌%◌, ◌-◌, ◌<◌, List, [], ◌∷◌, Text, arith, if◌then◌else◌, ◌==◌, ltb,
}
use caddy_dynamic_routing.Base.Int.{ℤ, pos, negsuc, int_limit}
use caddy_dynamic_routing.Config.{WeightedUpstream}

-- One byte written to a hasher of hash/fnv (New32a), and a row of bytes
abbrev fnv_byte : ℕ → ℕ → ℕ
fnv_byte h b = bit_xor h b * 16777619 % 4294967296

unfoldable pub fnv_write : ℕ → Text → ℕ
fnv_write h [] = h
fnv_write h (b ∷ s) = fnv_write (fnv_byte h b) s

abbrev pub fnv_offset : ℕ
fnv_offset = 2166136261

-- `hashString`
unfoldable pub hash_string : Text → ℕ
unfolding fnv_write
hash_string s = fnv_write fnv_offset s

-- `hashToIndex`
unfoldable pub hash_to_index : Text → ℕ → ℕ
unfolding hash_string
hash_to_index s n =
    if n == 0 then 0 else (let m = hash_string s % n in if ltb (int_limit - 1) m then 0 else m)

-- `byte(w)` and `w >> 8` of a signed number
abbrev byte_of : ℤ → ℕ
byte_of (pos n) = n % 256
byte_of (negsuc n) = 255 - n % 256

abbrev shift_byte : ℤ → ℤ
shift_byte (pos n) = pos (n / 256)
shift_byte (negsuc n) = negsuc (n / 256)

-- The loop of `computeUpstreamsHash`
unfoldable pub hash_from : ℕ → List WeightedUpstream → ℕ
unfolding fnv_write
hash_from h [] = h
hash_from h (u ∷ us) =
    hash_from
      (fnv_write (fnv_write h u.address) (byte_of u.weight ∷ byte_of (shift_byte u.weight) ∷ [])) us

unfoldable pub upstreams_hash : List WeightedUpstream → ℕ
unfolding hash_from
upstreams_hash us = hash_from fnv_offset us

-- The index is one of the `n`.
pub hash_to_index-lt : (s : Text) (n : ℕ) → 0 < n → hash_to_index s n < n
unfolding hash_to_index
hash_to_index-lt s n h = grind (arith, mod-lt)

fnv_write-lt : (s : Text) (h : ℕ) → h < 4294967296 → fnv_write h s < 4294967296
unfolding fnv_write
fnv_write-lt [] h b = b
fnv_write-lt (c ∷ s) h b = fnv_write-lt s (fnv_byte h c) (omega arith)

-- A hash is a word of 32 bits.
pub hash_string-lt : (s : Text) → hash_string s < 4294967296
unfolding hash_string
hash_string-lt s = fnv_write-lt s fnv_offset (omega arith)
