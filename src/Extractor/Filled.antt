-- ===== src/Extractor/Filled.antt =====
-- `Extract`: the key is all the values, or empty.
use caddy_dynamic_routing.Base.{
  append_assoc, append_nil, ◌≡◌, refl, sym, ◌∙◌, List, [], ◌∷◌, ◌++◌, Option, none, some, Text, inl,
  inr, Option-cases,
}
use caddy_dynamic_routing.Extractor.{Part, part_value, extract_parts, extract}

-- The values of all the parts, if none is missing
unfoldable pub all_values : (Text → Option Text) → List Part → Option Text
all_values get [] = some []
all_values get (part ∷ parts) = elim (part_value get part) [
  | none ↦ none
  | some val ↦ elim (all_values get parts) [ none ↦ none | some rest ↦ some (val ++ rest) ]
]

-- A missing key is the empty one.
abbrev pub key_of : Option Text → Text
key_of none = []
key_of (some key) = key

-- The values found so far, and then all of the remaining ones, or nothing
abbrev behind : Text → Option Text → Text
behind result none = []
behind result (some rest) = result ++ rest

extract_parts_lem :
    (get : Text → Option Text) (result : Text) (parts : List Part)
    → extract_parts get result parts ≡ behind result (all_values get parts)
unfolding extract_parts all_values
extract_parts_lem get result [] = sym (append_nil result)
extract_parts_lem get result (part ∷ parts) = elim (Option-cases (part_value get part)) [
  | inl e ↦ rw (extract_parts, all_values, e) refl
  | inr (val, e) ↦
      let step = extract_parts_lem get (result ++ val) parts in
      rw (extract_parts, all_values, e)
        (elim (Option-cases (all_values get parts)) [
          | inl n ↦ step ∙ rw n refl
          | inr (rest, n) ↦ step ∙ rw n (append_assoc result val rest)
        ])
]

-- `Extract` answers the values of all the parts, one after another: the text of a literal, and what
-- a placeholder without its braces resolves to. Where a placeholder resolves to nothing or to the
-- empty text, wherever it stands, the key is empty, with no literal of the expression left in it.
pub extract-all_values :
    (get : Text → Option Text) (parts : List Part)
    → extract (some get) parts ≡ key_of (all_values get parts)
unfolding extract
extract-all_values get parts =
    extract_parts_lem get [] parts
    ∙ (elim (Option-cases (all_values get parts)) [ inl e ↦ rw e refl | inr (rest, e) ↦ rw e refl ])
