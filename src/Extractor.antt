-- ===== src/Extractor.antt =====
-- extractor/extractor.go: the key that an expression with placeholders makes of a request.
-- The regular expression "\{[^}]+\}" is scanned for by its definition: a match is an opening brace,
-- as far left as can be, then bytes other than a closing brace, at least one, then a closing brace.
pub mod Parts
pub mod Filled
use caddy_dynamic_routing.Base.{
  ℕ, suc, ◌+◌, ◌==◌, Bool, true, false, List, [], ◌∷◌, ◌++◌, Option, none, some, Text, bytes,
  is_nil, trim, if◌then◌else◌, length, ltb, ◌||◌,
}
use caddy_dynamic_routing.Base.Replace.{replace_all, slice, drop}

pub record Part : Type 0 where
  pub is_placeholder : Bool
  pub value : Text

-- The map of `expandShortcuts`
unfoldable pub shortcuts : List (Text × Text)
shortcuts =
    (bytes "{header.", bytes "{http.request.header.")
    ∷ (bytes "{cookie.", bytes "{http.request.cookie.")
    ∷ (bytes "{query.", bytes "{http.request.uri.query.")
    ∷ (bytes "{path.", bytes "{http.request.uri.path.")
    ∷ (bytes "{path}", bytes "{http.request.uri.path}")
    ∷ (bytes "{host}", bytes "{http.request.host}")
    ∷ (bytes "{method}", bytes "{http.request.method}")
    ∷ (bytes "{remote}", bytes "{http.request.remote}")
    ∷ (bytes "{scheme}", bytes "{http.request.scheme}")
    ∷ []

-- `expandShortcuts`, its map visited in the order given
unfoldable pub expand_with : List (Text × Text) → Text → Text
expand_with [] result = result
expand_with ((shortcut, full) ∷ rest) result = expand_with rest (replace_all result shortcut full)

-- `placeholderRegex.FindAllStringIndex`, from the position `i` on; `start` is the position of the
-- leftmost opening brace that no closing one has followed.
unfoldable pub find_from : ℕ → Option ℕ → Text → List (ℕ × ℕ)
find_from i start [] = []
find_from i none (c ∷ s) = find_from (suc i) (if c == b'{' then some i else none) s
find_from i (some a) (c ∷ s) =
    let rest = find_from (suc i) (if c == b'}' then none else some a) s in
    if c == b'}' then (if i == suc a then rest else (a, suc i) ∷ rest) else rest

-- The literal before a match, and the literal behind the last one, where they are not empty
abbrev pub literal : Text → ℕ → ℕ → List Part
literal expr a b =
    if ltb a b then record { is_placeholder = false; value = slice expr a b } ∷ [] else []

-- The loop of `parseExpression`
unfoldable pub parse_matches : Text → ℕ → List (ℕ × ℕ) → List Part
parse_matches expr last_end [] = literal expr last_end (length expr)
parse_matches expr last_end ((a, b) ∷ matches) =
    literal expr last_end a
    ++ (record { is_placeholder = true; value = slice expr a b } ∷ parse_matches expr b matches)

-- `parseExpression`
unfoldable pub parse_expression : Text → List Part
parse_expression expr = parse_matches expr 0 (find_from 0 none expr)

-- `NewFromExpression`: the parts, or nil for the empty expression
unfoldable pub new_from_expression : List (Text × Text) → Text → Option (List Part)
new_from_expression order expr =
    if is_nil expr then none else some (parse_expression (expand_with order expr))

-- The key that a placeholder is resolved by
unfoldable pub part_key : Text → Text
unfolding trim
part_key value = trim (λ c. c == b'{' || c == b'}') value

-- The value of a part, which is missing where a placeholder resolves to nothing or the empty text
unfoldable pub part_value : (Text → Option Text) → Part → Option Text
part_value get part =
    if part.is_placeholder
    then (elim (get (part_key part.value)) [
      | none ↦ none
      | some val ↦ if is_nil val then none else some val
    ])
    else some part.value

-- The loop of `Extract`, which gives up where a value is missing
unfoldable pub extract_parts : (Text → Option Text) → Text → List Part → Text
extract_parts get result [] = result
extract_parts get result (part ∷ parts) = elim (part_value get part) [
  | none ↦ []
  | some val ↦ extract_parts get (result ++ val) parts
]

-- `Extract`
unfoldable pub extract : Option (Text → Option Text) → List Part → Text
extract none parts = []
extract (some get) parts = extract_parts get [] parts
