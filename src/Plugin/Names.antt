-- ===== src/Plugin/Names.antt =====
-- plugin.go: the data source's name, as the metrics and the admin view show it.
use caddy_dynamic_routing.Base.{
  ℕ, ◌==◌, ◌≡◌, ◌≢◌, refl, not, ◌&&◌, [], ◌∷◌, ◌++◌, Option, none, some, Text, bytes, is_nil,
  str_eq, if◌then◌else◌, All, arith,
}

-- `s[i+1:]` for the last index `i` of the byte; `none` where there is none
unfoldable pub after_last? : ℕ → Text → Option Text
after_last? c [] = none
after_last? c (a ∷ s) = elim (after_last? c s) [
  | some t ↦ some t
  | none ↦ if a == c then some s else none
]

-- `computeDataSourceType`: the data source's module ID, where there is a data source
unfoldable pub compute_data_source_type : Option Text → Text
compute_data_source_type none = bytes "unknown"
compute_data_source_type (some id) = elim (after_last? b'.' id) [ some t ↦ t | none ↦ id ]

-- `dataSourceType`
unfoldable pub data_source_type : Text → Text
data_source_type cached = if is_nil cached then bytes "unknown" else cached

-- `dataSourceTypeForAdmin`
unfoldable pub data_source_type_for_admin : Text → Option Text → Text
data_source_type_for_admin cached none = []
data_source_type_for_admin cached (some id) =
    if not (is_nil cached) && not (str_eq cached (bytes "unknown"))
    then cached
    else compute_data_source_type (some id)

no_dot : (t : Text) → All (λ c. c ≢ 46) t → after_last? 46 t ≡ none
unfolding after_last?
no_dot [] h = refl
no_dot (a ∷ t) (n, h) = ground (arith, no_dot t h)

last_dot : (p t : Text) → All (λ c. c ≢ 46) t → after_last? 46 (p ++ 46 ∷ t) ≡ some t
unfolding after_last?
last_dot [] t h = rw (no_dot t h) refl
last_dot (a ∷ p) t h = rw (last_dot p t h) refl

-- The type of a data source is what stands behind the last dot of its module ID; the admin view shows
-- it where no name, or "unknown", is cached.
pub compute_data_source_type_lem :
    (p t : Text)
    → All (λ c. c ≢ 46) t
    → (compute_data_source_type (some (p ++ 46 ∷ t)) ≡ t)
      × (data_source_type_for_admin [] (some (p ++ 46 ∷ t)) ≡ t)
      × (data_source_type_for_admin (data_source_type []) (some (p ++ 46 ∷ t)) ≡ t)
unfolding compute_data_source_type data_source_type_for_admin data_source_type str_eq
compute_data_source_type_lem p t h =
    let named : compute_data_source_type (some (p ++ 46 ∷ t)) ≡ t =
      rw (compute_data_source_type, last_dot p t h) refl in
    (named, named, named)
