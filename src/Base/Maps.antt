-- ===== src/Base/Maps.antt =====
-- Go's maps and `sync.Map`: the insertions, latest first.
use caddy_dynamic_routing.Base.{
  ◌≡◌, List, [], ◌∷◌, Option, none, some, Text, str_eq, str_eq_iff, if◌then◌else◌, arith,
}

module _ {V : Type 0} where
  -- `m[k]`
  unfoldable pub load : Text → List (Text × V) → Option V
  load k [] = none
  load k ((j, v) ∷ m) = if str_eq j k then some v else load k m

  -- `delete(m, k)`
  unfoldable pub delete : Text → List (Text × V) → List (Text × V)
  delete k [] = []
  delete k ((j, v) ∷ m) = let rest = delete k m in if str_eq j k then rest else (j, v) ∷ rest

  pub load-delete :
      (j k : Text) (m : List (Text × V))
      → load j (delete k m) ≡ (if str_eq k j then none else load j m)
  unfolding load delete
  load-delete j k [] = ground arith
  load-delete j k ((i, v) ∷ m) =
      ground (arith, str_eq_iff i k, str_eq_iff k j, str_eq_iff i j, load-delete j k m)
