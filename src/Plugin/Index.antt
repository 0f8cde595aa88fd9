-- ===== src/Plugin/Index.antt =====
-- `findUpstreamInPool`: the lazily built index against a search of the pool.
use caddy_dynamic_routing.Base.{
  ◌==◌, ◌≡◌, ◌≢◌, ◌⊎◌, refl, sym, ap, ◌∙◌, false, List, [], ◌∷◌, Option, none, some, inl, inr, Text,
  arith, Option-cases, Bool-cases, str_eq, str_eq→eq, length, if◌then◌else◌, In,
}
use caddy_dynamic_routing.Plugin.{
  PoolIndex, entry?, insert_all, rebuilt, current_index, find_entry, find_upstream,
}

module _ {U : Type 0} (dial : U → Text) where
  -- The pool's last upstream that dials the address
  unfoldable pub last_at : Text → List U → Option U
  last_at a [] = none
  last_at a (u ∷ us) = elim (last_at a us) [
    | some v ↦ some v
    | none ↦ if str_eq (dial u) a then some u else none
  ]

  pub last_at-In : (a : Text) (us : List U) (u : U) → last_at a us ≡ some u → In u us × (dial u ≡ a)
  unfolding last_at
  last_at-In a [] u h = absurd (cc)
  last_at-In a (v ∷ us) u h = elim (Option-cases (last_at a us)) [
    | inl e ↦ elim (Bool-cases (str_eq (dial v) a)) [
      | inl f ↦
          let same : v ≡ u = ground arith in (inl same, sym (ap dial same) ∙ str_eq→eq (dial v) a f)
      | inr f ↦ absurd (ground arith)
    ]
    | inr (w, e) ↦ let (inside, there) = last_at-In a us u (ground arith) in (inr inside, there)
  ]

  -- A later insertion hides an earlier one.
  abbrev over : Option U → Option U → Option U
  over none o = o
  over (some u) o = some u

  entry?-insert_all :
      (a : Text) (es : List (Text × U)) (us : List U)
      → entry? dial a (insert_all dial es us) ≡ over (last_at a us) (entry? dial a es)
  unfolding entry? insert_all last_at
  entry?-insert_all a es [] = refl
  entry?-insert_all a es (u ∷ us) = ground (arith, entry?-insert_all a ((dial u, u) ∷ es) us)

  -- The index is not built yet, or of a pool of another size, or this pool's.
  abbrev pub IsFresh : List U → PoolIndex dial → Type 0
  IsFresh pool ix = (ix.entries ≡ none) ⊎ ((ix.last_size ≢ length pool) ⊎ (ix ≡ rebuilt dial pool))

  current_index-same :
      (p q : List U) → length q ≡ length p → current_index dial q (rebuilt dial p) ≡ rebuilt dial p
  unfolding current_index rebuilt
  current_index-same p q h = rw h (ground arith)

  current_index-rebuilt :
      (pool : List U) (ix : PoolIndex dial)
      → IsFresh pool ix
      → current_index dial pool ix ≡ rebuilt dial pool
  unfolding current_index
  current_index-rebuilt pool ix (inl e) = rw (current_index, e)
  current_index-rebuilt pool ix (inr (inl e)) = elim (Option-cases ix.entries) [
    | inl f ↦ rw (current_index, f)
    | inr (es, f) ↦
        let other : (length pool == ix.last_size) ≡ false = ground arith in
        rw (current_index, f, other)
  ]
  current_index-rebuilt pool ix (inr (inr e)) =
      ap (current_index dial pool) e ∙ current_index-same pool pool refl

  find_entry-rebuilt :
      (a : Text) (pool : List U) → find_entry dial a (rebuilt dial pool) ≡ last_at a pool
  unfolding find_entry rebuilt entry? last_at
  find_entry-rebuilt a pool = entry?-insert_all a [] pool ∙ ground arith

  -- With an index that is not built, or is of a pool of another size, or is this pool's, a lookup
  -- finds the pool's last upstream that dials the address, or nothing where there is none, and the
  -- index is then this pool's.
  pub find_upstream_lem :
      (pool : List U) (a : Text) (ix : PoolIndex dial)
      → IsFresh pool ix
      → ((find_upstream dial pool a ix).0 ≡ last_at a pool)
        × ((find_upstream dial pool a ix).1 ≡ rebuilt dial pool)
  unfolding find_upstream
  find_upstream_lem pool a ix h =
      let now = current_index-rebuilt pool ix h in
      (ap (find_entry dial a) now ∙ find_entry-rebuilt a pool, now)

  -- The index is not built anew for another pool of the same size: after a lookup in one pool, for
  -- which the index was fresh, a lookup in another of that size still answers with the first pool's
  -- upstreams, whatever the second holds.
  pub find_upstream-stale :
      (p q : List U) (a b : Text) (ix : PoolIndex dial)
      → IsFresh p ix
      → length q ≡ length p
      → (find_upstream dial q b (find_upstream dial p a ix).1).0 ≡ last_at b p
  unfolding find_upstream
  find_upstream-stale p q a b ix h same =
      ap (λ t. find_entry dial b (current_index dial q t)) (current_index-rebuilt p ix h)
      ∙ ap (find_entry dial b) (current_index-same p q same)
      ∙ find_entry-rebuilt b p
