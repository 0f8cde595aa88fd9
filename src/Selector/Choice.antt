-- ===== src/Selector/Choice.antt =====
-- Whatever the algorithm, a selection returns one of the candidates.
use caddy_dynamic_routing.Base.{
  some_inj, ℕ, ◌≡◌, ◌≢◌, refl, sym, ap, ◌∙◌, true, List, [], ◌∷◌, Option, none, some, arith, Text,
  length, inl, inr, Bool-cases, Option-cases, is_nil,
}
use native.Mathlib.Nat.{mod-lt}
use caddy_dynamic_routing.Base.Sort.{SortSlice}
use caddy_dynamic_routing.Config.{WeightedUpstream}
use caddy_dynamic_routing.Request.{Request}
use caddy_dynamic_routing.Selector.Hash.{hash_to_index-lt}
use caddy_dynamic_routing.Selector.Ring.{ConsistentHashRing, HashNode, new_ring, ring_get, matches}
use caddy_dynamic_routing.Selector.Ring.Stable.{new_ring-IsNearest}
use caddy_dynamic_routing.Selector.Fit.{IsFit, select_smooth-IsChoice, select_least_conn-IsChoice}
use caddy_dynamic_routing.Selector.Hash.{upstreams_hash}
use caddy_dynamic_routing.Base.{==_iff}
use caddy_dynamic_routing.Selector.Draw.{
  IsChoice, IsIntn, elem-IsChoice, select_weighted_random-IsChoice,
}
use caddy_dynamic_routing.Selector.{
  Algorithm, weighted_random, round_robin, weighted_round_robin, ip_hash, uri_hash, header_hash,
  first, consistent_hash, least_conn, algorithm_of, Selector, pointer, select_round_robin,
  select_by_hash, select_uri_hash, select_header_hash, ring_key, current_ring,
  select_consistent_hash, select_by, select,
}

select_by_hash-IsChoice :
    (s : Text) (u : WeightedUpstream) (us : List WeightedUpstream)
    → IsChoice (u ∷ us) (select_by_hash s (u ∷ us))
unfolding select_by_hash
select_by_hash-IsChoice s u us =
    elem-IsChoice (u ∷ us) _ (hash_to_index-lt s (length (u ∷ us)) (omega arith))

select_uri_hash-IsChoice :
    (r : Request) (u : WeightedUpstream) (us : List WeightedUpstream)
    → r.url_path ≢ none
    → IsChoice (u ∷ us) (select_uri_hash r (u ∷ us))
unfolding select_uri_hash
select_uri_hash-IsChoice r u us h = elim (Option-cases r.url_path) [
  | inl e ↦ absurd (h e)
  | inr (path, e) ↦ rw e (select_by_hash-IsChoice path u us)
]

select_header_hash-IsChoice :
    (rand : ℕ → ℕ) (r : Request) (key : Text) (u : WeightedUpstream) (us : List WeightedUpstream)
    → IsIntn rand
    → IsChoice (u ∷ us) (select_header_hash rand r key (u ∷ us))
unfolding select_header_hash
select_header_hash-IsChoice rand r key u us h = elim (Bool-cases (is_nil (r.header_get key))) [
  | inl e ↦ rw e (select_weighted_random-IsChoice rand u us h)
  | inr e ↦ rw e (select_by_hash-IsChoice (r.header_get key) u us)
]

-- A ring whose hash fits the candidates was built from them.
abbrev pub IsFaithful :
    SortSlice HashNode → Option ConsistentHashRing → List WeightedUpstream → Type 0
IsFaithful sorter o us =
    (ring : ConsistentHashRing)
    → o ≡ some ring
    → matches ring us ≡ true
    → ring ≡ new_ring sorter us 150

current_ring_lem :
    (sorter : SortSlice HashNode) (o : Option ConsistentHashRing) (us : List WeightedUpstream)
    → IsFaithful sorter o us
    → current_ring sorter o us ≡ new_ring sorter us 150
unfolding current_ring
current_ring_lem sorter none us h = refl
current_ring_lem sorter (some ring) us h = elim (Bool-cases (matches ring us)) [
  | inl e ↦ rw e (h ring refl e)
  | inr e ↦ rw e
]

select_consistent_hash-IsChoice :
    (sorter : SortSlice HashNode) (r : Request) (s : Selector) (u : WeightedUpstream)
    (us : List WeightedUpstream)
    → IsFaithful sorter s.hash_ring (u ∷ us)
    → IsChoice (u ∷ us) (select_consistent_hash sorter r s (u ∷ us)).1
unfolding select_consistent_hash
select_consistent_hash-IsChoice sorter r s u us h =
    let (n, got, inside, _, _) = new_ring-IsNearest sorter u us 150 (ring_key r s.hash_key) in
    (
      n.upstream,
      ap pointer (
          ap (λ t. ring_get t (ring_key r s.hash_key))
            (current_ring_lem sorter s.hash_ring (u ∷ us) h)
          ∙ got),
      inside,
    )

select_by-IsChoice :
    (rand : ℕ → ℕ) (sorter : SortSlice HashNode) (r : Request) (a : Algorithm) (s : Selector)
    (u : WeightedUpstream) (us : List WeightedUpstream)
    → IsIntn rand
    → r.url_path ≢ none
    → IsFit s.wrr
    → IsFaithful sorter s.hash_ring (u ∷ us)
    → IsFit (select_by rand sorter r a s (u ∷ us)).0.wrr
      × IsChoice (u ∷ us) (select_by rand sorter r a s (u ∷ us)).1
unfolding select_by select_round_robin select_consistent_hash
select_by-IsChoice rand sorter r weighted_random s u us i h f g =
    (f, select_weighted_random-IsChoice rand u us i)
select_by-IsChoice rand sorter r round_robin s u us i h f g =
    (f, elem-IsChoice (u ∷ us) _ (mod-lt s.rr_index (omega arith)))
select_by-IsChoice rand sorter r weighted_round_robin s u us i h f g =
    select_smooth-IsChoice s.wrr u us f
select_by-IsChoice rand sorter r ip_hash s u us i h f g = (f, select_by_hash-IsChoice _ u us)
select_by-IsChoice rand sorter r uri_hash s u us i h f g = (f, select_uri_hash-IsChoice r u us h)
select_by-IsChoice rand sorter r header_hash s u us i h f g =
    (f, select_header_hash-IsChoice rand r s.hash_key u us i)
select_by-IsChoice rand sorter r first s u us i h f g = (f, elem-IsChoice (u ∷ us) 0 (omega arith))
select_by-IsChoice rand sorter r consistent_hash s u us i h f g =
    (f, select_consistent_hash-IsChoice sorter r s u us g)
select_by-IsChoice rand sorter r least_conn s u us i h f g =
    (f, select_least_conn-IsChoice s.conn_counts u us)

-- From at least one candidate, a selection returns one of them, and leaves slices that fit, where the
-- ring at hand, if it passes for that of the candidates, is it.
pub select_faithful-IsChoice :
    (rand : ℕ → ℕ) (sorter : SortSlice HashNode) (r : Request) (s : Selector) (u : WeightedUpstream)
    (us : List WeightedUpstream)
    → IsIntn rand
    → r.url_path ≢ none
    → IsFit s.wrr
    → IsFaithful sorter s.hash_ring (u ∷ us)
    → IsFit (select rand sorter r s (u ∷ us)).0.wrr
      × IsChoice (u ∷ us) (select rand sorter r s (u ∷ us)).1
unfolding select
select_faithful-IsChoice rand sorter r s u [] i h f g = (f, (u, refl, inl refl))
select_faithful-IsChoice rand sorter r s u (v ∷ us) i h f g =
    select_by-IsChoice rand sorter r (algorithm_of s.algorithm) s u (v ∷ us) i h f g

-- Of the lists of candidates in question, no two have the same hash.
abbrev pub IsHashedApart : (List WeightedUpstream → Type 0) → Type 0
IsHashedApart Asked =
    (xs ys : List WeightedUpstream)
    → Asked xs
    → Asked ys
    → upstreams_hash xs ≡ upstreams_hash ys
    → xs ≡ ys

-- The ring at hand, if there is one, was built from one of them.
abbrev pub IsBuilt :
    SortSlice HashNode → (List WeightedUpstream → Type 0) → Option ConsistentHashRing → Type 0
IsBuilt sorter Asked o =
    (ring : ConsistentHashRing)
    → o ≡ some ring
    → (xs : List WeightedUpstream) × Asked xs × (ring ≡ new_ring sorter xs 150)

new_ring-matches :
    (sorter : SortSlice HashNode) (xs us : List WeightedUpstream)
    → matches (new_ring sorter xs 150) us ≡ true
    → upstreams_hash xs ≡ upstreams_hash us
unfolding matches new_ring
new_ring-matches sorter xs us h = (==_iff (upstreams_hash xs) (upstreams_hash us)).0 h

IsBuilt-IsFaithful :
    (sorter : SortSlice HashNode) (Asked : List WeightedUpstream → Type 0)
    (o : Option ConsistentHashRing) (us : List WeightedUpstream)
    → IsHashedApart Asked
    → Asked us
    → IsBuilt sorter Asked o
    → IsFaithful sorter o us
IsBuilt-IsFaithful sorter Asked o us apart asked built ring e m =
    let (xs, before, made) = built ring e in
    let passes : matches (new_ring sorter xs 150) us ≡ true =
      sym (ap (λ t. matches t us) made) ∙ m in
    made
    ∙ ap (λ t. new_ring sorter t 150)
        (apart xs us before asked (new_ring-matches sorter xs us passes))

current_ring-IsBuilt :
    (sorter : SortSlice HashNode) (Asked : List WeightedUpstream → Type 0)
    (o : Option ConsistentHashRing) (us : List WeightedUpstream)
    → Asked us
    → IsBuilt sorter Asked o
    → IsBuilt sorter Asked (some (current_ring sorter o us))
unfolding current_ring
current_ring-IsBuilt sorter Asked none us asked built ring e = (us, asked, sym (some_inj e))
current_ring-IsBuilt sorter Asked (some old) us asked built ring e =
    elim (Bool-cases (matches old us)) [
      | inl m ↦ built ring (rw (current_ring, m) at e)
      | inr m ↦ (us, asked, sym (some_inj (rw (current_ring, m) at e)))
    ]

select_by-IsBuilt :
    (rand : ℕ → ℕ) (sorter : SortSlice HashNode) (r : Request)
    (Asked : List WeightedUpstream → Type 0) (a : Algorithm) (s : Selector)
    (us : List WeightedUpstream)
    → Asked us
    → IsBuilt sorter Asked s.hash_ring
    → IsBuilt sorter Asked (select_by rand sorter r a s us).0.hash_ring
unfolding select_by select_round_robin select_consistent_hash
select_by-IsBuilt rand sorter r Asked weighted_random s us p h = h
select_by-IsBuilt rand sorter r Asked round_robin s us p h = h
select_by-IsBuilt rand sorter r Asked weighted_round_robin s us p h = h
select_by-IsBuilt rand sorter r Asked ip_hash s us p h = h
select_by-IsBuilt rand sorter r Asked uri_hash s us p h = h
select_by-IsBuilt rand sorter r Asked header_hash s us p h = h
select_by-IsBuilt rand sorter r Asked first s us p h = h
select_by-IsBuilt rand sorter r Asked consistent_hash s us p h =
    current_ring-IsBuilt sorter Asked s.hash_ring us p h
select_by-IsBuilt rand sorter r Asked least_conn s us p h = h

-- What a selector keeps from one selection to the next: slices that fit, and a ring that was built from
-- one of the lists in question.
pub record IsPrepared (sorter : SortSlice HashNode) (Asked : List WeightedUpstream → Type 0)
    (s : Selector) : Type 0 where
  pub fit : IsFit s.wrr
  pub built : IsBuilt sorter Asked s.hash_ring

-- Take any lists of candidates of which no two have the same hash. From one of them that has a
-- candidate, whatever the algorithm's name and for a request that has a URL, a selection returns one
-- of the candidates, neither nil nor a panic, if the selector's smooth round-robin slices fit and its
-- ring, if it has one, was built from one of the lists; and both hold of the selector that it
-- leaves, so that it serves any row of such lists. (Lists of the same hash can share a ring.)
pub select-IsChoice :
    (rand : ℕ → ℕ) (sorter : SortSlice HashNode) (r : Request)
    (Asked : List WeightedUpstream → Type 0) (s : Selector) (u : WeightedUpstream)
    (us : List WeightedUpstream)
    → IsIntn rand
    → r.url_path ≢ none
    → IsHashedApart Asked
    → Asked (u ∷ us)
    → IsPrepared sorter Asked s
    → IsPrepared sorter Asked (select rand sorter r s (u ∷ us)).0
      × IsChoice (u ∷ us) (select rand sorter r s (u ∷ us)).1
unfolding select
select-IsChoice rand sorter r Asked s u [] i h apart asked ready = (ready, (u, refl, inl refl))
select-IsChoice rand sorter r Asked s u (v ∷ us) i h apart asked ready =
    let g = IsBuilt-IsFaithful sorter Asked s.hash_ring (u ∷ v ∷ us) apart asked ready.built in
    let (fit, choice) =
      select_by-IsChoice rand sorter r (algorithm_of s.algorithm) s u (v ∷ us) i h ready.fit g in
    (
      record {
        fit = fit;
        built =
            select_by-IsBuilt rand sorter r Asked (algorithm_of s.algorithm) s (u ∷ v ∷ us) asked
              ready.built;
      },
      choice,
    )
