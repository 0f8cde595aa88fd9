-- ===== src/Selector/Ring/Owner.antt =====
-- The owner of a key: the node that comes first on the circle, clockwise from the key's hash.
use caddy_dynamic_routing.Base.{
  ℕ, zero, suc, ◌+◌, ◌-◌, ◌≤◌, ◌<◌, ◌≡◌, refl, sym, inl, inr, true, false, List, [], ◌∷◌, Option,
  none, some, Text, arith, Bool-cases, Option-cases, if◌then◌else◌, leb, length, get_elem?,
  get_elem?_total, leb→le, ◌∙◌, All, In, IsOrdered,
}
use mathlib.Core.Path.{subst}
use caddy_dynamic_routing.Selector.Hash.{hash_string}
use caddy_dynamic_routing.Selector.Ring.{
  HashNode, ConsistentHashRing, hash_less, at_least, at_index, ring_get,
}
use caddy_dynamic_routing.Selector.Ring.Search.{search, IsFirst, search_lem}

-- How far the node lies clockwise of the key, on a circle of 2 ^ 32
abbrev pub distance : ℕ → ℕ → ℕ
distance k h = if leb k h then h - k else h + 4294967296 - k

-- No node lies nearer to the key.
abbrev pub IsNearest : ℕ → List HashNode → HashNode → Type 0
IsNearest k nodes n = All (λ m. distance k n.hash ≤ distance k m.hash) nodes

abbrev pub IsRing : List HashNode → Type 0
IsRing = IsOrdered (λ a b. hash_less b a ≡ false)

first_from : ℕ → List HashNode → Option HashNode
first_from k [] = none
first_from k (n ∷ nodes) = if leb k n.hash then some n else first_from k nodes

first_from-search :
    (k : ℕ) (nodes : List HashNode) (r : ℕ)
    → ((j : ℕ) → j < r → at_least k nodes j ≡ false)
    → at_least k nodes r ≡ true
    → get_elem? nodes r ≡ first_from k nodes
unfolding first_from
first_from-search k [] r below here = refl
first_from-search k (n ∷ nodes) zero below here = rw here
first_from-search k (n ∷ nodes) (suc r) below here =
    rw (below 0 (omega arith))
      (first_from-search k nodes r (λ j p. below (suc j) (omega arith)) here)

at_least_behind :
    (k : ℕ) (n : HashNode) (nodes : List HashNode) (l : ℕ)
    → All (λ b. hash_less b n ≡ false) nodes
    → leb k n.hash ≡ true
    → at_least k nodes l ≡ true
at_least_behind k n [] l h e = refl
at_least_behind k n (m ∷ nodes) zero h e = ground arith
at_least_behind k n (m ∷ nodes) (suc l) h e = at_least_behind k n nodes l h.1 e

at_least_mono :
    (k : ℕ) (nodes : List HashNode)
    → IsRing nodes
    → (i l : ℕ) → i ≤ l
    → l < length nodes
    → at_least k nodes i ≡ true
    → at_least k nodes l ≡ true
at_least_mono k [] o i l a b e = refl
at_least_mono k (n ∷ nodes) o zero zero a b e = e
at_least_mono k (n ∷ nodes) o zero (suc l) a b e = at_least_behind k n nodes l o.0 e
at_least_mono k (n ∷ nodes) o (suc i) zero a b e = absurd (omega arith)
at_least_mono k (n ∷ nodes) o (suc i) (suc l) a b e =
    at_least_mono k nodes o.1 i l (omega arith) (omega arith) e

at_least_end :
    (k : ℕ) (nodes : List HashNode) (i : ℕ)
    → length nodes ≤ i
    → (at_least k nodes i ≡ true) × (get_elem? nodes i ≡ none)
at_least_end k [] i h = (refl, refl)
at_least_end k (n ∷ nodes) zero h = absurd (omega arith)
at_least_end k (n ∷ nodes) (suc i) h = at_least_end k nodes i (omega arith)

-- Below the circle's length; hashes are.
abbrev pub IsSmallHash : HashNode → Type 0
IsSmallHash n = n.hash < 4294967296

IsNearest-behind :
    (k : ℕ) (n : HashNode) (nodes : List HashNode)
    → leb k n.hash ≡ true
    → All (λ b. hash_less b n ≡ false) nodes
    → IsNearest k nodes n
IsNearest-behind k n [] e h = tt
IsNearest-behind k n (m ∷ nodes) e (p, h) = (ground arith, IsNearest-behind k n nodes e h)

IsNearest-All_before :
    (k : ℕ) (n : HashNode) (nodes : List HashNode)
    → leb k n.hash ≡ false
    → All (λ m. leb k m.hash ≡ false) nodes
    → All (λ b. hash_less b n ≡ false) nodes
    → IsNearest k nodes n
IsNearest-All_before k n [] e g h = tt
IsNearest-All_before k n (m ∷ nodes) e (q, g) (p, h) =
    (ground arith, IsNearest-All_before k n nodes e g h)

first_from-some :
    (k : ℕ) (nodes : List HashNode) (n : HashNode)
    → k < 4294967296
    → IsRing nodes
    → All IsSmallHash nodes
    → first_from k nodes ≡ some n
    → In n nodes × IsNearest k nodes n × (leb k n.hash ≡ true) × IsSmallHash n
unfolding first_from
first_from-some k [] n b o small h = absurd (cc)
first_from-some k (m ∷ nodes) n b o small h = elim (Bool-cases (leb k m.hash)) [
  | inl e ↦
      let same : m ≡ n = ground arith in
      subst
        (λ n. In n (m ∷ nodes) × IsNearest k (m ∷ nodes) n × (leb k n.hash ≡ true) × IsSmallHash n)
        same (inl refl, (omega arith, IsNearest-behind k m nodes e o.0), e, small.0)
  | inr e ↦
      let (found, nearest, le, bound) = first_from-some k nodes n b o.1 small.1 (ground arith) in
      (inr found, (ground arith, nearest), le, bound)
]

first_from-none :
    (k : ℕ) (nodes : List HashNode)
    → first_from k nodes ≡ none
    → All (λ m. leb k m.hash ≡ false) nodes
unfolding first_from
first_from-none k [] h = tt
first_from-none k (n ∷ nodes) h = elim (Bool-cases (leb k n.hash)) [
  | inl e ↦ absurd (ground arith)
  | inr e ↦ (e, first_from-none k nodes (ground arith))
]

module _ (r : ConsistentHashRing) (key : Text) (o : IsRing r.ring) where
  -- The index that the binary search ends at holds the first node at or behind the key's hash.
  search_elem :
      get_elem? r.ring
        (search (length r.ring) (at_least (hash_string key) r.ring) 0 (length r.ring))
      ≡ first_from (hash_string key) r.ring
  search_elem = first_from-search k r.ring idx first.below (elim (Bool-cases (leb len idx)) [
    | inl e ↦ (at_least_end k r.ring idx (ground arith)).0
    | inr e ↦ first.above idx (omega arith) (ground arith)
  ])
    where
      k : ℕ
      k = hash_string key

      len : ℕ
      len = length r.ring

      idx : ℕ
      idx = search len (at_least k r.ring) 0 len

      first : IsFirst (at_least k r.ring) len idx
      first = search_lem (at_least k r.ring) len (at_least_mono k r.ring o)

at_index-some :
    (nodes : List HashNode) (idx : ℕ) (n : HashNode)
    → get_elem? nodes idx ≡ some n
    → at_index nodes idx ≡ some n.upstream
unfolding at_index
at_index-some nodes idx n h = elim (Bool-cases (leb (length nodes) idx)) [
  | inl e ↦ absurd (ground (arith, (at_least_end 0 nodes idx (leb→le _ _ e)).1))
  | inr e ↦ ground arith
]

at_index-none :
    (m : HashNode) (nodes : List HashNode) (idx : ℕ)
    → get_elem? (m ∷ nodes) idx ≡ none
    → at_index (m ∷ nodes) idx ≡ some m.upstream
unfolding at_index
at_index-none m nodes idx h = elim (Bool-cases (leb (length (m ∷ nodes)) idx)) [
  | inl e ↦ ground arith
  | inr e ↦ let (n, f) = get_elem?_total (m ∷ nodes) idx (ground arith) in absurd (ground arith)
]

-- On a sorted ring with a node, a key is answered by the upstream of the node nearest to its hash.
pub ring_get-IsNearest :
    (r : ConsistentHashRing) (m : HashNode) (nodes : List HashNode) (key : Text)
    → r.ring ≡ m ∷ nodes
    → hash_string key < 4294967296
    → IsRing r.ring
    → All IsSmallHash r.ring
    → (n : HashNode) × (ring_get r key ≡ some n.upstream)
      × In n r.ring
      × IsNearest (hash_string key) r.ring n
unfolding ring_get
ring_get-IsNearest r m nodes key same b o small =
    elim (Option-cases (first_from (hash_string key) r.ring)) [
      | inr (n, e) ↦
          let (found, nearest, _, _) = first_from-some (hash_string key) r.ring n b o small e in
          (n, at_index-some r.ring _ n (search_elem r key o ∙ e), found, nearest)
      | inl e ↦
          let o' : IsRing (m ∷ nodes) = subst IsRing same o in
          let before : All (λ m. leb (hash_string key) m.hash ≡ false) (m ∷ nodes) =
            subst (All _) same (first_from-none (hash_string key) r.ring e) in
          (
            m,
            subst (λ l. (i : ℕ) → get_elem? l i ≡ none → at_index l i ≡ some m.upstream) (sym same)
                (at_index-none m nodes) _ (search_elem r key o ∙ e),
            rw same (inl refl),
            rw same (
              omega arith,
              IsNearest-All_before (hash_string key) m nodes before.0 before.1 o'.0,
            ),
          )
    ]
