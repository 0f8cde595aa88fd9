-- ===== src/Selector/Ring/Stable.antt =====
-- A ring that `NewConsistentHashRing` builds: who owns a key, and which keys move when an upstream
-- goes.
use caddy_dynamic_routing.Base.{
  ℕ, zero, suc, ◌+◌, ◌≤◌, ◌<◌, ◌≡◌, refl, sym, ◌≢◌, ◌⊎◌, inl, inr, List, [], ◌∷◌, ◌++◌, some, Text,
  arith, All, In, In-perm, In-append, In-append_left, In-append_right, perm_symm, All-perm,
  All-append, All-In, ◌∙◌, ap,
}
use caddy_dynamic_routing.Base.Sort.{SortSlice, IsWeakOrder}
use caddy_dynamic_routing.Config.{WeightedUpstream}
use caddy_dynamic_routing.Selector.Hash.{hash_string, hash_string-lt}
use caddy_dynamic_routing.Selector.Ring.{
  HashNode, hash_less, node, nodes_from, num_nodes, all_nodes, new_ring, ring_get,
}
use caddy_dynamic_routing.Selector.Ring.Owner.{distance, IsNearest, IsSmallHash, ring_get-IsNearest}

nodes_from-IsSmallHash : (u : WeightedUpstream) (n j : ℕ) → All IsSmallHash (nodes_from u n j)
unfolding nodes_from
nodes_from-IsSmallHash u zero j = tt
nodes_from-IsSmallHash u (suc n) j = (hash_string-lt _, nodes_from-IsSmallHash u n (j + 1))

all_nodes-IsSmallHash : (vn : ℕ) (us : List WeightedUpstream) → All IsSmallHash (all_nodes vn us)
unfolding all_nodes
all_nodes-IsSmallHash vn [] = tt
all_nodes-IsSmallHash vn (u ∷ us) =
    All-append IsSmallHash _ _ (nodes_from-IsSmallHash u (num_nodes vn u) 0)
      (all_nodes-IsSmallHash vn us)

-- Every node on the ring belongs to the upstream that it was made for.
nodes_from-upstream :
    (u : WeightedUpstream) (n j : ℕ) → All (λ m. m.upstream ≡ u) (nodes_from u n j)
unfolding nodes_from
nodes_from-upstream u zero j = tt
nodes_from-upstream u (suc n) j = (refl, nodes_from-upstream u n (j + 1))

num_nodes_pos : (vn : ℕ) (u : WeightedUpstream) → 0 < num_nodes vn u
unfolding num_nodes
num_nodes_pos vn u = ground arith

hash_less-IsWeakOrder : IsWeakOrder hash_less
hash_less-IsWeakOrder = record {
  asym = λ a b h. ground arith;
  trans_not = λ a b c h k. ground arith;
}

nodes_from-cons :
    (u : WeightedUpstream) (n j : ℕ) (rest : List HashNode)
    → 0 < n
    → In (node u j) (nodes_from u n j ++ rest)
unfolding nodes_from
nodes_from-cons u zero j rest h = absurd (omega arith)
nodes_from-cons u (suc n) j rest h = inl refl

all_nodes-cons :
    (vn : ℕ) (u : WeightedUpstream) (us : List WeightedUpstream)
    → In (node u 0) (all_nodes vn (u ∷ us))
unfolding all_nodes
all_nodes-cons vn u us = nodes_from-cons u (num_nodes vn u) 0 (all_nodes vn us) (num_nodes_pos vn u)

ring_cons :
    (l : List HashNode) (n : HashNode) → In n l → (m : HashNode) × (r : List HashNode) × (l ≡ m ∷ r)
ring_cons [] n m = elim m [ ]
ring_cons (x ∷ l) n m = (x, l, refl)

new_ring-owner :
    (s : SortSlice HashNode) (us : List WeightedUpstream) (vn : ℕ) (key : Text)
    (some_node : HashNode)
    → In some_node (all_nodes vn us)
    → (n : HashNode) × (ring_get (new_ring s us vn) key ≡ some n.upstream)
      × In n (all_nodes vn us)
      × IsNearest (hash_string key) (all_nodes vn us) n
unfolding new_ring
new_ring-owner s us vn key some_node inside =
    let nodes = all_nodes vn us in
    let perm = s.sort-perm hash_less nodes in
    let (m, rest, same) =
      ring_cons (s.sort hash_less nodes) some_node (In-perm some_node perm inside) in
    let (n, got, found, nearest) =
      ring_get-IsNearest (new_ring s us vn) m rest key same (hash_string-lt key)
        (s.sort-IsOrdered hash_less nodes hash_less-IsWeakOrder)
        (All-perm IsSmallHash perm (all_nodes-IsSmallHash vn us)) in
    (n, got, In-perm n (perm_symm perm) found, All-perm _ (perm_symm perm) nearest)

all_nodes-upstream :
    (vn : ℕ) (us : List WeightedUpstream) (n : HashNode) → In n (all_nodes vn us) → In n.upstream us
unfolding all_nodes
all_nodes-upstream vn [] n m = elim m [ ]
all_nodes-upstream vn (u ∷ us) n m =
    elim (In-append n (nodes_from u (num_nodes vn u) 0) (all_nodes vn us) m) [
      | inl a ↦
          inl (sym (All-In (λ m. m.upstream ≡ u) _ (nodes_from-upstream u (num_nodes vn u) 0) a))
      | inr b ↦ inr (all_nodes-upstream vn us n b)
    ]

-- However the sort orders nodes of equal hash, a ring built from at least one upstream answers every
-- key with one of them, whose node is nearest to the key's hash, clockwise, among all the virtual
-- nodes of all the upstreams.
pub new_ring-IsNearest :
    (s : SortSlice HashNode) (u : WeightedUpstream) (us : List WeightedUpstream) (vn : ℕ)
    (key : Text)
    → (n : HashNode) × (ring_get (new_ring s (u ∷ us) vn) key ≡ some n.upstream)
      × In n.upstream (u ∷ us)
      × In n (all_nodes vn (u ∷ us))
      × IsNearest (hash_string key) (all_nodes vn (u ∷ us)) n
new_ring-IsNearest s u us vn key =
    let (n, got, found, nearest) =
      new_ring-owner s (u ∷ us) vn key (node u 0) (all_nodes-cons vn u us) in
    (n, got, all_nodes-upstream vn (u ∷ us) n found, found, nearest)

-- Two nodes of one hash belong to one upstream.
abbrev pub IsCollisionFree : List HashNode → Type 0
IsCollisionFree nodes =
    (n m : HashNode) → In n nodes → In m nodes → n.hash ≡ m.hash → n.upstream ≡ m.upstream

all_nodes-drop :
    (vn : ℕ) (us : List WeightedUpstream) (x : WeightedUpstream) (vs : List WeightedUpstream)
    (n : HashNode)
    → In n (all_nodes vn (us ++ x ∷ vs))
    → (n.upstream ≡ x) ⊎ In n (all_nodes vn (us ++ vs))
unfolding all_nodes
all_nodes-drop vn [] x vs n m =
    elim (In-append n (nodes_from x (num_nodes vn x) 0) (all_nodes vn vs) m) [
      | inl a ↦ inl (All-In (λ m. m.upstream ≡ x) _ (nodes_from-upstream x (num_nodes vn x) 0) a)
      | inr b ↦ inr b
    ]
all_nodes-drop vn (u ∷ us) x vs n m =
    let mine = nodes_from u (num_nodes vn u) 0 in
    elim (In-append n mine (all_nodes vn (us ++ x ∷ vs)) m) [
      | inl a ↦ inr (In-append_left n mine (all_nodes vn (us ++ vs)) a)
      | inr b ↦ elim (all_nodes-drop vn us x vs n b) [
        | inl e ↦ inl e
        | inr c ↦ inr (In-append_right n mine (all_nodes vn (us ++ vs)) c)
      ]
    ]

all_nodes-add :
    (vn : ℕ) (us : List WeightedUpstream) (x : WeightedUpstream) (vs : List WeightedUpstream)
    (n : HashNode)
    → In n (all_nodes vn (us ++ vs))
    → In n (all_nodes vn (us ++ x ∷ vs))
unfolding all_nodes
all_nodes-add vn [] x vs n m =
    In-append_right n (nodes_from x (num_nodes vn x) 0) (all_nodes vn vs) m
all_nodes-add vn (u ∷ us) x vs n m =
    let mine = nodes_from u (num_nodes vn u) 0 in
    elim (In-append n mine (all_nodes vn (us ++ vs)) m) [
      | inl a ↦ In-append_left n mine (all_nodes vn (us ++ x ∷ vs)) a
      | inr b ↦ In-append_right n mine (all_nodes vn (us ++ x ∷ vs)) (all_nodes-add vn us x vs n b)
    ]

distance_inj :
    (k a b : ℕ)
    → a < 4294967296
    → b < 4294967296
    → k < 4294967296
    → distance k a ≡ distance k b
    → a ≡ b
distance_inj k a b p q r h = ground arith

all_nodes-middle :
    (vn : ℕ) (us : List WeightedUpstream) (x : WeightedUpstream) (vs : List WeightedUpstream)
    → In (node x 0) (all_nodes vn (us ++ x ∷ vs))
unfolding all_nodes
all_nodes-middle vn [] x vs = all_nodes-cons vn x vs
all_nodes-middle vn (u ∷ us) x vs =
    In-append_right (node x 0) (nodes_from u (num_nodes vn u) 0) (all_nodes vn (us ++ x ∷ vs))
      (all_nodes-middle vn us x vs)

nearest_unique :
    (k : ℕ) (vn : ℕ) (us vs : List WeightedUpstream) (n m : HashNode)
    → k < 4294967296
    → In n (all_nodes vn us)
    → In m (all_nodes vn us)
    → In n (all_nodes vn vs)
    → In m (all_nodes vn vs)
    → IsNearest k (all_nodes vn us) n
    → IsNearest k (all_nodes vn vs) m
    → n.hash ≡ m.hash
nearest_unique k vn us vs n m b n_us m_us n_vs m_vs near near' =
    distance_inj k n.hash m.hash (All-In IsSmallHash _ (all_nodes-IsSmallHash vn us) n_us)
      (All-In IsSmallHash _ (all_nodes-IsSmallHash vn us) m_us) b
      (omega (
        arith,
        All-In (λ i. distance k n.hash ≤ distance k i.hash) (all_nodes vn us) near m_us,
        All-In (λ i. distance k m.hash ≤ distance k i.hash) (all_nodes vn vs) near' n_vs,
      ))

-- Where no two upstreams share a hash, taking one of them away moves only its own keys: every key
-- that another upstream owned stays with it.
pub new_ring-remove :
    (s : SortSlice HashNode) (us : List WeightedUpstream) (x : WeightedUpstream)
    (vs : List WeightedUpstream) (vn : ℕ) (key : Text) (u : WeightedUpstream)
    → IsCollisionFree (all_nodes vn (us ++ x ∷ vs))
    → ring_get (new_ring s (us ++ x ∷ vs) vn) key ≡ some u
    → u ≢ x
    → ring_get (new_ring s (us ++ vs) vn) key ≡ some u
new_ring-remove s us x vs vn key u free got other =
    let k = hash_string key in
    let (n, e, found, near) =
      new_ring-owner s (us ++ x ∷ vs) vn key (node x 0) (all_nodes-middle vn us x vs) in
    let mine : n.upstream ≡ u = cc in
    elim (all_nodes-drop vn us x vs n found) [
      | inl gone ↦ absurd (other (sym mine ∙ gone))
      | inr kept ↦
          let (m, e', found', near') = new_ring-owner s (us ++ vs) vn key n kept in
          let back = all_nodes-add vn us x vs m found' in
          let same =
            nearest_unique k vn (us ++ x ∷ vs) (us ++ vs) n m (hash_string-lt key) found back kept
              found' near near' in
          e' ∙ ap some (sym (free n m found back same) ∙ mine)
    ]
