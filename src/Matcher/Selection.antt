-- ===== src/Matcher/Selection.antt =====
-- `selectUpstream`: what the cached selectors select.
use caddy_dynamic_routing.Base.{
  ap, some_inj, ℕ, zero, suc, ◌≡◌, ◌≢◌, refl, sym, ◌∙◌, List, [], ◌∷◌, none, some, inl, Text, All,
  All-In, get_elem?-In, get_elem?,
}
use caddy_dynamic_routing.Base.Sort.{SortSlice}
use caddy_dynamic_routing.Lru.{Lru}
use caddy_dynamic_routing.Request.{Request}
use caddy_dynamic_routing.Config.{WeightedUpstream}
use caddy_dynamic_routing.Selector.{
  Selector, Algorithm, weighted_random, round_robin, weighted_round_robin, ip_hash, uri_hash,
  header_hash, first, consistent_hash, least_conn, algorithm_of, new_selector, select_by,
  select_round_robin, select_consistent_hash, select,
}
use caddy_dynamic_routing.Selector.Ring.{HashNode}
use caddy_dynamic_routing.Selector.Draw.{IsChoice, IsIntn}
use caddy_dynamic_routing.Selector.Choice.{
  IsFaithful, select_faithful-IsChoice, IsHashedApart, IsPrepared, select-IsChoice,
}
use caddy_dynamic_routing.Selector.Fit.{IsFit}
use caddy_dynamic_routing.Base.{set}
use caddy_dynamic_routing.Matcher.{cache_key, Selectors, get_selector, select_at, select_upstream}
use caddy_dynamic_routing.Matcher.Kept.{IsKeyed, get_selector_lem, get_selector-All}

module _ (lru : Lru ℕ) where
  module _ (rand : ℕ → ℕ) (sorter : SortSlice HashNode) (r : Request) where
    -- The selector's slices fit, and its ring, where it passes for that of the candidates, is it.
    abbrev pub IsReady : List WeightedUpstream → Selector → Type 0
    IsReady us sel = IsFit sel.wrr × IsFaithful sorter sel.hash_ring us

    new_selector-IsReady : (us : List WeightedUpstream) (a k : Text) → IsReady us (new_selector a k)
    unfolding new_selector
    new_selector-IsReady us a k =
        (record { weights_fit = refl; current_fit = refl }, λ ring e. absurd (cc))

    select_at-IsChoice :
        (u : WeightedUpstream) (us : List WeightedUpstream) (i : ℕ) (s : Selectors lru)
        (sel : Selector)
        → IsIntn rand
        → r.url_path ≢ none
        → All (IsReady (u ∷ us)) s.made
        → get_elem? s.made i ≡ some sel
        → IsChoice (u ∷ us) (select_at lru rand sorter r (u ∷ us) (i, s)).0
    unfolding select_at
    select_at-IsChoice u us i s sel n h ready e =
        let (fit, faithful) = All-In (IsReady (u ∷ us)) s.made ready (get_elem?-In s.made i e) in
        rw (select_at, e) (select_faithful-IsChoice rand sorter r sel u us n h fit faithful).1

    -- From at least one candidate, `selectUpstream` returns one of them, whatever the algorithm, its
    -- key and the selectors made before, where the cache's places are those of selectors made for
    -- their keys, and the selectors fit and hold no ring that passes wrongly for the candidates'.
    pub select_upstream_ready-IsChoice :
        (u : WeightedUpstream) (us : List WeightedUpstream) (a k : Text) (s : Selectors lru)
        → IsIntn rand
        → r.url_path ≢ none
        → IsKeyed lru s
        → All (IsReady (u ∷ us)) s.made
        → IsChoice (u ∷ us) (select_upstream lru rand sorter r (u ∷ us) a k s).0
    unfolding select_upstream
    select_upstream_ready-IsChoice u [] a k s n h keyed ready = (u, refl, inl refl)
    select_upstream_ready-IsChoice u (v ∷ us) a k s n h keyed ready =
        let ((sel, found, _), _) = get_selector_lem lru a k s keyed in
        select_at-IsChoice u (v ∷ us) (get_selector lru a k s).0 (get_selector lru a k s).1 sel n h
          (get_selector-All lru (IsReady (u ∷ v ∷ us)) a k s (new_selector-IsReady (u ∷ v ∷ us) a k)
            ready)
          found

    new_selector-IsPrepared :
        (Asked : List WeightedUpstream → Type 0) (a k : Text)
        → IsPrepared sorter Asked (new_selector a k)
    unfolding new_selector
    new_selector-IsPrepared Asked a k = record {
      fit = record { weights_fit = refl; current_fit = refl };
      built = λ ring e. absurd (cc);
    }

    -- A selection keeps the algorithm and its key.
    select_by-key :
        (a : Algorithm) (sel : Selector) (us : List WeightedUpstream)
        → ((select_by rand sorter r a sel us).0.algorithm ≡ sel.algorithm)
          × ((select_by rand sorter r a sel us).0.hash_key ≡ sel.hash_key)
    unfolding select_by select_round_robin select_consistent_hash
    select_by-key weighted_random sel us = (refl, refl)
    select_by-key round_robin sel us = (refl, refl)
    select_by-key weighted_round_robin sel us = (refl, refl)
    select_by-key ip_hash sel us = (refl, refl)
    select_by-key uri_hash sel us = (refl, refl)
    select_by-key header_hash sel us = (refl, refl)
    select_by-key first sel us = (refl, refl)
    select_by-key consistent_hash sel us = (refl, refl)
    select_by-key least_conn sel us = (refl, refl)

    abbrev key_of : Selector → Text
    key_of sel = cache_key sel.algorithm sel.hash_key

    select-key :
        (sel : Selector) (us : List WeightedUpstream)
        → key_of (select rand sorter r sel us).0 ≡ key_of sel
    unfolding select
    select-key sel [] = refl
    select-key sel (u ∷ []) = refl
    select-key sel (u ∷ v ∷ us) =
        let (a, k) = select_by-key (algorithm_of sel.algorithm) sel (u ∷ v ∷ us) in
        (λ i. cache_key (a i) (k i))

    get_elem?-set_key :
        (xs : List Selector) (i j : ℕ) (sel next x : Selector)
        → get_elem? xs i ≡ some sel
        → key_of next ≡ key_of sel
        → get_elem? xs j ≡ some x
        → (y : Selector) × (get_elem? (set xs i next) j ≡ some y) × (key_of y ≡ key_of x)
    get_elem?-set_key [] i j sel next x f e g = absurd (cc)
    get_elem?-set_key (z ∷ xs) zero zero sel next x f e g =
        (next, refl, e ∙ ap key_of (some_inj (sym f ∙ g)))
    get_elem?-set_key (z ∷ xs) zero (suc j) sel next x f e g = (x, g, refl)
    get_elem?-set_key (z ∷ xs) (suc i) zero sel next x f e g = (x, g, refl)
    get_elem?-set_key (z ∷ xs) (suc i) (suc j) sel next x f e g =
        get_elem?-set_key xs i j sel next x f e g

    All-set :
        (P : Selector → Type 0) (xs : List Selector) (i : ℕ) (y : Selector)
        → All P xs
        → P y
        → All P (set xs i y)
    All-set P [] i y h p = tt
    All-set P (x ∷ xs) zero y h p = (p, h.1)
    All-set P (x ∷ xs) (suc i) y h p = (h.0, All-set P xs i y h.1 p)

    -- The cache's places are those of selectors made for their keys, and the selectors' slices fit and
    -- their rings were built from the lists in question.
    abbrev pub IsSound : (List WeightedUpstream → Type 0) → Selectors lru → Type 0
    IsSound Asked s = IsKeyed lru s × All (IsPrepared sorter Asked) s.made

    module _ (Asked : List WeightedUpstream → Type 0) (n : IsIntn rand)
        (located : r.url_path ≢ none) (apart : IsHashedApart Asked) where
      select_at-IsSound :
          (u : WeightedUpstream) (us : List WeightedUpstream) (i : ℕ) (s : Selectors lru)
          (sel : Selector)
          → Asked (u ∷ us)
          → IsSound Asked s
          → get_elem? s.made i ≡ some sel
          → IsChoice (u ∷ us) (select_at lru rand sorter r (u ∷ us) (i, s)).0
            × IsSound Asked (select_at lru rand sorter r (u ∷ us) (i, s)).1
      unfolding select_at
      select_at-IsSound u us i s sel asked (keyed, made) e =
          let prepared = All-In (IsPrepared sorter Asked) s.made made (get_elem?-In s.made i e) in
          let (after, choice) =
            select-IsChoice rand sorter r Asked sel u us n located apart asked prepared in
          let next : Selector = (select rand sorter r sel (u ∷ us)).0 in
          rw (select_at, e)
            (
              choice,
              (
                λ k j f.
                    (let (x, g, same) = keyed k j f in
                      let (y, found, kept) =
                        get_elem?-set_key s.made i j sel next x e (select-key sel (u ∷ us)) g in
                      (y, found, kept ∙ same)),
                All-set (IsPrepared sorter Asked) s.made i next made after,
              ),
            )

      -- Take any lists of candidates of which no two have the same hash. From one of them that has a
      -- candidate, for a request that has a URL, `selectUpstream` returns one of the candidates,
      -- neither nil nor a panic, whatever the algorithm and its key, if the cache's places are those
      -- of selectors made for their keys, and every selector's slices fit and its ring, if it has one,
      -- was built from one of the lists; and all of this holds of what it leaves, so that it serves any
      -- row of such requests.
      pub select_upstream-IsChoice :
          (u : WeightedUpstream) (us : List WeightedUpstream) (a k : Text) (s : Selectors lru)
          → Asked (u ∷ us)
          → IsSound Asked s
          → IsChoice (u ∷ us) (select_upstream lru rand sorter r (u ∷ us) a k s).0
            × IsSound Asked (select_upstream lru rand sorter r (u ∷ us) a k s).1
      unfolding select_upstream
      select_upstream-IsChoice u [] a k s asked sound = ((u, refl, inl refl), sound)
      select_upstream-IsChoice u (v ∷ us) a k s asked (keyed, made) =
          let ((sel, found, _), still) = get_selector_lem lru a k s keyed in
          select_at-IsSound u (v ∷ us) (get_selector lru a k s).0 (get_selector lru a k s).1 sel
            asked
            (
              still,
              get_selector-All lru (IsPrepared sorter Asked) a k s
                  (new_selector-IsPrepared Asked a k) made,
            )
            found
