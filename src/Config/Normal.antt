-- ===== src/Config/Normal.antt =====
-- What `normalizeConfig` establishes, and what the copies keep.
use caddy_dynamic_routing.Base.{
  ℕ, ◌+◌, ◌<◌, ◌≡◌, refl, ap, ◌↔◌, ◌≢◌, Text, Bool, true, false, List, [], ◌∷◌, map, Option, none,
  some, arith, All, IsOrdered,
}
use caddy_dynamic_routing.Base.Int.{ℤ, pos, negsuc, pos_part, neg_part, ltb_ℤ, int_limit}
use caddy_dynamic_routing.Base.Sort.{SortSlice, IsWeakOrder}
use caddy_dynamic_routing.Config.{
  WeightedUpstream, Rule, RouteConfig, effective_weight, is_expired, default_weight,
  default_weights, higher, normalize_config, clone_upstream, clone_pair, clone_enabled, clone_rule,
  clone, with_version,
}
use mathlib.Core.List.{Permᴰ}

-- The first rule's priority is not below the second's.
abbrev pub NotLower : Rule → Rule → Type 0
NotLower a b = ltb_ℤ a.priority b.priority ≡ false

abbrev pub HasWeight : WeightedUpstream → Type 0
HasWeight u = 0 < pos_part u.weight

pub record IsNormal (c : RouteConfig) : Type 0 where
  pub ordered : IsOrdered NotLower c.rules
  pub weighted : All (λ r. All HasWeight r.upstreams) c.rules

higher-IsWeakOrder : IsWeakOrder higher
unfolding higher
higher-IsWeakOrder = record { asym = λ a b h. ground arith; trans_not = λ a b c h k. ground arith }

default_weight-HasWeight : (us : List WeightedUpstream) → All HasWeight (map default_weight us)
default_weight-HasWeight [] = tt
default_weight-HasWeight (u ∷ us) = (ground arith, default_weight-HasWeight us)

default_weights-weighted :
    (rs : List Rule) → All (λ r. All HasWeight r.upstreams) (map default_weights rs)
default_weights-weighted [] = tt
default_weights-weighted (r ∷ rs) =
    (default_weight-HasWeight r.upstreams, default_weights-weighted rs)

NotLower-map :
    (r : Rule) (rs : List Rule) → All (NotLower r) rs → All (NotLower r) (map default_weights rs)
NotLower-map r [] h = tt
NotLower-map r (q ∷ qs) (p, h) = (p, NotLower-map r qs h)

default_weights-IsOrdered :
    (rs : List Rule) → IsOrdered NotLower rs → IsOrdered NotLower (map default_weights rs)
default_weights-IsOrdered [] h = tt
default_weights-IsOrdered (r ∷ rs) (p, h) = (NotLower-map r rs p, default_weights-IsOrdered rs h)

-- Whatever order `sort.Slice` leaves equal priorities in, the rules of a normalised configuration
-- stand in order of priority, highest first, every upstream has a positive weight, and the rules are
-- those given, permuted and with default weights.
pub normalize_config-IsNormal :
    (s : SortSlice Rule) (c : RouteConfig)
    → IsNormal (normalize_config s c)
      × ((rs : List Rule) × Permᴰ c.rules rs
          × ((normalize_config s c).rules ≡ map default_weights rs))
unfolding normalize_config higher
normalize_config-IsNormal s c = (
  record {
    ordered = default_weights-IsOrdered _ (s.sort-IsOrdered higher c.rules higher-IsWeakOrder);
    weighted = default_weights-weighted (s.sort higher c.rules);
  },
  (s.sort higher c.rules, s.sort-perm higher c.rules, refl),
)

-- On a weight that `normalizeConfig` leaves alone the effective weight is the weight itself, and it
-- is positive on every weight.
pub effective_weight_lem :
    (w : ℤ) → (0 < effective_weight w) × (0 < pos_part w → effective_weight w ≡ pos_part w)
unfolding effective_weight
effective_weight_lem (pos n) = (ground arith, λ h. ground arith)
effective_weight_lem (negsuc n) = (ground arith, λ h. ground arith)

clone_upstreams_lem : (us : List WeightedUpstream) → map clone_upstream us ≡ us
unfolding clone_upstream
clone_upstreams_lem [] = refl
clone_upstreams_lem (u ∷ us) = rw (clone_upstreams_lem us)

clone_pairs_lem : (ps : List (Text × Text)) → map clone_pair ps ≡ ps
unfolding clone_pair
clone_pairs_lem [] = refl
clone_pairs_lem ((k, v) ∷ ps) = rw (clone_pairs_lem ps)

clone_rules_lem : (rs : List Rule) → map clone_rule rs ≡ rs
unfolding clone_rule
clone_rules_lem [] = refl
clone_rules_lem (r ∷ rs) =
    rw (clone_rules_lem rs, clone_upstreams_lem r.upstreams, clone_pairs_lem r.match)

clone_enabled_lem : (b : Option Bool) → clone_enabled b ≡ b
unfolding clone_enabled
clone_enabled_lem none = refl
clone_enabled_lem (some b) = refl

clone-eq : (c : RouteConfig) → clone c ≡ c
unfolding clone
clone-eq c = rw (clone_rules_lem c.rules, clone_pairs_lem c.metadata, clone_enabled_lem c.enabled)

-- A clone has every field of the original, the rules with their conditions and upstreams and the
-- metadata included; a new version differs from it in the version and the time of update alone.
pub clone_lem :
    (now : ℕ) (version : ℤ) (c : RouteConfig)
    → (clone c ≡ c)
      × (with_version now version c ≡ record c { version = version; updated_at = now })
unfolding with_version
clone_lem now version c = (
  clone-eq c,
  ap (λ (d : RouteConfig). record d { version = version; updated_at = now }) (clone-eq c),
)

-- A configuration expires exactly when it has a TTL and a time of update, and more than the TTL has
-- passed since then, for times that a duration can tell apart.
pub is_expired_iff :
    (now : ℕ) (c : RouteConfig)
    → now < c.updated_at + int_limit
    → c.updated_at < now + int_limit
    → (is_expired now c ≡ true) ↔ (
        (c.ttl ≢ pos 0)
        × (c.updated_at ≢ 0)
        × (c.updated_at + pos_part c.ttl < now + neg_part c.ttl))
unfolding is_expired
is_expired_iff now c h k = ground arith
