-- ===== src/Etcd/Backoff.antt =====
-- `watchLoop`: the delays between the watches.
use caddy_dynamic_routing.Base.{ℕ, ◌≡◌, List, [], ◌∷◌}
use caddy_dynamic_routing.Lru.{Lru}
use caddy_dynamic_routing.RouteCache.{RouteCache}
use caddy_dynamic_routing.Etcd.{next_backoff}

-- The delays that double up to a minute
unfoldable pub IsDoubling : ℕ → List ℕ → Type 0
IsDoubling backoff [] = Unit
IsDoubling backoff (w ∷ ws) = (w ≡ backoff) × IsDoubling (next_backoff backoff) ws
