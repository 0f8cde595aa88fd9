-- ===== src/Source.antt =====
-- datasource/datasource.go: what a data source answers for a key.
use caddy_dynamic_routing.Base.{Option, none}
use caddy_dynamic_routing.Config.{RouteConfig}

-- What `DataSource.Get` returns: an error, or a configuration that may be nil
pub data Answer : Type 0 where
  failed : Answer
  found : Option RouteConfig → Answer

-- The configuration of an answer, if it has one
abbrev pub config_of : Answer → Option RouteConfig
config_of failed = none
config_of (found o) = o
