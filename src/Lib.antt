-- ===== src/Lib.antt =====
-- caddy-dynamic-routing: an upstream selection policy for Caddy's reverse proxy. A request's key is
-- looked up in a data source, the configuration found there has rules, the first rule that the
-- request matches names weighted upstreams, and an algorithm selects one of them.
--
-- The parts and the files that model them:
--   Config, Config/Parse      datasource/types.go: RouteConfig, Rule and WeightedUpstream, their
--                             defaults, expiry and copies; ParseRouteConfigWithFormat, detectFormat
--   Request                   what net/http shows of a request; getClientIP of matcher/selector.go
--   Selector, Selector/...    matcher/selector.go: Select and its algorithms. Hash: hashString,
--                             hashToIndex, computeUpstreamsHash. Ring: NewConsistentHashRing, Get,
--                             Matches. Smooth: selectWeightedRoundRobin. Conn: selectLeastConn,
--                             IncrementConn, DecrementConn
--   Matcher                   matcher/matcher.go: resolvePlaceholder, getRegex, matchConditions,
--                             MatchResult, getSelector, selectUpstream
--   Plugin, Plugin/Names      plugin.go: findUpstreamInPool, Select and its closure attempt;
--                             dataSourceType and its kin
--   Source                    datasource/datasource.go: what DataSource.Get returns
--   Composite                 datasource/composite/composite.go: the modes failover, merge, priority
--                             and first, their parallel forms, mergeConfig, the results' cache
--   RouteCache                datasource/cache/cache.go: RouteCache
--   Extractor                 extractor/extractor.go: NewFromExpression, parseExpression, Extract
--   Upstreams                 dynamic_upstreams.go: GetUpstreams, configToUpstreams
--   Jwks                      gateway_jwt.go: jwksCache with KeyForToken and Refresh, parseJWKSKeysByKID
--   Gateway, Gateway/Setup    gateway_jwt.go: ServeHTTP and what it calls; Provision, with its lists
--                             in Gateway/Lists
--   Json                      the values that encoding/json decodes
--   HttpSource                datasource/http/http.go: Get, fetch, refreshCache, doHealthCheck
--   Etcd                      datasource/etcd/etcd.go: Get, initialLoad, watch, watchLoop
--   Consul                    datasource/consul/consul.go: Get, initialLoad, watch
--   FileSource                datasource/file/file.go: Get, loadDirectory, loadSingleFile, the reloads
--   Redis                     datasource/redis/redis.go: Get, initialLoad, handleMessage, refreshKey
--   Events                    events.go: EventBus and the emitter's switch
--   Admin                     datasource/admin_registry.go and admin_helpers.go: RegisterAdminSource,
--                             UnregisterAdminSource, SummarizeRouteConfig
--   Lru                       what golang-lru promises, as an interface; Lru/Recent is a cache that
--                             keeps the promise
--   Base                      shared names, lists, byte strings, Go's int, sorting, maps
-- The other modules below these hold the proofs; Tests holds the theorems at concrete inputs.
--
-- How the state corresponds: an UpstreamSelector is the record Selector, a RuleMatcher's caches are
-- an LRU cache of compiled expressions and an LRU cache of places in the list of selectors made so
-- far, DynamicSelection's mutable part is the record State of Plugin, and a CompositeSource's is
-- Results. Each operation takes the state and returns the next.
--
-- The data sources over HTTP, etcd, Consul and Redis share RouteCache and the parser of Config/Parse. Each is
-- a record of a cache, a health flag and whether the last error is set; a lookup has two steps, what it
-- sees in the cache and what it makes of the server's answer. The LRU cache tells its length and its
-- size, and drops an entry only when one is added to a full cache.
--
-- Conventions: strings are lists of bytes; `int` is a signed integer with Go's wrap-around at 2 ^ 63;
-- `uint32` and `uint64` are natural numbers modulo 2 ^ 32 and 2 ^ 64; times and durations are
-- nanoseconds. Every loop is structural recursion, except the digits of a number (its value and one
-- more bound their count) and sort.Search (the slice's length bounds its steps).
--
-- Parameters: rand.Intn, sort.Slice (any sort that the documentation allows), sort.Strings,
-- regexp.Compile, the JSON, YAML, base64 and hex decoders, Caddy's replacer, the data source, the
-- pool's availability test, the LRU cache, net and net/netip, SHA-256, the test for a point of a
-- curve, the JWT library (a token's key ID, and its claims if it is signed and valid), and the replies
-- of every server.
--
-- Not modelled: the sources for Kubernetes, SQL and ZooKeeper, the admin API's HTTP
-- handlers, the Caddyfile parsers, metrics and tracing; inside the modelled parts, logging, timers,
-- the set-up of clients, error texts, and the interleaving of goroutines within one call, except
-- where a parallel mode receives answers in any order.
pub mod Admin
pub mod Base
pub mod Composite
pub mod Config
pub mod Consul
pub mod Etcd
pub mod Events
pub mod Extractor
pub mod FileSource
pub mod Gateway
pub mod HttpSource
pub mod Json
pub mod Jwks
pub mod Lru
pub mod Matcher
pub mod Plugin
pub mod Redis
pub mod Request
pub mod RouteCache
pub mod Selector
pub mod Source
pub mod Tests
pub mod Upstreams
