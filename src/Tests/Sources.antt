-- ===== src/Tests/Sources.antt =====
-- Tests of the data sources over HTTP, etcd and Consul.
use caddy_dynamic_routing.Base.{
  ℕ, ◌≡◌, refl, true, false, List, [], ◌∷◌, ◌++◌, Option, none, some, inr, Text, bytes, str_eq,
  if◌then◌else◌, ltb, arith,
}
use caddy_dynamic_routing.Base.Int.{pos}
use caddy_dynamic_routing.Base.Maps.{load, delete}
use caddy_dynamic_routing.Base.Sort.{by_insertion}
use caddy_dynamic_routing.Base.Texts.{has}
use caddy_dynamic_routing.Config.{RouteConfig, zero_config}
use caddy_dynamic_routing.Config.Parse.{Decoders, ok, parse, plain}
use caddy_dynamic_routing.Config.Parse.Address.{parse-address}
use caddy_dynamic_routing.Source.{found}
use caddy_dynamic_routing.Lru.Recent.{recent, lookup, first_entries, drop_key}
use caddy_dynamic_routing.RouteCache.{
  RouteCache, new_route_cache, get, look_up, set_route, delete_route, all_keys,
}
use caddy_dynamic_routing.HttpSource.{
  Fetched, broken, fetched, Reply, response, Settings, with_defaults, HttpSource, fetch_from,
  provision, health_check, get_route, refresh_cache, refresh_keys, refresh_key,
}
use caddy_dynamic_routing.HttpSource.Retries.{IsFetch, fetch_from-IsFetch}
use caddy_dynamic_routing.HttpSource.Table.{IsResult}
use caddy_dynamic_routing.HttpSource.Refreshed.{
  IsReachable, provisioned, IsReachable-IsResult, refresh_cache-IsFresh,
}
use caddy_dynamic_routing.Etcd.{
  delete_event, Message, channel_closed, events, first_backoff, next_backoff, EtcdSource, watch,
  watch_loop, receive, load_at_start,
}
use caddy_dynamic_routing.Etcd.Replay.{replay, puts, stores, received, watch-replay}
use caddy_dynamic_routing.RouteCache.Held.{LacksRoom, IsHeld}
use caddy_dynamic_routing.Consul.{apply_list}
use caddy_dynamic_routing.Consul.Listing.{last_value, apply_list-IsHeld}
use caddy_dynamic_routing.Redis.{nil_value, act, refresh_action}
use caddy_dynamic_routing.Redis.Messages.{acted, Lacks, act-IsHeld}
use caddy_dynamic_routing.FileSource.{Entry, directory, load_entries, load_all}
use caddy_dynamic_routing.FileSource.Directory.{contents_route, load_all-contents_route}
use caddy_dynamic_routing.Tests.{routed}

-- Two attempts fail and the third answers.
abbrev flaky : ℕ → Fetched
flaky i = if ltb i 2 then broken else fetched (some routed)

fetch_from-IsFetch_example : IsFetch flaky (λ i. false) 0 3 (fetch_from flaky (λ i. false) 0 3)
fetch_from-IsFetch_example = fetch_from-IsFetch flaky (λ i. false) 3 0 3 refl

fetch_from_test : fetch_from flaky (λ i. false) 0 3 ≡ (found (some routed), 3)
unfolding fetch_from
fetch_from_test = refl

-- The API knows the key "a".
abbrev table : Text → Option RouteConfig
table key = if str_eq key (bytes "a") then some routed else none

abbrev settings : Settings
settings = record {
  url = bytes "https://api";
  method = [];
  timeout = pos 0;
  cache_ttl = pos 0;
  refresh_interval = pos 0;
  retry_count = pos 0;
  retry_delay = pos 0;
  health_endpoint = [];
  max_cache_size = pos 0;
}

abbrev checked : Reply
checked = response 200 none

abbrev fresh_source : HttpSource recent
fresh_source = record { cache = new_route_cache recent 10000; healthy = true; failing = false }

fresh_source-IsReachable : IsReachable recent table fresh_source
unfolding provision with_defaults health_check
fresh_source-IsReachable = provisioned settings (with_defaults settings) checked fresh_source refl

IsReachable-IsResult_example :
    IsResult recent table
      (bytes "a")
      (found (some routed))
      fresh_source
      (get_route recent 5 (bytes "a") (found (some routed)) fresh_source).0
unfolding str_eq
IsReachable-IsResult_example =
    IsReachable-IsResult recent table 5 (bytes "a") (found (some routed)) fresh_source
      fresh_source-IsReachable (inr refl)

-- A cache with a route that the API has changed, and one that it no longer has
abbrev old_source : HttpSource recent
old_source = record fresh_source {
  cache =
      set_route recent (bytes "a") zero_config
        (set_route recent (bytes "b") zero_config (new_route_cache recent 0));
}

refreshed_test :
    (get recent 5 (bytes "a") (refresh_cache recent (λ k. found (table k)) old_source).cache).0
    ≡ some routed
unfolding get look_up refresh_cache refresh_keys refresh_key set_route delete_route new_route_cache
    all_keys load delete str_eq lookup first_entries drop_key
refreshed_test = refl

refresh_cache-IsFresh_example : table (bytes "a") ≡ some routed
refresh_cache-IsFresh_example =
    refresh_cache-IsFresh recent table (λ k. found (table k)) old_source 5 (bytes "a") routed
      (λ k. refl) refreshed_test

abbrev decoders : Decoders
decoders = record {
  json_string = λ raw. none;
  json_config = λ raw. none;
  yaml_config = λ raw. none;
}

parse_test : parse decoders by_insertion (bytes "h:80") ≡ ok (some (plain (bytes "h:80")))
parse_test =
    parse-address decoders by_insertion (bytes "h") (bytes "80")
      ((refl, (λ e. omega (arith, e)), refl), tt) (refl, (refl, tt)) (λ e. absurd (cc))

abbrev no_routes : RouteCache recent
no_routes = new_route_cache recent 0

watch-replay_example :
    IsHeld recent
      (LacksRoom recent
        (stores (
          puts ((bytes "k", bytes "h:80") ∷ [])
          ++ received (events (delete_event (bytes "k") ∷ []) ∷ channel_closed ∷ [])))
        no_routes)
      (bytes "k")
      (replay recent decoders by_insertion
        (bytes "k")
        (puts ((bytes "k", bytes "h:80") ∷ [])
          ++ received (events (delete_event (bytes "k") ∷ []) ∷ channel_closed ∷ []))
        none)
      (watch recent decoders by_insertion
        (events (delete_event (bytes "k") ∷ []) ∷ channel_closed ∷ [])
        (load_at_start recent decoders by_insertion
          (some ((bytes "k", bytes "h:80") ∷ []))
          no_routes)).1.cache
unfolding new_route_cache lookup
watch-replay_example =
    watch-replay recent decoders by_insertion (bytes "k") ((bytes "k", bytes "h:80") ∷ [])
      (events (delete_event (bytes "k") ∷ []) ∷ channel_closed ∷ []) no_routes refl

abbrev up : EtcdSource recent decoders by_insertion
up = record { cache = no_routes; healthy = true; failing = false }

abbrev two_runs : List (List Message)
two_runs = (channel_closed ∷ []) ∷ (events [] ∷ channel_closed ∷ []) ∷ []

watch_loop_test :
    (watch_loop recent decoders by_insertion first_backoff two_runs up).0
    ≡ 1000000000 ∷ 2000000000 ∷ []
unfolding watch_loop watch receive next_backoff
watch_loop_test = refl

apply_list-IsHeld_example :
    IsHeld recent
      (LacksRoom recent 1 no_routes)
      (bytes "k")
      (if has (bytes "k") (bytes "k" ∷ [])
        then last_value recent decoders by_insertion
            (bytes "k")
            ((bytes "k", bytes "h:80") ∷ [])
            ((recent {V = RouteConfig}).peek (bytes "k") no_routes.cache)
        else none)
      (apply_list recent decoders by_insertion ((bytes "k", bytes "h:80") ∷ []) no_routes)
apply_list-IsHeld_example =
    apply_list-IsHeld recent decoders by_insertion (bytes "k") ((bytes "k", bytes "h:80") ∷ [])
      no_routes

-- A file of the directory
abbrev one_file : List Entry
one_file = record { name = bytes "k.txt"; is_dir = false; content = some (bytes "h:80") } ∷ []

abbrev old_files : List (Text × RouteConfig)
old_files = (bytes "gone", routed) ∷ []

load_all-contents_route_example :
    load (bytes "k") (load_entries decoders by_insertion [] one_file old_files)
    ≡ contents_route decoders by_insertion (bytes "k") (directory (some one_file))
unfolding load_all
load_all-contents_route_example =
    load_all-contents_route decoders by_insertion (bytes "k") (directory (some one_file)) old_files
      (load_entries decoders by_insertion [] one_file old_files) refl

-- The key "k" is gone on the server.
act-IsHeld_example :
    IsHeld recent
      (Lacks recent decoders by_insertion (refresh_action (bytes "k")) no_routes)
      (bytes "k")
      (acted recent decoders by_insertion
        (λ key. nil_value)
        (refresh_action (bytes "k"))
        (bytes "k")
        ((recent {V = RouteConfig}).peek (bytes "k") no_routes.cache))
      (act recent decoders by_insertion (λ key. nil_value) (refresh_action (bytes "k")) no_routes)
act-IsHeld_example =
    act-IsHeld recent decoders by_insertion (λ key. nil_value) (refresh_action (bytes "k"))
      (bytes "k") no_routes
