-- ===== src/FileSource.antt =====
-- datasource/file/file.go: routes kept in the files of a directory, or in one file, all read again
-- when something changes. The file system is a parameter: what is read. The cache is a `sync.Map`.
pub mod Directory
use caddy_dynamic_routing.Base.{
  ℕ, ◌+◌, ◌%◌, ◌==◌, Bool, true, false, List, [], ◌∷◌, Option, none, some, Text, bytes, is_nil,
  has_prefix, str_eq, not, ◌&&◌, ◌||◌, if◌then◌else◌,
}
use caddy_dynamic_routing.Base.Int.{ℤ, pos, ltb_ℤ}
use caddy_dynamic_routing.Base.Maps.{load}
use caddy_dynamic_routing.Base.Texts.{has}
use caddy_dynamic_routing.Base.Sort.{SortSlice}
use caddy_dynamic_routing.Config.{RouteConfig, Rule}
use caddy_dynamic_routing.Config.Parse.{Decoders, Result, ok, err, parse}
use caddy_dynamic_routing.Request.{before_last?}

-- An entry of the directory: its name, whether it is a directory, and its data, if it can be read
pub record Entry : Type 0 where
  pub name : Text
  pub is_dir : Bool
  pub content : Option Text

-- The fields of the source; `failing` is that the last error is not empty.
pub record FileSource : Type 0 where
  pub cache : List (Text × RouteConfig)
  pub healthy : Bool
  pub failing : Bool
  pub hits : ℕ
  pub misses : ℕ

-- `Validate`
unfoldable pub is_valid_settings : Text → Text → ℤ → Bool
is_valid_settings path format poll_interval =
    not (is_nil path)
    && ((is_nil format
          || (str_eq format (bytes "auto")
              || (str_eq format (bytes "json") || str_eq format (bytes "yaml"))))
        && not (ltb_ℤ poll_interval (pos 0)))

-- `Get`
unfoldable pub get_route : Text → FileSource → Option RouteConfig × FileSource
get_route key f = elim (load key f.cache) [
  | some config ↦ (some config, record f { hits = (f.hits + 1) % 18446744073709551616 })
  | none ↦ (none, record f { misses = (f.misses + 1) % 18446744073709551616 })
]

-- `AdminClearCache`
unfoldable pub admin_clear_cache : FileSource → FileSource
admin_clear_cache f = record f { cache = []; hits = 0; misses = 0 }

-- The name without `filepath.Ext`
unfoldable pub key_of_name : Text → Text
key_of_name name = elim (before_last? b'.' name) [ some stem ↦ stem | none ↦ name ]

-- The removal of the entries that were not loaded
unfoldable pub keep_loaded : List Text → List (Text × RouteConfig) → List (Text × RouteConfig)
keep_loaded loaded [] = []
keep_loaded loaded ((key, v) ∷ m) =
    let rest = keep_loaded loaded m in if has key loaded then (key, v) ∷ rest else rest

module _ (decoders : Decoders) (sort : SortSlice Rule) where
  -- What is stored of a text
  unfoldable pub route_of : Text → Option RouteConfig
  route_of content = elim (parse decoders sort content) [ err _ ↦ none | ok config ↦ config ]

  -- What the loop stores of an entry, if it is not passed over
  unfoldable pub entry_route : Entry → Option RouteConfig
  entry_route e =
      let parsed : Option RouteConfig = elim e.content [
        | none ↦ none
        | some content ↦ route_of content
      ] in
      if e.is_dir then none else if has_prefix e.name (bytes ".") then none else parsed

  -- The loop of `loadDirectory`, and then the removal
  unfoldable pub load_entries :
      List Text → List Entry → List (Text × RouteConfig) → List (Text × RouteConfig)
  load_entries loaded [] m = keep_loaded loaded m
  load_entries loaded (e ∷ es) m = elim (entry_route e) [
    | none ↦ load_entries loaded es m
    | some v ↦ load_entries (key_of_name e.name ∷ loaded) es ((key_of_name e.name, v) ∷ m)
  ]

  -- The loop of `loadSingleFile` over the file's map, in the order in which it is visited
  unfoldable pub load_pairs :
      List Text → List (Text × Text) → List (Text × RouteConfig) → List (Text × RouteConfig)
  load_pairs loaded [] m = keep_loaded loaded m
  load_pairs loaded ((key, raw) ∷ pairs) m = elim (route_of raw) [
    | none ↦ load_pairs loaded pairs m
    | some v ↦ load_pairs (key ∷ loaded) pairs ((key, v) ∷ m)
  ]

  -- What `loadAll` reads: a directory's entries, or a file's map, missing where it cannot be read
  pub data Contents : Type 0 where
    directory : Option (List Entry) → Contents
    single_file : Option (List (Text × Text)) → Contents

  -- `loadAll`: the cache, or an error
  unfoldable pub load_all :
      Contents → List (Text × RouteConfig) → Option (List (Text × RouteConfig))
  load_all (directory none) m = none
  load_all (directory (some es)) m = some (load_entries [] es m)
  load_all (single_file none) m = none
  load_all (single_file (some pairs)) m = some (load_pairs [] pairs m)

  -- The initial load in `Provision`
  unfoldable pub load_at_start : Contents → FileSource
  load_at_start contents = elim (load_all contents []) [
    | some m ↦ record { cache = m; healthy = true; failing = false; hits = 0; misses = 0 }
    | none ↦ record { cache = []; healthy = false; failing = true; hits = 0; misses = 0 }
  ]

  -- A reload, by the watcher or by polling
  unfoldable pub reload : Contents → FileSource → FileSource
  reload contents f = elim (load_all contents f.cache) [
    | some m ↦ record f { cache = m }
    | none ↦ f
  ]
