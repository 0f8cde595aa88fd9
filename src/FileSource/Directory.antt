-- ===== src/FileSource/Directory.antt =====
-- `loadAll`: after a load the cache is what was read.
use caddy_dynamic_routing.Base.{
  ◌≡◌, ◌≢◌, ◌↔◌, refl, sym, ap, ◌∙◌, Bool, true, false, List, [], ◌∷◌, Option, none, some, Text,
  inl, inr, Bool-cases, Option-cases, if◌then◌else◌, str_eq, str_eq→eq, some_inj,
}
use caddy_dynamic_routing.Base.Maps.{load}
use caddy_dynamic_routing.Base.Texts.{has}
use caddy_dynamic_routing.Base.Sort.{SortSlice}
use caddy_dynamic_routing.Config.{RouteConfig, Rule}
use caddy_dynamic_routing.Config.Parse.{Decoders}
use caddy_dynamic_routing.FileSource.{
  Entry, FileSource, key_of_name, keep_loaded, route_of, entry_route, load_entries, load_pairs,
  Contents, directory, single_file, load_all, load_at_start, reload,
}

load-keep_loaded :
    (key : Text) (loaded : List Text) (m : List (Text × RouteConfig))
    → load key (keep_loaded loaded m) ≡ (if has key loaded then load key m else none)
unfolding load keep_loaded
load-keep_loaded key loaded [] = elim (Bool-cases (has key loaded)) [
  | inl e ↦ rw e refl
  | inr e ↦ rw e refl
]
load-keep_loaded key loaded ((j, v) ∷ m) =
    let rest = load-keep_loaded key loaded m in
    elim (Bool-cases (has j loaded)) [
      | inl e ↦ elim (Bool-cases (str_eq j key)) [
        | inl s ↦
            let known : has key loaded ≡ true =
              ap (λ t. has t loaded) (sym (str_eq→eq j key s)) ∙ e in
            rw (keep_loaded, e, load, s, known) refl
        | inr s ↦ rw (keep_loaded, e, load, s) rest
      ]
      | inr e ↦ elim (Bool-cases (str_eq j key)) [
        | inl s ↦
            let unknown : has key loaded ≡ false =
              ap (λ t. has t loaded) (sym (str_eq→eq j key s)) ∙ e in
            rw (keep_loaded, e) (rest ∙ rw unknown refl)
        | inr s ↦ rw (keep_loaded, e, load, s) rest
      ]
    ]

-- A route where one was read already, else nothing
abbrev pub if_loaded : Bool → Option RouteConfig → Option RouteConfig
if_loaded b o = if b then o else none

module _ (decoders : Decoders) (sort : SortSlice Rule) where
  abbrev pub or_before : Option RouteConfig → Option RouteConfig → Option RouteConfig
  or_before none before = before
  or_before (some v) before = some v

  -- The specification: the route of the last entry of the key that has one
  unfoldable pub directory_route : Text → List Entry → Option RouteConfig → Option RouteConfig
  directory_route key [] before = before
  directory_route key (e ∷ es) before = directory_route key es (
      if str_eq (key_of_name e.name) key
      then or_before (entry_route decoders sort e) before
      else before)

  unfoldable pub file_route : Text → List (Text × Text) → Option RouteConfig → Option RouteConfig
  file_route key [] before = before
  file_route key ((j, raw) ∷ pairs) before =
      file_route key pairs
        (if str_eq j key then or_before (route_of decoders sort raw) before else before)

  -- What is read, and what of it is a key's route
  unfoldable pub contents_route : Text → Contents decoders sort → Option RouteConfig
  contents_route key (directory none) = none
  contents_route key (directory (some es)) = directory_route key es none
  contents_route key (single_file none) = none
  contents_route key (single_file (some pairs)) = file_route key pairs none

  -- A loop's next key: the route that it has so far
  stored :
      (key j : Text) (v : RouteConfig) (loaded : List Text) (m : List (Text × RouteConfig))
      → if_loaded (has key (j ∷ loaded)) (load key ((j, v) ∷ m))
        ≡ (if str_eq j key then some v else if_loaded (has key loaded) (load key m))
  unfolding has load
  stored key j v loaded m = elim (Bool-cases (str_eq j key)) [
    | inl s ↦ rw (has, load, s) refl
    | inr s ↦ rw (has, load, s) refl
  ]

  load-load_entries :
      (key : Text) (es : List Entry) (loaded : List Text) (m : List (Text × RouteConfig))
      → load key (load_entries decoders sort loaded es m)
        ≡ directory_route key es (if_loaded (has key loaded) (load key m))
  unfolding load_entries directory_route
  load-load_entries key [] loaded m = load-keep_loaded key loaded m
  load-load_entries key (e ∷ es) loaded m =
      let j : Text = key_of_name e.name in
      let before : Option RouteConfig = if_loaded (has key loaded) (load key m) in
      elim (Option-cases (entry_route decoders sort e)) [
        | inl n ↦
            let same : (if str_eq j key then before else before) ≡ before =
              elim (Bool-cases (str_eq j key)) [ inl s ↦ rw s refl | inr s ↦ rw s refl ] in
            rw (load_entries, n)
              (load-load_entries key es loaded m ∙ ap (directory_route key es) (sym same))
        | inr (v, n) ↦
            rw (load_entries, n)
              (load-load_entries key es (j ∷ loaded) ((j, v) ∷ m)
                ∙ ap (directory_route key es) (stored key j v loaded m))
      ]

  load-load_pairs :
      (key : Text) (pairs : List (Text × Text)) (loaded : List Text) (m : List (Text × RouteConfig))
      → load key (load_pairs decoders sort loaded pairs m)
        ≡ file_route key pairs (if_loaded (has key loaded) (load key m))
  unfolding load_pairs file_route
  load-load_pairs key [] loaded m = load-keep_loaded key loaded m
  load-load_pairs key ((j, raw) ∷ pairs) loaded m =
      let before : Option RouteConfig = if_loaded (has key loaded) (load key m) in
      elim (Option-cases (route_of decoders sort raw)) [
        | inl n ↦
            let same : (if str_eq j key then before else before) ≡ before =
              elim (Bool-cases (str_eq j key)) [ inl s ↦ rw s refl | inr s ↦ rw s refl ] in
            rw (load_pairs, n)
              (load-load_pairs key pairs loaded m ∙ ap (file_route key pairs) (sym same))
        | inr (v, n) ↦
            rw (load_pairs, n)
              (load-load_pairs key pairs (j ∷ loaded) ((j, v) ∷ m)
                ∙ ap (file_route key pairs) (stored key j v loaded m))
      ]

  -- Whatever the cache held, a load that can read its directory or file leaves just what is there:
  -- for each key the route of its last file or pair that has one, and nothing for any other key. So
  -- a file that is gone, and one that cannot be read or parsed any more, loses its route.
  pub load_all-contents_route :
      (key : Text) (contents : Contents decoders sort) (m after : List (Text × RouteConfig))
      → load_all decoders sort contents m ≡ some after
      → load key after ≡ contents_route key contents
  unfolding load_all contents_route has
  load_all-contents_route key (directory none) m after e = absurd (cc (e))
  load_all-contents_route key (directory (some es)) m after e =
      ap (load key) (sym (some_inj e)) ∙ load-load_entries key es [] m
  load_all-contents_route key (single_file none) m after e = absurd (cc (e))
  load_all-contents_route key (single_file (some pairs)) m after e =
      ap (load key) (sym (some_inj e)) ∙ load-load_pairs key pairs [] m

  -- Reloads, one after another
  unfoldable pub reload_all : List (Contents decoders sort) → FileSource → FileSource
  reload_all [] f = f
  reload_all (contents ∷ rest) f = reload_all rest (reload decoders sort contents f)

  reload_healthy :
      (contents : Contents decoders sort) (f : FileSource)
      → (reload decoders sort contents f).healthy ≡ f.healthy
  unfolding reload
  reload_healthy contents f = elim (Option-cases (load_all decoders sort contents f.cache)) [
    | inl n ↦ rw (reload, n) refl
    | inr (m, n) ↦ rw (reload, n) refl
  ]

  reload_all_healthy :
      (reloads : List (Contents decoders sort)) (f : FileSource)
      → (reload_all reloads f).healthy ≡ f.healthy
  unfolding reload_all
  reload_all_healthy [] f = refl
  reload_all_healthy (contents ∷ rest) f =
      reload_all_healthy rest (reload decoders sort contents f) ∙ reload_healthy contents f

  -- A source is healthy, after any reloads, just if its first load could read: reloads that fail do
  -- not make it unhealthy, and reloads that succeed do not make it healthy.
  pub reload_all-load_at_start :
      (start : Contents decoders sort) (reloads : List (Contents decoders sort))
      → ((reload_all reloads (load_at_start decoders sort start)).healthy ≡ true)
        ↔ (load_all decoders sort start [] ≢ none)
  unfolding load_at_start
  reload_all-load_at_start start reloads =
      let same = reload_all_healthy reloads (load_at_start decoders sort start) in
      elim (Option-cases (load_all decoders sort start [])) [
        | inl n ↦
            let sick : (load_at_start decoders sort start).healthy ≡ false =
              rw (load_at_start, n) refl in
            (λ h. absurd (cc (h, same, sick)), λ h. absurd (h n))
        | inr (m, n) ↦
            let well : (load_at_start decoders sort start).healthy ≡ true =
              rw (load_at_start, n) refl in
            (λ h. λ e. absurd (cc (n, e)), λ h. same ∙ well)
      ]
