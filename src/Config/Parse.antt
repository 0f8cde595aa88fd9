-- ===== src/Config/Parse.antt =====
-- datasource/types.go: `ParseRouteConfigWithFormat` and its guess of the format. The decoders of
-- encoding/json and gopkg.in/yaml.v3 are parameters. White space is that of ASCII.
pub mod Outcome
pub mod Address
use caddy_dynamic_routing.Base.{
  ℕ, Bool, true, false, List, [], ◌∷◌, Option, none, some, not, ◌&&◌, ◌||◌, Text, bytes, str_eq,
  is_nil, has_prefix, contains, trim_space, split_on, before, if◌then◌else◌, leb, ◌==◌,
}
use caddy_dynamic_routing.Base.Sort.{SortSlice}
use caddy_dynamic_routing.Config.{Rule, RouteConfig, zero_config, normalize_config}

pub data Format : Type 0 where
  auto json yaml simple : Format

-- The errors, without their texts: what the decoder says, and a structured configuration with
-- neither an upstream nor rules.
pub data ParseError : Type 0 where
  malformed : Format → ParseError
  empty_config : Format → ParseError

pub data Result {ℓ} (A : Type ℓ) : Type ℓ where
  ok : A → Result A
  err : ParseError → Result A

-- `json.Unmarshal` into a string and into a configuration, `yaml.Unmarshal` into a configuration;
-- `none` is an error.
pub record Decoders : Type 0 where
  pub json_string : Text → Option Text
  pub json_config : Text → Option RouteConfig
  pub yaml_config : Text → Option RouteConfig

-- The bytes that the code names: '"', '[', '{', ':', '\\n', ' ' and '\\t'
abbrev pub starts_json : Text → Bool
starts_json [] = false
starts_json (c ∷ s) = c == b'{' || (c == 34 || c == b'[')

abbrev pub is_digit : ℕ → Bool
is_digit c = leb b'0' c && leb c b'9'

unfoldable pub all_digits : Text → Bool
all_digits [] = true
all_digits (c ∷ s) = is_digit c && all_digits s

port_of : List Text → Bool
unfolding all_digits trim_space
port_of (host ∷ port ∷ []) = all_digits (trim_space port) && not (is_nil (trim_space port))
port_of _ = false

-- `isHostPort`
unfoldable pub is_host_port : Text → Bool
unfolding port_of split_on
is_host_port s = port_of (split_on b':' s)

-- The heuristic for "key: value" on one line
looks_like_mapping : Text → Bool
unfolding contains has_prefix trim_space before
looks_like_mapping s =
    contains s (bytes ": ")
    && not (contains s (bytes "://"))
    && not (is_nil (trim_space (before b':' s)))
    && not (has_prefix (before b':' s) (bytes " "))
    && not (has_prefix (before b':' s) (9 ∷ []))

-- `detectFormat`
unfoldable pub detect_format : Text → Format
unfolding looks_like_mapping is_host_port
detect_format s =
    if is_nil s
    then simple
    else if starts_json s
    then json
    else if contains s (10 ∷ [])
    then yaml
    else if looks_like_mapping s
    then (if is_host_port s then simple else yaml)
    else simple

-- The `format` argument, where "auto" and "" ask for a guess, and any unknown name means a plain
-- upstream address.
unfoldable pub format_of : Text → Format
unfolding str_eq
format_of f =
    if str_eq f (bytes "auto") || is_nil f
    then auto
    else if str_eq f (bytes "json")
    then json
    else if str_eq f (bytes "yaml")
    then yaml
    else simple

unfoldable pub resolve_format : Format → Text → Format
resolve_format auto trimmed = detect_format trimmed
resolve_format f trimmed = f

abbrev no_rules : List Rule → Bool
no_rules [] = true
no_rules (r ∷ rs) = false

abbrev pub plain : Text → RouteConfig
plain upstream = record zero_config { upstream = upstream }

module _ (d : Decoders) (s : SortSlice Rule) where
  -- What follows a decoder: its error, the check for an empty configuration, the normalisation
  unfoldable pub finish : Format → Option RouteConfig → Result (Option RouteConfig)
  finish f none = err (malformed f)
  finish f (some c) =
      if is_nil c.upstream && no_rules c.rules
      then err (empty_config f)
      else ok (some (normalize_config s c))

  -- The `switch` on the format. A text that begins with a quote is tried as a JSON string first.
  unfoldable pub decode : Format → Text → Text → Result (Option RouteConfig)
  unfolding finish
  decode json raw [] = finish json (d.json_config raw)
  decode json raw (c ∷ t) =
      if c == 34
      then (elim (d.json_string raw) [
        | some upstream ↦ ok (some (plain upstream))
        | none ↦ finish json (d.json_config raw)
      ])
      else finish json (d.json_config raw)
  decode yaml raw trimmed = finish yaml (d.yaml_config raw)
  decode _ raw trimmed = ok (some (plain trimmed))

  -- `ParseRouteConfigWithFormat`
  unfoldable pub parse_with_format : Text → Text → Result (Option RouteConfig)
  unfolding decode resolve_format
  parse_with_format raw format =
      let trimmed = trim_space raw in
      if is_nil trimmed
      then ok none
      else decode (resolve_format (format_of format) trimmed) raw trimmed

  -- `ParseRouteConfig`
  unfoldable pub parse : Text → Result (Option RouteConfig)
  unfolding parse_with_format
  parse raw = parse_with_format raw (bytes "auto")
