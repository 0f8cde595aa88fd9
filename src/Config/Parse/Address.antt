-- ===== src/Config/Parse/Address.antt =====
-- A plain `host:port` is told from structured configurations, and taken as it stands.
use caddy_dynamic_routing.Base.{
  ◌≡◌, refl, ◌≢◌, true, false, [], ◌∷◌, ◌++◌, some, arith, Text, All, is_nil, All-append, str_eq,
  trim_left, trim_right, trim_space, is_space, split_on, contains, has_prefix,
}
use caddy_dynamic_routing.Base.Sort.{SortSlice}
use caddy_dynamic_routing.Config.{Rule}
use caddy_dynamic_routing.Config.Parse.{
  simple, ok, Decoders, plain, decode, starts_json, is_digit, all_digits, port_of, is_host_port,
  detect_format, resolve_format, format_of, parse_with_format, parse,
}

abbrev pub IsDigits : Text → Type 0
IsDigits = All (λ c. is_digit c ≡ true)

-- No white space, no colon, and no byte that starts a JSON value
abbrev pub IsHost : Text → Type 0
IsHost = All (λ c. (is_space c ≡ false) × (c ≢ 58) × (starts_json (c ∷ []) ≡ false))

trim_left_lem : (s : Text) → All (λ c. is_space c ≡ false) s → trim_left is_space s ≡ s
unfolding trim_left
trim_left_lem [] h = refl
trim_left_lem (c ∷ s) h = ground arith

trim_right_lem : (s : Text) → All (λ c. is_space c ≡ false) s → trim_right is_space s ≡ s
unfolding trim_right
trim_right_lem [] h = refl
trim_right_lem (c ∷ []) h = ground arith
trim_right_lem (c ∷ b ∷ s) (p, h) = rw (trim_right_lem (b ∷ s) h) refl

trim_space_lem : (s : Text) → All (λ c. is_space c ≡ false) s → trim_space s ≡ s
unfolding trim_space
trim_space_lem s h = rw (trim_left_lem s h) (trim_right_lem s h)

split_on_none : (s : Text) → All (λ c. c ≢ 58) s → split_on 58 s ≡ s ∷ []
unfolding split_on
split_on_none [] h = refl
split_on_none (c ∷ s) h = ground (arith, split_on_none s h.1)

split_on-append :
    (host s : Text)
    → All (λ c. c ≢ 58) host
    → All (λ c. c ≢ 58) s
    → split_on 58 (host ++ 58 ∷ s) ≡ host ∷ s ∷ []
unfolding split_on
split_on-append [] s h k = rw (split_on_none s k)
split_on-append (c ∷ host) s h k = ground (arith, split_on-append host s h.1 k)

all_digits_lem : (s : Text) → IsDigits s → all_digits s ≡ true
unfolding all_digits
all_digits_lem [] h = refl
all_digits_lem (c ∷ s) h = ground (arith, all_digits_lem s h.1)

port_lem :
    (host port : Text)
    → IsDigits port
    → port ≢ []
    → All (λ c. is_space c ≡ false) port
    → port_of (host ∷ port ∷ []) ≡ true
unfolding port_of
port_lem host port h k w = rw (trim_space_lem port w, all_digits_lem port h) (ground arith)

digit_not_space : (s : Text) → IsDigits s → All (λ c. is_space c ≡ false) s
digit_not_space [] h = tt
digit_not_space (c ∷ s) (p, h) = (ground arith, digit_not_space s h)

digit_not_colon : (s : Text) → IsDigits s → All (λ c. c ≢ 58) s
digit_not_colon [] h = tt
digit_not_colon (c ∷ s) (p, h) = (ground arith, digit_not_colon s h)

host_not_colon : (s : Text) → IsHost s → All (λ c. c ≢ 58) s
host_not_colon [] h = tt
host_not_colon (c ∷ s) (p, h) = (p.1, host_not_colon s h)

host_not_space : (s : Text) → IsHost s → All (λ c. is_space c ≡ false) s
host_not_space [] h = tt
host_not_space (c ∷ s) (p, h) = (p.0, host_not_space s h)

contains_newline : (s : Text) → All (λ c. is_space c ≡ false) s → contains s (10 ∷ []) ≡ false
unfolding contains has_prefix
contains_newline [] h = refl
contains_newline (c ∷ s) (p, h) = ground (arith, contains_newline s h)

is_host_port_lem :
    (host port : Text)
    → IsHost host
    → IsDigits port
    → port ≢ []
    → is_host_port (host ++ 58 ∷ port) ≡ true
unfolding is_host_port
is_host_port_lem host port h k n =
    rw (split_on-append host port (host_not_colon host h) (digit_not_colon port k))
      (port_lem host port k n (digit_not_space port k))

starts_json_lem : (host s : Text) → IsHost host → starts_json (host ++ 58 ∷ s) ≡ false
starts_json_lem [] s h = refl
starts_json_lem (c ∷ host) s (p, h) = p.2

detect_format_lem :
    (s : Text)
    → is_nil s ≡ false
    → starts_json s ≡ false
    → contains s (10 ∷ []) ≡ false
    → is_host_port s ≡ true
    → detect_format s ≡ simple
unfolding detect_format
detect_format_lem s h k l m = rw (h, k, l, m) (ground arith)

no_space :
    (host port : Text)
    → IsHost host
    → IsDigits port
    → All (λ c. is_space c ≡ false) (host ++ 58 ∷ port)
no_space host port h k =
    All-append (λ c. is_space c ≡ false) host (58 ∷ port) (host_not_space host h)
      (refl, digit_not_space port k)

is_nil_middle : (s t : Text) → is_nil (s ++ 58 ∷ t) ≡ false
is_nil_middle [] t = refl
is_nil_middle (c ∷ s) t = refl

decode-simple :
    (d : Decoders) (s : SortSlice Rule) (raw t : Text)
    → decode d s simple raw t ≡ ok (some (plain t))
unfolding decode
decode-simple d s raw t = refl

-- An address `host:port`, whose host has no white space, no colon and no byte that starts a JSON
-- value and whose port is a row of digits, is taken as it stands for the upstream, with the default
-- of every other field.
pub parse-address :
    (d : Decoders) (s : SortSlice Rule) (host port : Text)
    → IsHost host
    → IsDigits port
    → port ≢ []
    → parse d s (host ++ 58 ∷ port) ≡ ok (some (plain (host ++ 58 ∷ port)))
unfolding parse parse_with_format resolve_format format_of str_eq
parse-address d s host port h k n =
    let spaces = no_space host port h k in
    let simple_format =
      detect_format_lem _ (is_nil_middle host port) (starts_json_lem host port h)
        (contains_newline _ spaces) (is_host_port_lem host port h k n) in
    rw (trim_space_lem _ spaces, is_nil_middle host port, simple_format)
      (decode-simple d s (host ++ 58 ∷ port) (host ++ 58 ∷ port))
