-- ===== src/Request.antt =====
-- What the routing reads of an HTTP request, and `getClientIP` of matcher/selector.go.
-- `header_get` is `Header.Get` on the request's headers, which net/http defines.
use caddy_dynamic_routing.Base.{
  [], ◌∷◌, Option, none, some, Text, bytes, is_nil, before, if◌then◌else◌, ◌==◌, ℕ,
}

pub record Request : Type 0 where
  pub method : Text
  pub host : Text
  pub url_path : Option Text
  pub header_get : Text → Text
  pub remote_addr : Text

-- `s[:i]` for the last index `i` of the byte; `none` where there is none
unfoldable pub before_last? : ℕ → Text → Option Text
before_last? c [] = none
before_last? c (a ∷ s) = elim (before_last? c s) [
  | some t ↦ some (a ∷ t)
  | none ↦ if a == c then some [] else none
]

-- `getClientIP`
unfoldable pub client_ip : Request → Text
unfolding before before_last?
client_ip r =
    let xff = r.header_get (bytes "X-Forwarded-For") in
    let xri = r.header_get (bytes "X-Real-IP") in
    if is_nil xff
    then (if is_nil xri
        then (elim (before_last? b':' r.remote_addr) [ some ip ↦ ip | none ↦ r.remote_addr ])
        else xri)
    else before b',' xff
