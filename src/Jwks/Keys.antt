-- ===== src/Jwks/Keys.antt =====
-- `parseJWKSKeysByKID`: where the keys of a set come from.
use caddy_dynamic_routing.Base.{
  ◌<◌, ◌≡◌, ◌≢◌, ◌⊎◌, refl, sym, ap, ◌∙◌, Bool, true, false, not, ◌||◌, [], ◌∷◌, Option, none, some,
  guard, guarded, bind-some, some_inj, Text, bytes, is_nil, inl, inr, Bool-cases, Option-cases, In,
  str_eq,
}
use mathlib.Core.Path.{subst}
use caddy_dynamic_routing.Base.Int.{pos}
use caddy_dynamic_routing.Json.{Json, text, array, object, other, Items, nil, item, Fields, lookup}
use caddy_dynamic_routing.Jwks.{
  Decoders, PublicKey, rsa, ec, KeyMap, text_of, set_bytes, parse_ec_curve, parse_rsa_jwk,
  parse_ec_jwk, jwk_to_public_key, parse_item, parse_items, parse_keys_field,
  parse_jwks_keys_by_kid,
}
use caddy_dynamic_routing.Jwks.Exponent.{parse_rsa_jwk-IsRsa}

-- A key that can be used: a modulus and an exponent that are not zero, or a point of the curve
abbrev pub IsSound : Decoders → PublicKey → Type 0
IsSound decoders (rsa n e) = (0 < n) × (e ≢ pos 0)
IsSound decoders (ec curve x y) = decoders.is_on_curve curve x y ≡ true

-- The item is an object with this ID that makes this key.
abbrev pub IsMade : Decoders → Text → PublicKey → Json → Type 0
IsMade decoders kid key (object m) =
    (text_of (bytes "kid") m ≡ kid) × (jwk_to_public_key decoders m ≡ some key)
IsMade decoders kid key _ = ⊥

-- Some item passes.
abbrev pub AnyItem : (Json → Type 0) → Items → Type 0
AnyItem P nil = ⊥
AnyItem P (item j rest) = P j ⊎ AnyItem P rest

-- An entry of a set is sound and comes from one of the items.
pub record IsKey (decoders : Decoders) (items : Items) (entry : Text × PublicKey) : Type 0 where
  pub sound : IsSound decoders entry.1
  pub named : entry.0 ≢ []
  pub made : AnyItem (IsMade decoders entry.0 entry.1) items

parse_ec_jwk-IsSound :
    (decoders : Decoders) (jwk : Fields) (key : PublicKey)
    → parse_ec_jwk decoders jwk ≡ some key
    → IsSound decoders key
unfolding parse_ec_jwk
parse_ec_jwk-IsSound decoders jwk key h =
    let (_, _, h1) =
      bind-some
        (guard (
          not (
            is_nil (text_of (bytes "crv") jwk)
            || (is_nil (text_of (bytes "x") jwk) || is_nil (text_of (bytes "y") jwk)))))
        _ key h in
    let (xs, _, h2) = bind-some (decoders.base64 (text_of (bytes "x") jwk)) _ key h1 in
    let (ys, _, h3) = bind-some (decoders.base64 (text_of (bytes "y") jwk)) _ key h2 in
    let (curve, _, h4) = bind-some (parse_ec_curve (text_of (bytes "crv") jwk)) _ key h3 in
    let (_, g, h5) =
      bind-some (guard (decoders.is_on_curve curve (set_bytes 0 xs) (set_bytes 0 ys))) _ key h4 in
    subst (IsSound decoders) (some_inj h5)
      (guarded (decoders.is_on_curve curve (set_bytes 0 xs) (set_bytes 0 ys)) g)

parse_rsa_jwk-IsSound :
    (decoders : Decoders) (jwk : Fields) (key : PublicKey)
    → parse_rsa_jwk decoders jwk ≡ some key
    → IsSound decoders key
parse_rsa_jwk-IsSound decoders jwk key h =
    let made = parse_rsa_jwk-IsRsa decoders jwk key h in
    subst (IsSound decoders) (sym made.built) (made.positive, made.nonzero)

jwk_to_public_key-IsSound :
    (decoders : Decoders) (jwk : Fields) (key : PublicKey)
    → jwk_to_public_key decoders jwk ≡ some key
    → IsSound decoders key
unfolding jwk_to_public_key
jwk_to_public_key-IsSound decoders jwk key h =
    elim (Bool-cases (str_eq (text_of (bytes "kty") jwk) (bytes "RSA"))) [
      | inl e ↦ parse_rsa_jwk-IsSound decoders jwk key (rw (jwk_to_public_key, e) at h)
      | inr e ↦ elim (Bool-cases (str_eq (text_of (bytes "kty") jwk) (bytes "EC"))) [
        | inl f ↦ parse_ec_jwk-IsSound decoders jwk key (rw (jwk_to_public_key, e, f) at h)
        | inr f ↦ absurd (cc (rw (jwk_to_public_key, e, f) at h))
      ]
    ]

IsKey-item :
    (decoders : Decoders) (j : Json) (items : Items) (entry : Text × PublicKey)
    → IsKey decoders items entry
    → IsKey decoders (item j items) entry
IsKey-item decoders j items entry h = record { sound = h.sound; named = h.named; made = inr h.made }

named_lem : (t : Text) (b : Bool) → (is_nil t || b) ≡ false → t ≢ []
named_lem [] b h = absurd (cc)
named_lem (x ∷ t) b h = λ e. absurd (cc)

parse_item-IsKey :
    (decoders : Decoders) (j : Json) (items : Items) (kid : Text) (key : PublicKey)
    → parse_item decoders j ≡ some (kid, some key)
    → IsKey decoders (item j items) (kid, key)
unfolding parse_item
parse_item-IsKey decoders (text s) items kid key h = absurd (cc)
parse_item-IsKey decoders (array l) items kid key h = absurd (cc)
parse_item-IsKey decoders other items kid key h = absurd (cc)
parse_item-IsKey decoders (object m) items kid key h =
    elim (Bool-cases (is_nil (text_of (bytes "kid") m) || is_nil (text_of (bytes "kty") m))) [
      | inl e ↦ absurd (cc (rw (parse_item, e) at h))
      | inr e ↦
          let same = some_inj (rw (parse_item, e) at h) in
          let id : text_of (bytes "kid") m ≡ kid = ap (λ p. p.0) same in
          let made : jwk_to_public_key decoders m ≡ some key = ap (λ p. p.1) same in
          record {
            sound = jwk_to_public_key-IsSound decoders m key made;
            named = λ n.
                named_lem (text_of (bytes "kid") m) (is_nil (text_of (bytes "kty") m)) e (id ∙ n);
            made = inl (id, made);
          }
    ]

later :
    (decoders : Decoders) (j : Json) (rest : Items) (entry : Text × PublicKey) (out : KeyMap)
    → In entry out ⊎ IsKey decoders rest entry
    → In entry out ⊎ IsKey decoders (item j rest) entry
later decoders j rest entry out (inl m) = inl m
later decoders j rest entry out (inr k) = inr (IsKey-item decoders j rest entry k)

parse_items-IsKey :
    (decoders : Decoders) (out : KeyMap) (items : Items) (keys : KeyMap)
    → parse_items decoders out items ≡ some keys
    → (entry : Text × PublicKey) → In entry keys
    → In entry out ⊎ IsKey decoders items entry
unfolding parse_items
parse_items-IsKey decoders out nil keys h entry m = inl (subst (In entry) (sym (some_inj h)) m)
parse_items-IsKey decoders out (item j rest) keys h entry m =
    elim (Option-cases (parse_item decoders j)) [
      | inl e ↦
          later decoders j rest entry out
            (parse_items-IsKey decoders out rest keys (rw (parse_items, e) at h) entry m)
      | inr ((kid, none), e) ↦ absurd (cc (rw (parse_items, e) at h))
      | inr ((kid, some key), e) ↦
          let found =
            parse_items-IsKey decoders ((kid, key) ∷ out) rest keys (rw (parse_items, e) at h) entry
              m in
          elim found [
            | inl (inl p) ↦ inr (
                subst (IsKey decoders (item j rest)) p (parse_item-IsKey decoders j rest kid key e))
            | inl (inr n) ↦ inl n
            | inr k ↦ inr (IsKey-item decoders j rest entry k)
          ]
    ]

keys_field :
    (decoders : Decoders) (o : Option Json) (keys : KeyMap)
    → parse_keys_field decoders o ≡ some keys
    → (items : Items) × (o ≡ some (array items)) × (parse_items decoders [] items ≡ some keys)
unfolding parse_keys_field
keys_field decoders none keys h = absurd (cc)
keys_field decoders (some (text s)) keys h = absurd (cc)
keys_field decoders (some (array items)) keys h = (items, refl, h)
keys_field decoders (some (object m)) keys h = absurd (cc)
keys_field decoders (some other) keys h = absurd (cc)

-- A set that is accepted was decoded from an object with an array under "keys". Each of its keys has
-- an ID that is not empty, comes from an item with that ID, and is sound: an RSA key whose modulus
-- and exponent are not zero, or a point of its curve.
pub parse_jwks-IsKey :
    (decoders : Decoders) (body : Text) (keys : KeyMap)
    → parse_jwks_keys_by_kid decoders body ≡ some keys
    → (raw : Fields) × (items : Items) × (decoders.json_object body ≡ some raw)
      × (lookup (bytes "keys") raw ≡ some (array items))
      × ((entry : Text × PublicKey) → In entry keys → IsKey decoders items entry)
unfolding parse_jwks_keys_by_kid
parse_jwks-IsKey decoders body keys h =
    let (raw, d, h1) = bind-some (decoders.json_object body) _ keys h in
    let (items, l, p) = keys_field decoders (lookup (bytes "keys") raw) keys h1 in
    (
      raw,
      items,
      d,
      l,
      λ entry m. elim (parse_items-IsKey decoders [] items keys p entry m) [
        | inl n ↦ absurd n
        | inr k ↦ k
      ],
    )
