-- ===== src/Gateway/Claims.antt =====
-- `ServeHTTP` from the claims to the variables.
use mathlib.Core.Path.{subst}
use caddy_dynamic_routing.Base.{
  ℕ, ◌==◌, ◌≡◌, ◌≢◌, ◌⊎◌, refl, sym, ap, ◌∙◌, true, false, ◌||◌, List, [], ◌∷◌, ◌++◌, Option, none,
  some, guard, guarded, bind-some, some_inj, Text, bytes, is_nil, str_eq, str_eq→eq, is_nil→eq, inl,
  inr, All, In, Bool-cases, if◌then◌else◌, contains, has_prefix, trim_space, arith,
}
use caddy_dynamic_routing.Base.Texts.{has, has→In}
use caddy_dynamic_routing.Json.{
  Json, text, array, object, other, Items, nil, item, Fields, lookup, as_text,
}
use caddy_dynamic_routing.Gateway.{
  GatewayJwt, any_audience, audience_allowed, claim_string_required, claim_string_optional,
  render_with, render_key_template, render_instance, with_prefix, is_issued_by, Visit, route_vars,
}

-- The claim of the audience names this one, alone or in an array.
abbrev pub HasItem : Text → Items → Type 0
HasItem a nil = ⊥
HasItem a (item (text s) rest) = (s ≡ a) ⊎ HasItem a rest
HasItem a (item _ rest) = HasItem a rest

abbrev pub IsNamed : Text → Option Json → Type 0
IsNamed a (some (text v)) = v ≡ a
IsNamed a (some (array v)) = HasItem a v
IsNamed a _ = ⊥

any_audience-HasItem :
    (v : Items) (allowed : List Text)
    → any_audience v allowed ≡ true
    → (a : Text) × In a allowed × HasItem a v
unfolding any_audience
any_audience-HasItem nil allowed h = absurd (cc)
any_audience-HasItem (item (text s) rest) allowed h = elim (Bool-cases (has s allowed)) [
  | inl e ↦ (s, has→In s allowed e, inl refl)
  | inr e ↦
      let (a, m, k) = any_audience-HasItem rest allowed (rw (any_audience, e) at h) in (a, m, inr k)
]
any_audience-HasItem (item (array l) rest) allowed h = any_audience-HasItem rest allowed h
any_audience-HasItem (item (object m) rest) allowed h = any_audience-HasItem rest allowed h
any_audience-HasItem (item other rest) allowed h = any_audience-HasItem rest allowed h

-- No audience is asked for, or the claim names one of them.
abbrev pub IsAudience : Option Json → List Text → Type 0
IsAudience aud allowed = (allowed ≡ []) ⊎ ((a : Text) × In a allowed × IsNamed a aud)

audience_allowed-IsAudience :
    (aud : Option Json) (allowed : List Text)
    → audience_allowed aud allowed ≡ true
    → IsAudience aud allowed
unfolding audience_allowed
audience_allowed-IsAudience aud [] h = inl refl
audience_allowed-IsAudience none (a ∷ allowed) h = absurd (cc)
audience_allowed-IsAudience (some (text v)) (a ∷ allowed) h =
    inr (v, has→In v (a ∷ allowed) h, refl)
audience_allowed-IsAudience (some (array v)) (a ∷ allowed) h =
    inr (any_audience-HasItem v (a ∷ allowed) h)
audience_allowed-IsAudience (some (object m)) (a ∷ allowed) h = absurd (cc)
audience_allowed-IsAudience (some other) (a ∷ allowed) h = absurd (cc)

-- The claim is a text and not blank.
abbrev pub IsClaim : Fields → Text → Text → Type 0
IsClaim claims name s = (lookup name claims ≡ some (text s)) × (is_nil (trim_space s) ≡ false)

as_text_lem :
    (o : Option Json) → is_nil (trim_space (as_text o)) ≡ false → o ≡ some (text (as_text o))
unfolding trim_space
as_text_lem none h = absurd (cc)
as_text_lem (some (text s)) h = refl
as_text_lem (some (array l)) h = absurd (cc)
as_text_lem (some (object m)) h = absurd (cc)
as_text_lem (some other) h = absurd (cc)

claim_string_required-IsClaim :
    (claims : Fields) (name s : Text)
    → claim_string_required claims name ≡ some s
    → IsClaim claims name s
unfolding claim_string_required
claim_string_required-IsClaim claims name s h = elim (Bool-cases (is_nil name)) [
  | inl e ↦ absurd (cc (rw (claim_string_required, e) at h))
  | inr e ↦ elim (Bool-cases (is_nil (trim_space (as_text (lookup name claims))))) [
    | inl f ↦ absurd (cc (rw (claim_string_required, e, f) at h))
    | inr f ↦
        let same : as_text (lookup name claims) ≡ s =
          some_inj (rw (claim_string_required, e, f) at h) in
        (
          as_text_lem (lookup name claims) f ∙ ap (λ t. some (text t)) same,
          subst (λ t. is_nil (trim_space t) ≡ false) same f,
        )
  ]
]

-- A text without braces
abbrev pub IsBraceless : Text → Type 0
IsBraceless s = All (λ c. (c ≢ b'{') × (c ≢ b'}')) s

contains_byte : (b : ℕ) (s : Text) → contains s (b ∷ []) ≡ false → All (λ c. c ≢ b) s
unfolding contains has_prefix
contains_byte b [] h = tt
contains_byte b (c ∷ s) h = elim (Bool-cases (c == b)) [
  | inl e ↦ absurd (cc (rw (contains, has_prefix, e) at h))
  | inr e ↦ (ground arith, contains_byte b s (rw (contains, has_prefix, e) at h))
]

braceless : (s : Text) → (contains s (bytes "{") || contains s (bytes "}")) ≡ false → IsBraceless s
braceless s h = both s (contains_byte b'{' s (ground arith)) (contains_byte b'}' s (ground arith))
  where
    both : (s : Text) → All (λ c. c ≢ b'{') s → All (λ c. c ≢ b'}') s → IsBraceless s
    both [] p q = tt
    both (c ∷ s) (p, ps) (q, qs) = ((p, q), both s ps qs)

-- A key is a template with its placeholders replaced, one after another, and has no brace left.
abbrev pub IsKeyOf : Text → List (Text × Text) → Text → Type 0
IsKeyOf tmpl vars key = (render_with vars tmpl ≡ key) × IsBraceless key

render_key_template-IsKeyOf :
    (tmpl : Text) (vars : List (Text × Text)) (key : Text)
    → render_key_template tmpl vars ≡ some key
    → IsKeyOf tmpl vars key
unfolding render_key_template
render_key_template-IsKeyOf tmpl vars key h = elim (Bool-cases (is_nil (trim_space tmpl))) [
  | inl e ↦ absurd (cc (rw (render_key_template, e) at h))
  | inr e ↦
      let out = render_with vars tmpl in
      elim (Bool-cases (contains out (bytes "{") || contains out (bytes "}"))) [
        | inl f ↦ absurd (cc (rw (render_key_template, e, f) at h))
        | inr f ↦
            let same : out ≡ key = some_inj (rw (render_key_template, e, f) at h) in
            (same, subst IsBraceless same (braceless out f))
      ]
]

-- The variables of a request, where the map is visited in an order
abbrev pub version_pairs : Text → Text → Text → List (Text × Text)
version_pairs tenant service version =
    (bytes "tenant", tenant) ∷ (bytes "service", service) ∷ (bytes "version", version) ∷ []

abbrev pub instance_pairs : Text → Text → Text → Text → List (Text × Text)
instance_pairs tenant service version name =
    (bytes "tenant", tenant)
    ∷ (bytes "service", service)
    ∷ (bytes "version", version)
    ∷ (bytes "instance", name)
    ∷ []

-- The variables come from the claims of a token of the issuer for the audience: three claims that are
-- not blank, a key of them without braces, and, where there is an instance, a key for it.
pub record IsRouted (g : GatewayJwt) (visit : Visit) (claims : Fields)
    (vars : List (Text × Option Text)) : Type 0 where
  pub tenant : Text
  pub service : Text
  pub version : Text
  pub version_key : Text
  pub instance_key : Text
  pub issuer : (g.issuer ≡ []) ⊎ (lookup (bytes "iss") claims ≡ some (text g.issuer))
  pub audience : IsAudience (lookup (bytes "aud") claims) g.audiences
  pub tenant_claim : IsClaim claims g.claim_tenant tenant
  pub service_claim : IsClaim claims g.claim_service service
  pub version_claim : IsClaim claims g.claim_version version
  pub version_rendered :
      IsKeyOf g.version_key_template (visit (version_pairs tenant service version)) version_key
  pub instance_rendered :
      let name = claim_string_optional claims g.claim_instance in
      ((name ≡ []) × (instance_key ≡ []))
      ⊎ IsKeyOf g.instance_key_template
          (visit (instance_pairs tenant service version name))
          instance_key
  pub set :
      vars
      ≡ (g.tenant_var, some tenant)
        ∷ (g.service_var, some service)
        ∷ (g.version_var, some version)
        ∷ (g.instance_var, some (claim_string_optional claims g.claim_instance))
        ∷ (g.version_key_var, some (g.key_prefix ++ version_key))
        ∷ (
          g.instance_key_var,
          if is_nil instance_key then none else some (with_prefix g.key_prefix instance_key),
        )
        ∷ []

render_instance_lem :
    (tmpl name : Text) (vars : List (Text × Text)) (key : Text)
    → render_instance tmpl name vars ≡ some key
    → ((name ≡ []) × (key ≡ [])) ⊎ IsKeyOf tmpl vars key
unfolding render_instance
render_instance_lem tmpl name vars key h = elim (Bool-cases (is_nil name)) [
  | inl e ↦ inl (is_nil→eq name e, sym (some_inj (rw (render_instance, e) at h)))
  | inr e ↦ inr (render_key_template-IsKeyOf tmpl vars key (rw (render_instance, e) at h))
]

is_issued_by_lem :
    (issuer : Text) (iss : Option Json)
    → (is_nil issuer || is_issued_by issuer iss) ≡ true
    → (issuer ≡ []) ⊎ (iss ≡ some (text issuer))
unfolding is_issued_by str_eq
is_issued_by_lem [] iss h = inl refl
is_issued_by_lem (x ∷ issuer) none h = absurd (cc)
is_issued_by_lem (x ∷ issuer) (some (text s)) h =
    inr (ap (λ t. some (text t)) (str_eq→eq s (x ∷ issuer) h))
is_issued_by_lem (x ∷ issuer) (some (array l)) h = absurd (cc)
is_issued_by_lem (x ∷ issuer) (some (object m)) h = absurd (cc)
is_issued_by_lem (x ∷ issuer) (some other) h = absurd (cc)

pub route_vars-IsRouted :
    (g : GatewayJwt) (visit : Visit) (claims : Fields) (vars : List (Text × Option Text))
    → route_vars g visit claims ≡ some vars
    → IsRouted g visit claims vars
unfolding route_vars
route_vars-IsRouted g visit claims vars h =
    let issued = is_nil g.issuer || is_issued_by g.issuer (lookup (bytes "iss") claims) in
    let heard = audience_allowed (lookup (bytes "aud") claims) g.audiences in
    let name = claim_string_optional claims g.claim_instance in
    let (_, i, h1) = bind-some (guard issued) _ vars h in
    let (_, a, h2) = bind-some (guard heard) _ vars h1 in
    let (tenant, t, h3) = bind-some (claim_string_required claims g.claim_tenant) _ vars h2 in
    let (service, s, h4) = bind-some (claim_string_required claims g.claim_service) _ vars h3 in
    let (version, v, h5) = bind-some (claim_string_required claims g.claim_version) _ vars h4 in
    let (version_key, k, h6) =
      bind-some
        (render_key_template g.version_key_template (visit (version_pairs tenant service version)))
        _ vars h5 in
    let (instance_key, l, h7) =
      bind-some
        (render_instance g.instance_key_template name
          (visit (instance_pairs tenant service version name)))
        _ vars h6 in
    record {
      tenant = tenant;
      service = service;
      version = version;
      version_key = version_key;
      instance_key = instance_key;
      issuer = is_issued_by_lem g.issuer (lookup (bytes "iss") claims) (guarded issued i);
      audience =
          audience_allowed-IsAudience (lookup (bytes "aud") claims) g.audiences (guarded heard a);
      tenant_claim = claim_string_required-IsClaim claims g.claim_tenant tenant t;
      service_claim = claim_string_required-IsClaim claims g.claim_service service s;
      version_claim = claim_string_required-IsClaim claims g.claim_version version v;
      version_rendered =
          render_key_template-IsKeyOf g.version_key_template
            (visit (version_pairs tenant service version)) version_key k;
      instance_rendered =
          render_instance_lem g.instance_key_template name
            (visit (instance_pairs tenant service version name)) instance_key l;
      set = sym (some_inj h7);
    }
