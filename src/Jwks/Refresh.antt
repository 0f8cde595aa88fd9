-- ===== src/Jwks/Refresh.antt =====
-- `Refresh` and `KeyForToken`: which keys are trusted, and when the server is asked.
use caddy_dynamic_routing.Base.{
  ℕ, ◌+◌, ◌≤◌, ◌<◌, ◌==◌, ◌≡◌, ◌≢◌, ◌⊎◌, refl, ap, ◌∙◌, Bool, true, false, not, ◌&&◌, [], ◌∷◌,
  Option, none, some, guard, bind-some, guarded, some_inj, Text, is_nil, is_nil→eq, str_eq,
  str_eq→eq, str_eq_refl, sym, inl, inr, Bool-cases, Option-cases, ltb, leb, arith,
}
use caddy_dynamic_routing.Base.Int.{ℤ, pos}
use caddy_dynamic_routing.Base.Maps.{load}
use caddy_dynamic_routing.Jwks.{
  Decoders, PublicKey, KeyMap, JwksConfig, JwksCache, Reply, unreachable, answered,
  parse_jwks_keys_by_kid, should_refresh, is_empty, add_time, usable_keys, use_reply,
  is_url_allowed, refresh_jwks, key_of_unknown, all_named, only_key, key_for_token,
}

-- The keys of a cache are those of a successful response, none of them left out, or those before;
-- nothing else of the cache moves where there is no success.
pub data IsRefreshed (decoders : Decoders) (c : JwksCache) : Bool × JwksCache → Type 0 where
  kept : (ok : Bool) → IsRefreshed decoders c (ok, c)
  confirmed :
      (fetched next : ℕ)
      → IsRefreshed decoders c (true, record c { last_fetched = fetched; next_refresh_at = next })
  replaced :
      (body : Text) (after : JwksCache)
      → parse_jwks_keys_by_kid decoders body ≡ some after.keys_by_kid
      → after.keys_by_kid ≢ []
      → IsRefreshed decoders c (true, after)

usable_keys-parsed :
    (decoders : Decoders) (status : ℕ) (body : Option Text) (keys : KeyMap)
    → usable_keys decoders status body ≡ some keys
    → (b : Text) × (parse_jwks_keys_by_kid decoders b ≡ some keys) × (keys ≢ [])
unfolding usable_keys
usable_keys-parsed decoders status none keys h = absurd (cc)
usable_keys-parsed decoders status (some body) keys h =
    let (_, _, h1) = bind-some (guard (leb 200 status && ltb status 300)) _ keys h in
    let (parsed, e, h2) = bind-some (parse_jwks_keys_by_kid decoders body) _ keys h1 in
    let (_, g, h3) = bind-some (guard (not (is_empty parsed))) _ keys h2 in
    let same : parsed ≡ keys = some_inj h3 in
    (body, e ∙ ap some same, λ n. absurd (cc (guarded (not (is_empty parsed)) g, same ∙ n)))

use_reply-IsRefreshed :
    (decoders : Decoders) (interval : ℤ) (now : ℕ) (reply : Reply) (c : JwksCache)
    → IsRefreshed decoders c (use_reply decoders interval now reply c)
unfolding use_reply
use_reply-IsRefreshed decoders interval now unreachable c = kept false
use_reply-IsRefreshed decoders interval now (answered status body tag modified) c =
    elim (Bool-cases (status == 304)) [
      | inl e ↦ rw (use_reply, e) (confirmed now (add_time now interval))
      | inr e ↦ elim (Option-cases (usable_keys decoders status body)) [
        | inl f ↦ rw (use_reply, e, f) (kept false)
        | inr (keys, f) ↦
            let (b, p, n) = usable_keys-parsed decoders status body keys f in
            rw (use_reply, e, f)
              (replaced b
                (record {
                  keys_by_kid = keys;
                  last_fetched = now;
                  etag = tag;
                  last_modified = modified;
                  next_refresh_at = add_time now interval;
                })
                p n)
      ]
    ]

-- A refresh that fails, because of the URL, the server, the status, the body, or a set that is
-- malformed or empty, leaves the cache as it is; one that succeeds leaves the keys as they are, or
-- takes over all the keys of a body, which are some.
pub refresh_jwks-IsRefreshed :
    (decoders : Decoders) (conf : JwksConfig) (server : Text → Text → Reply) (now : ℕ)
    (c : JwksCache)
    → IsRefreshed decoders c (refresh_jwks decoders conf server now c)
unfolding refresh_jwks
refresh_jwks-IsRefreshed decoders conf server now c = elim (Bool-cases (should_refresh now c)) [
  | inr e ↦ rw (refresh_jwks, e) (kept true)
  | inl e ↦ elim (Bool-cases (is_url_allowed conf)) [
    | inr f ↦ rw (refresh_jwks, e, f) (kept false)
    | inl f ↦
        rw (refresh_jwks, e, f)
          (use_reply-IsRefreshed decoders conf.refresh now (server c.etag c.last_modified) c)
  ]
]

use_reply_next :
    (decoders : Decoders) (d now : ℕ) (reply : Reply) (c : JwksCache)
    → (use_reply decoders (pos d) now reply c).0 ≡ true
    → (use_reply decoders (pos d) now reply c).1.next_refresh_at ≡ now + d
unfolding use_reply
use_reply_next decoders d now unreachable c h = absurd (cc)
use_reply_next decoders d now (answered status body tag modified) c h =
    elim (Bool-cases (status == 304)) [
      | inl e ↦ rw (use_reply, e) refl
      | inr e ↦ elim (Option-cases (usable_keys decoders status body)) [
        | inl f ↦ absurd (cc (rw (use_reply, e, f) at h))
        | inr (keys, f) ↦ rw (use_reply, e, f) refl
      ]
    ]

refresh_jwks-not_due :
    (decoders : Decoders) (conf : JwksConfig) (server : Text → Text → Reply) (now : ℕ)
    (c : JwksCache)
    → should_refresh now c ≡ false
    → refresh_jwks decoders conf server now c ≡ (true, c)
unfolding refresh_jwks
refresh_jwks-not_due decoders conf server now c e = rw (refresh_jwks, e) refl

refresh_jwks_next :
    (decoders : Decoders) (scheme : Option Text) (allow : Bool) (d now : ℕ)
    (server : Text → Text → Reply) (c : JwksCache)
    → should_refresh now c ≡ true
    → let conf : JwksConfig = record { scheme = scheme; allow_insecure = allow; refresh = pos d } in
      (refresh_jwks decoders conf server now c).0 ≡ true
      → (refresh_jwks decoders conf server now c).1.next_refresh_at ≡ now + d
unfolding refresh_jwks
refresh_jwks_next decoders scheme allow d now server c e h =
    let conf : JwksConfig = record { scheme = scheme; allow_insecure = allow; refresh = pos d } in
    elim (Bool-cases (is_url_allowed conf)) [
      | inr f ↦ absurd (cc (rw (refresh_jwks, e, f) at h))
      | inl f ↦
          rw (refresh_jwks, e, f)
            (use_reply_next decoders d now (server c.etag c.last_modified) c
              (rw (refresh_jwks, e, f) at h))
    ]

-- Once a refresh that was due, at a time that is not zero, has succeeded, the server is not asked again
-- before the refresh interval, which is not negative, has passed: a refresh up to then succeeds and
-- leaves the cache as it is, whatever the server would reply by then.
pub refresh_jwks-refresh_jwks :
    (decoders : Decoders) (scheme : Option Text) (allow : Bool) (d now later : ℕ)
    (server changed : Text → Text → Reply) (c : JwksCache)
    → should_refresh now c ≡ true
    → 0 < now
    → later ≤ now + d
    → let conf : JwksConfig = record { scheme = scheme; allow_insecure = allow; refresh = pos d } in
      (refresh_jwks decoders conf server now c).0 ≡ true
      → refresh_jwks decoders conf changed later (refresh_jwks decoders conf server now c).1
        ≡ (true, (refresh_jwks decoders conf server now c).1)
unfolding should_refresh
refresh_jwks-refresh_jwks decoders scheme allow d now later server changed c due p l h =
    let conf : JwksConfig = record { scheme = scheme; allow_insecure = allow; refresh = pos d } in
    let after : JwksCache = (refresh_jwks decoders conf server now c).1 in
    let next : after.next_refresh_at ≡ now + d =
      refresh_jwks_next decoders scheme allow d now server c due h in
    let rest : should_refresh later after ≡ false = rw (should_refresh, next) (ground arith) in
    refresh_jwks-not_due decoders conf changed later after rest

-- The set has the key under some ID, and has no other ID.
abbrev pub IsOnly : PublicKey → KeyMap → Type 0
IsOnly key keys =
    (kid : Text) × (load kid keys ≡ some key)
    × ((other : Text) → load other keys ≢ none → other ≡ kid)

all_named_lem :
    (kid : Text) (keys : KeyMap) (other : Text)
    → all_named kid keys ≡ true
    → load other keys ≢ none
    → other ≡ kid
unfolding all_named load
all_named_lem kid [] other h n = absurd (n refl)
all_named_lem kid ((j, key) ∷ keys) other h n = elim (Bool-cases (str_eq j kid)) [
  | inr e ↦ absurd (cc (rw e at h))
  | inl e ↦ elim (Bool-cases (str_eq j other)) [
    | inl f ↦ sym (str_eq→eq j other f) ∙ str_eq→eq j kid e
    | inr f ↦ all_named_lem kid keys other (rw e at h) (rw f at n)
  ]
]

only_key-IsOnly : (keys : KeyMap) (key : PublicKey) → only_key keys ≡ some key → IsOnly key keys
unfolding only_key load
only_key-IsOnly [] key h = absurd (cc)
only_key-IsOnly ((kid, found) ∷ keys) key h = elim (Bool-cases (all_named kid keys)) [
  | inr e ↦ absurd (cc (rw e at h))
  | inl e ↦
      let same : some found ≡ some key = rw e at h in
      (
        kid,
        rw (str_eq_refl kid) same,
        λ other n. elim (Bool-cases (str_eq kid other)) [
          | inl f ↦ sym (str_eq→eq kid other f)
          | inr f ↦ all_named_lem kid keys other e (rw f at n)
        ],
      )
]

-- The key is the one of a token's ID, or, for a token without an ID, the only one of the set.
abbrev pub IsTrusted : Text → PublicKey → JwksCache → Type 0
IsTrusted kid key c = (load kid c.keys_by_kid ≡ some key) ⊎ ((kid ≡ []) × IsOnly key c.keys_by_kid)

key_of_unknown-load :
    (decoders : Decoders) (conf : JwksConfig) (server : Text → Text → Reply) (now : ℕ) (kid : Text)
    (c : JwksCache) (key : PublicKey)
    → (key_of_unknown decoders conf server now kid c).0 ≡ some key
    → load kid (key_of_unknown decoders conf server now kid c).1.keys_by_kid ≡ some key
unfolding key_of_unknown
key_of_unknown-load decoders conf server now kid c key h =
    elim (Bool-cases (refresh_jwks decoders conf server now c).0) [
      | inl e ↦ rw (key_of_unknown, e) at h
      | inr e ↦ absurd (cc (rw (key_of_unknown, e) at h))
    ]

-- A key that a token is checked with is in the set that the lookup leaves, under the token's ID, or,
-- where the token has no ID, under the only ID that the set has. The cache is the one before where the
-- token has no ID or a known one, and else one that a refresh may leave.
pub key_for_token-IsTrusted :
    (decoders : Decoders) (conf : JwksConfig) (server : Text → Text → Reply) (now : ℕ) (kid : Text)
    (c : JwksCache)
    → ((key : PublicKey)
        → (key_for_token decoders conf server now kid c).0 ≡ some key
        → IsTrusted kid key (key_for_token decoders conf server now kid c).1)
      × (((kid ≡ []) ⊎ (load kid c.keys_by_kid ≢ none))
          → (key_for_token decoders conf server now kid c).1 ≡ c)
      × ((ok : Bool) × IsRefreshed decoders c
            (ok, (key_for_token decoders conf server now kid c).1))
unfolding key_for_token key_of_unknown
key_for_token-IsTrusted decoders conf server now kid c = elim (Bool-cases (is_nil kid)) [
  | inl e ↦
      rw (key_for_token, e)
        (
          λ key h. inr (is_nil→eq kid e, only_key-IsOnly c.keys_by_kid key h),
          λ h. refl,
          (true, kept true),
        )
  | inr e ↦ elim (Option-cases (load kid c.keys_by_kid)) [
    | inr (found, f) ↦ rw (key_for_token, e, f) (λ key h. inl (f ∙ h), λ h. refl, (true, kept true))
    | inl f ↦
        rw (key_for_token, e, f)
          (
            λ key h. inl (key_of_unknown-load decoders conf server now kid c key h),
            λ h. elim h [ inl n ↦ absurd (cc (n, e)) | inr n ↦ absurd (n refl) ],
            (
              (refresh_jwks decoders conf server now c).0,
              refresh_jwks-IsRefreshed decoders conf server now c,
            ),
          )
  ]
]
