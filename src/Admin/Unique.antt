-- ===== src/Admin/Unique.antt =====
-- The names of `RegisterAdminSource`.
use caddy_dynamic_routing.Base.{
  ℕ, zero, suc, ◌+◌, ◌*◌, ◌/◌, ◌%◌, ◌-◌, ◌≤◌, ◌<◌, ◌≡◌, ◌≢◌, refl, sym, ap, ◌∙◌, [], ◌∷◌, ◌++◌,
  none, some, some_inj, not, ◌&&◌, Text, is_nil, inl, inr, All, All-append, Bool-cases,
  Option-cases, if◌then◌else◌, ltb, str_eq, str_eq→eq, str_eq_refl, arith,
}
use mathlib.Core.Path.{subst}
use mathlib.Core.List.{append_cancel_right}
use caddy_dynamic_routing.Base.Maps.{load, delete, load-delete}
use caddy_dynamic_routing.Plugin.Names.{after_last?}
use caddy_dynamic_routing.Selector.Ring.{decimal_from, decimal}
use caddy_dynamic_routing.Admin.{AdminEntry, Registry, count, name_of, register, unregister}

-- The number that digits spell
unfoldable spelled : ℕ → Text → ℕ
spelled n [] = n
spelled n (c ∷ s) = spelled (10 * n + (c - 48)) s

spelled-append :
    (n : ℕ) (s : Text) (c : ℕ) → spelled n (s ++ (c ∷ [])) ≡ 10 * spelled n s + (c - 48)
unfolding spelled
spelled-append n [] c = refl
spelled-append n (x ∷ s) c = spelled-append (10 * n + (x - 48)) s c

spelled-decimal_from : (f n : ℕ) → n < f → spelled 0 (decimal_from f n) ≡ n
unfolding spelled decimal_from
spelled-decimal_from zero n h = absurd (omega arith)
spelled-decimal_from (suc f) n h = elim (Bool-cases (ltb n 10)) [
  | inl e ↦ rw (decimal_from, e) (omega arith)
  | inr e ↦
      let big : 10 ≤ n = ground arith in
      let rest = spelled-decimal_from f (n / 10) (omega arith) in
      rw (decimal_from, e)
        (spelled-append 0 (decimal_from f (n / 10)) (48 + n % 10) ∙ omega (arith, rest))
]

decimal_inj : (m n : ℕ) → decimal m ≡ decimal n → m ≡ n
unfolding decimal
decimal_inj m n e =
    sym (spelled-decimal_from (suc m) m (omega arith))
    ∙ ap (spelled 0) e
    ∙ spelled-decimal_from (suc n) n (omega arith)

no_hash : (f n : ℕ) → All (λ c. c ≢ b'#') (decimal_from f n)
unfolding decimal_from
no_hash zero n = tt
no_hash (suc f) n = elim (Bool-cases (ltb n 10)) [
  | inl e ↦ rw (decimal_from, e) ((λ h. absurd (omega arith)), tt)
  | inr e ↦
      rw (decimal_from, e)
        (All-append (λ c. c ≢ b'#') (decimal_from f (n / 10)) ((48 + n % 10) ∷ [])
          (no_hash f (n / 10)) ((λ h. absurd (omega arith)), tt))
]

absent : (t : Text) → All (λ c. c ≢ b'#') t → after_last? b'#' t ≡ none
unfolding after_last?
absent [] h = refl
absent (a ∷ t) (n, h) = ground (arith, absent t h)

last_hash : (p t : Text) → All (λ c. c ≢ b'#') t → after_last? b'#' (p ++ b'#' ∷ t) ≡ some t
unfolding after_last?
last_hash [] t h = rw (absent t h) refl
last_hash (a ∷ p) t h = rw (last_hash p t h) refl

-- The type and the number can be read from a name.
name_of_inj : (a b : Text) (m n : ℕ) → name_of a m ≡ name_of b n → (a ≡ b) × (m ≡ n)
unfolding name_of decimal
name_of_inj a b m n e =
    let digits : decimal m ≡ decimal n = some_inj (
      sym (last_hash a (decimal m) (no_hash (suc m) m))
      ∙ ap (after_last? b'#') e
      ∙ last_hash b (decimal n) (no_hash (suc n) n)) in
    (
      append_cancel_right a b (b'#' ∷ decimal n) (ap (λ t. a ++ b'#' ∷ t) (sym digits) ∙ e),
      decimal_inj m n digits,
    )

-- Every entry's name is of a number that its type's counter has reached.
pub record IsNumbered (r : Registry) (name : Text) : Type 0 where
  pub type_name : Text
  pub number : ℕ
  pub named : name ≡ name_of type_name number
  pub counted : number ≤ count (load type_name r.counters)

abbrev pub IsWellNumbered : Registry → Type 0
IsWellNumbered r =
    (name : Text) (entry : AdminEntry) → load name r.sources ≡ some entry → IsNumbered r name

-- The name of the next source of a type
abbrev next_name : Text → Registry → Text
next_name type_name r = name_of type_name (count (load type_name r.counters) + 1)

next_fresh :
    (type_name : Text) (r : Registry)
    → IsWellNumbered r
    → load (next_name type_name r) r.sources ≡ none
next_fresh type_name r h = elim (Option-cases (load (next_name type_name r) r.sources)) [
  | inl e ↦ e
  | inr (entry, e) ↦
      let old = h (next_name type_name r) entry e in
      let (same, number) =
        name_of_inj type_name old.type_name (count (load type_name r.counters) + 1) old.number
          old.named in
      let reached : old.number ≤ count (load type_name r.counters) =
        subst (λ t. old.number ≤ count (load t r.counters)) (sym same) old.counted in
      absurd (omega arith)
]

unregister-IsWellNumbered :
    (name : Text) (r : Registry) → IsWellNumbered r → IsWellNumbered (unregister name r)
unfolding unregister
unregister-IsWellNumbered name r h k entry e = elim (Bool-cases (is_nil name)) [
  | inl n ↦ rw (unregister, n) (h k entry (rw (unregister, n) at e))
  | inr n ↦ elim (Bool-cases (str_eq name k)) [
    | inl s ↦
        let gone : load k (delete name r.sources) ≡ none =
          load-delete k name r.sources ∙ ap (λ b. if b then none else load k r.sources) s in
        absurd (cc (gone, rw (unregister, n) at e))
    | inr s ↦
        let kept : load k (delete name r.sources) ≡ load k r.sources =
          load-delete k name r.sources ∙ ap (λ b. if b then none else load k r.sources) s in
        let old = h k entry (sym kept ∙ (rw (unregister, n) at e)) in
        rw (unregister, n)
          (record {
            type_name = old.type_name;
            number = old.number;
            named = old.named;
            counted = old.counted;
          })
  ]
]

-- A registry with another entry, and its counter
abbrev with_entry : Text → ℕ → Registry → Registry
with_entry type_name n r = record {
  sources =
      (name_of type_name n, record { name = name_of type_name n; type_name = type_name })
      ∷ r.sources;
  counters = (type_name, n) ∷ r.counters;
}

with_entry-IsWellNumbered :
    (type_name : Text) (n : ℕ) (r : Registry)
    → n ≡ count (load type_name r.counters) + 1
    → IsWellNumbered r
    → IsWellNumbered (with_entry type_name n r)
unfolding load
with_entry-IsWellNumbered type_name n r c h k entry e =
    elim (Bool-cases (str_eq (name_of type_name n) k)) [
      | inl s ↦
          let counted : n ≤ count (load type_name ((type_name, n) ∷ r.counters)) =
            rw (load, str_eq_refl type_name) (omega arith) in
          record {
            type_name = type_name;
            number = n;
            named = sym (str_eq→eq (name_of type_name n) k s);
            counted = counted;
          }
      | inr s ↦
          let old = h k entry (rw (load, s) at e) in
          let counted : old.number ≤ count (load old.type_name ((type_name, n) ∷ r.counters)) =
            elim (Bool-cases (str_eq type_name old.type_name)) [
              | inl t ↦
                  let same = str_eq→eq type_name old.type_name t in
                  let reached : old.number ≤ count (load type_name r.counters) =
                    subst (λ u. old.number ≤ count (load u r.counters)) (sym same) old.counted in
                  rw (load, t) (omega arith)
              | inr t ↦ rw (load, t) old.counted
            ] in
          record {
            type_name = old.type_name;
            number = old.number;
            named = old.named;
            counted = counted;
          }
    ]

load-unregister :
    (name k : Text) (r : Registry)
    → load k (unregister name r).sources
      ≡ (if not (is_nil name) && str_eq name k then none else load k r.sources)
unfolding unregister
load-unregister name k r = elim (Bool-cases (is_nil name)) [
  | inl e ↦ rw (unregister, e) refl
  | inr e ↦ rw (unregister, e) (load-delete k name r.sources)
]

-- `RegisterAdminSource` gives a source a name that no registered source has, and registers it under
-- it, while all others stay under theirs; `UnregisterAdminSource` removes what it names and nothing
-- else, and does nothing for the empty name. Both keep what this rests on: every name ends in a
-- number that its type's counter has reached. (Until the counter, which has 64 bits, wraps around.)
pub register-IsWellNumbered :
    (type_name : Text) (r : Registry)
    → count (load type_name r.counters) + 1 < 18446744073709551616
    → IsWellNumbered r
    → (load (register type_name r).0 r.sources ≡ none)
      × ((name : Text)
          → load name (register type_name r).1.sources ≡ (
              if str_eq (register type_name r).0 name
              then some (record { name = (register type_name r).0; type_name = type_name })
              else load name r.sources))
      × IsWellNumbered (register type_name r).1
      × ((name k : Text)
          → load k (unregister name r).sources
            ≡ (if not (is_nil name) && str_eq name k then none else load k r.sources))
      × ((name : Text) → IsWellNumbered (unregister name r))
unfolding register load
register-IsWellNumbered type_name r l h =
    let k = count (load type_name r.counters) + 1 in
    let m : k % 18446744073709551616 ≡ k = omega arith in
    (
      rw m (next_fresh type_name r h),
      λ name. refl,
      with_entry-IsWellNumbered type_name (k % 18446744073709551616) r m h,
      λ name k. load-unregister name k r,
      λ name. unregister-IsWellNumbered name r h,
    )
