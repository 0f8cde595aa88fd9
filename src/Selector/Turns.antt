-- ===== src/Selector/Turns.antt =====
-- Round-robin: the picks of one selector go round the candidates.
use caddy_dynamic_routing.Base.{
  ℕ, zero, suc, ◌+◌, ◌-◌, ◌%◌, ◌<◌, ◌≡◌, sym, ap, ◌∙◌, List, [], ◌∷◌, some, arith, length,
  get_elem?, leb, Bool-cases, inl, inr,
}
use native.Mathlib.Nat.{mod-lt, mod-add-mod, mod-eq_of_lt, add-mod_right}
use caddy_dynamic_routing.Config.{WeightedUpstream}
use caddy_dynamic_routing.Selector.{Selector, Pick, at, select_round_robin}

-- `n` calls of `selectRoundRobin`, and their picks in order
unfoldable pub turns : ℕ → Selector → List WeightedUpstream → List Pick
turns zero s us = []
turns (suc n) s us = let (t, p) = select_round_robin s us in p ∷ turns n t us

turns_elem :
    (n k : ℕ) (s : Selector) (us : List WeightedUpstream)
    → k < n
    → s.rr_index + n < 18446744073709551616
    → get_elem? (turns n s us) k ≡ some (at (get_elem? us ((s.rr_index + k) % length us)))
unfolding turns select_round_robin
turns_elem zero k s us h l = absurd (omega arith)
turns_elem (suc n) zero s us h l = ap (λ i. some (at (get_elem? us (i % length us)))) (omega arith)
turns_elem (suc n) (suc k) s us h l =
    let t : Selector = record s { rr_index = (s.rr_index + 1) % 18446744073709551616 } in
    turns_elem n k t us (omega arith) (omega arith)
    ∙ ap (λ i. some (at (get_elem? us (i % length us)))) (omega arith)

turn_of : (r j n : ℕ) → j < n → (k : ℕ) × (k < n) × ((r + k) % n ≡ j)
turn_of r j n h =
    let bound = mod-lt r {m = n} (omega arith) in
    elim (Bool-cases (leb (r % n) j)) [
      | inl e ↦
          let k : ℕ = j - r % n in
          let sum : r % n + k ≡ j = ground arith in
          (k, omega arith, sym (mod-add-mod r n k) ∙ (ap (λ t. t % n) sum ∙ mod-eq_of_lt h))
      | inr e ↦
          let k : ℕ = j + n - r % n in
          let sum : r % n + k ≡ j + n = ground arith in
          (
            k,
            ground arith,
            sym (mod-add-mod r n k) ∙ (ap (λ t. t % n) sum ∙ (add-mod_right j n ∙ mod-eq_of_lt h)),
          )
    ]

-- Any row of as many calls as there are candidates picks every one of them: the `k`-th call picks the
-- candidate `k` places on, around the end. (The counter does not wrap within the row.)
pub turns_lem :
    (s : Selector) (us : List WeightedUpstream)
    → s.rr_index + length us < 18446744073709551616
    → ((k : ℕ)
        → k < length us
        → get_elem? (turns (length us) s us) k
          ≡ some (at (get_elem? us ((s.rr_index + k) % length us))))
      × ((j : ℕ)
          → j < length us
          → (k : ℕ) × (get_elem? (turns (length us) s us) k ≡ some (at (get_elem? us j))))
turns_lem s us l = (
  λ k h. turns_elem (length us) k s us h l,
  λ j h.
      let (k, lt, e) = turn_of s.rr_index j (length us) h in
      (k, turns_elem (length us) k s us lt l ∙ ap (λ i. some (at (get_elem? us i))) e),
)
