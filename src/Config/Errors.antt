-- ===== src/Config/Errors.antt =====
-- probe-config/src/lib.rs: the errors of `Topology::validate`.
use rustprobe.Common.{
  ℕ, zero, suc, ◌+◌, ◌*◌, ◌≤◌, ◌<◌, ◌^◌, ◌≡◌, sym, ap, ◌∙◌, inl, inr, Bool, true, false, Option,
  none, some, List, [], ◌∷◌, arith, length, bit_or, Result, ok, err, Result-cases, Bool-cases,
  Option-cases, err-injective, ◌==◌,
}
use rustprobe.Common.Bits.{has_bit, has_bit-bit_or_pow, has_bit-zero}
use rustprobe.Config.{
  UartConfig, Topology, BoardProfile, ChipLimits, ValidationError, is_assignable, claim,
  claim_instances, check_budgets, validate, instance_of, max_uarts, too_many_probes, too_many_uarts,
  endpoint_budget, pin_unavailable, pin_conflict, pio_window, uart_pin_mux, uart_instance_conflict,
  profile_pin_range, profile_empty,
}
use rustprobe.Config.Spec.{pins, state_machines}
use rustprobe.Config.Claims.{claim_all}
use rustprobe.Config.Legal.{validate-pins}

abbrev pub to_nat : Bool → ℕ
to_nat true = 1
to_nat false = 0

abbrev pub count : ℕ → List ℕ → ℕ
count p [] = 0
count p (q ∷ qs) = to_nat (q == p) + count p qs

abbrev pub is_at : Option ℕ → ℕ → Bool
is_at none i = false
is_at (some j) i = j == i

abbrev pub counts_if_none : Option ℕ → Bool → ℕ
counts_if_none none same = to_nat same
counts_if_none (some j) same = 0

-- How many of the UARTs select hardware instance `i`.
abbrev pub count_instance : ℕ → List UartConfig → ℕ
count_instance i [] = 0
count_instance i (u ∷ us) = to_nat (is_at (instance_of u) i) + count_instance i us

-- How many of the UARTs with TX pin `p` have pins that select no hardware instance.
abbrev pub unmuxed : ℕ → List UartConfig → ℕ
unmuxed p [] = 0
unmuxed p (u ∷ us) = counts_if_none (instance_of u) (u.tx == p) + unmuxed p us

-- The defect of the topology that an error names. Three errors name none: they are not raised here.
abbrev pub Explains : ChipLimits → BoardProfile → Topology → ValidationError → Type 0
Explains chip b t too_many_probes =
    chip.pio_blocks * chip.sms_per_block < state_machines (length t.probes) (length t.uarts)
Explains chip b t too_many_uarts = max_uarts < length t.uarts
Explains chip b t endpoint_budget = chip.ep_numbers_per_dir < length t.probes + 2 * length t.uarts
Explains chip b t (pin_unavailable p) =
    (1 ≤ count p (pins t)) × (p < chip.gpio_count → is_assignable b p ≡ false)
Explains chip b t (pin_conflict p) = 2 ≤ count p (pins t)
Explains chip b t (uart_pin_mux p) = 1 ≤ unmuxed p t.uarts
Explains chip b t (uart_instance_conflict i) = 2 ≤ count_instance i t.uarts
Explains chip b t pio_window = ⊥
Explains chip b t profile_pin_range = ⊥
Explains chip b t profile_empty = ⊥

module _ (chip : ChipLimits) (b : BoardProfile) where
  abbrev ExplainsClaim : ℕ → List ℕ → ValidationError → Type 0
  ExplainsClaim used ps (pin_unavailable p) =
      (1 ≤ count p ps) × (p < chip.gpio_count → is_assignable b p ≡ false)
  ExplainsClaim used ps (pin_conflict p) = 2 ≤ to_nat (has_bit used p) + count p ps
  ExplainsClaim used ps _ = ⊥

  claim-explained :
      (used q : ℕ) (qs : List ℕ) (x : ValidationError)
      → claim chip b used q ≡ err x
      → ExplainsClaim used (q ∷ qs) x
  unfolding claim
  claim-explained used q qs (pin_unavailable p) h = ground arith
  claim-explained used q qs (pin_conflict p) h = ground arith
  claim-explained used q qs _ h = ground arith

  claim-marks : (used q u : ℕ) → claim chip b used q ≡ ok u → u ≡ bit_or used (2 ^ q)
  unfolding claim
  claim-marks used q u h = ground arith

  weaken :
      (used q : ℕ) (qs : List ℕ) (x : ValidationError)
      → ExplainsClaim (bit_or used (2 ^ q)) qs x
      → ExplainsClaim used (q ∷ qs) x
  weaken used q qs (pin_unavailable p) h = (omega arith, h.1)
  weaken used q qs (pin_conflict p) h =
      let h' = rw (has_bit-bit_or_pow used q p) at h in ground arith
  weaken used q qs _ h = absurd h

  claim_all-explained :
      (used : ℕ) (ps : List ℕ) (x : ValidationError)
      → claim_all chip b used ps ≡ err x
      → ExplainsClaim used ps x
  unfolding claim_all
  claim_all-explained used [] x h = cc
  claim_all-explained used (q ∷ qs) x h = elim (Result-cases (claim chip b used q)) [
    | inr (y, e) ↦ claim-explained used q qs x (e ∙ rw e at h)
    | inl (u, e) ↦
        let run = rw (e, claim-marks used q u e) at h in
        weaken used q qs x (claim_all-explained (bit_or used (2 ^ q)) qs x run)
  ]

abbrev ExplainsMux : ℕ → List UartConfig → ValidationError → Type 0
ExplainsMux used us (uart_pin_mux p) = 1 ≤ unmuxed p us
ExplainsMux used us (uart_instance_conflict i) = 2 ≤ to_nat (has_bit used i) + count_instance i us
ExplainsMux used us _ = ⊥

abbrev mux_result : ValidationError → Result ValidationError (Unit {0})
mux_result = err

no_instance-explained :
    (used : ℕ) (u : UartConfig) (us : List UartConfig) (x : ValidationError)
    → instance_of u ≡ none
    → mux_result (uart_pin_mux u.tx) ≡ err x
    → ExplainsMux used (u ∷ us) x
no_instance-explained used u us (uart_pin_mux p) e h = rw e (ground arith)
no_instance-explained used u us _ e h = ground arith

taken-explained :
    (used i : ℕ) (u : UartConfig) (us : List UartConfig) (x : ValidationError)
    → instance_of u ≡ some i
    → has_bit used i ≡ true
    → mux_result (uart_instance_conflict i) ≡ err x
    → ExplainsMux used (u ∷ us) x
taken-explained used i u us (uart_instance_conflict j) e taken h = rw e (ground arith)
taken-explained used i u us _ e taken h = ground arith

weaken_mux :
    (used i : ℕ) (u : UartConfig) (us : List UartConfig) (x : ValidationError)
    → instance_of u ≡ some i
    → ExplainsMux (bit_or used (2 ^ i)) us x
    → ExplainsMux used (u ∷ us) x
weaken_mux used i u us (uart_pin_mux p) e h = omega arith
weaken_mux used i u us (uart_instance_conflict j) e h =
    let h' = rw (has_bit-bit_or_pow used i j) at h in rw e (ground arith)
weaken_mux used i u us _ e h = absurd h

claim_instances-explained :
    (used : ℕ) (us : List UartConfig) (x : ValidationError)
    → claim_instances used us ≡ err x
    → ExplainsMux used us x
unfolding claim_instances
claim_instances-explained used [] x h = cc
claim_instances-explained used (u ∷ us) x h = elim (Option-cases (instance_of u)) [
  | inl e ↦ no_instance-explained used u us x e (rw e at h)
  | inr (i, e) ↦ elim (Bool-cases (has_bit used i)) [
    | inl taken ↦ taken-explained used i u us x e taken (rw (e, taken) at h)
    | inr unused ↦
        weaken_mux used i u us x e
          (claim_instances-explained (bit_or used (2 ^ i)) us x (rw (e, unused) at h))
  ]
]

abbrev ExplainsBudget : ChipLimits → ℕ → ℕ → ValidationError → Type 0
ExplainsBudget chip n m too_many_probes = chip.pio_blocks * chip.sms_per_block < state_machines n m
ExplainsBudget chip n m too_many_uarts = max_uarts < m
ExplainsBudget chip n m endpoint_budget = chip.ep_numbers_per_dir < n + 2 * m
ExplainsBudget chip n m _ = ⊥

budgets-explained :
    (chip : ChipLimits) (n m : ℕ) (x : ValidationError)
    → check_budgets chip n m ≡ err x
    → ExplainsBudget chip n m x
unfolding check_budgets
budgets-explained chip n zero too_many_probes h = ground arith
budgets-explained chip n (suc m) too_many_probes h = ground arith
budgets-explained chip n m _ h = ground arith

module _ (chip : ChipLimits) (b : BoardProfile) (t : Topology) where
  from_budget :
      (x : ValidationError)
      → ExplainsBudget chip (length t.probes) (length t.uarts) x
      → Explains chip b t x
  from_budget too_many_probes h = h
  from_budget too_many_uarts h = h
  from_budget endpoint_budget h = h
  from_budget _ h = absurd h

  from_claim : (x : ValidationError) → ExplainsClaim chip b 0 (pins t) x → Explains chip b t x
  from_claim (pin_unavailable p) h = h
  from_claim (pin_conflict p) h = let none_yet = has_bit-zero p in ground arith
  from_claim _ h = absurd h

  from_mux : (x : ValidationError) → ExplainsMux 0 t.uarts x → Explains chip b t x
  from_mux (uart_pin_mux p) h = h
  from_mux (uart_instance_conflict i) h = let none_yet = has_bit-zero i in ground arith
  from_mux _ h = absurd h

  -- Every error of `validate` names a defect that the topology has: too few state machines, too
  -- many UARTs, too few endpoints, a claimed pin beyond the chip or not assignable, a pin claimed
  -- at least twice, a UART with that TX pin and no instance, an instance selected at least twice.
  -- `PioWindow` and the two profile errors are never raised.
  pub validate-explained : (x : ValidationError) → validate t chip b ≡ err x → Explains chip b t x
  validate-explained x h =
      let h' = sym (validate-pins t chip b) ∙ h in
      elim (Result-cases (check_budgets chip (length t.probes) (length t.uarts))) [
        | inr (y, e) ↦ from_budget x (budgets-explained chip _ _ x (e ∙ rw e at h'))
        | inl (_, e) ↦ elim (Result-cases (claim_all chip b 0 (pins t))) [
          | inr (y, e') ↦ from_claim x (
              claim_all-explained chip b 0 (pins t) x
                (e' ∙ ap err (err-injective (Unit {0}) (rw (e, e') at h'))))
          | inl (u, e') ↦ from_mux x (claim_instances-explained 0 t.uarts x (rw (e, e') at h'))
        ]
      ]
