-- ===== src/Config/Legal.antt =====
-- probe-config/src/lib.rs: `Topology::validate` and legality.
use rustprobe.Common.{
  ℕ, zero, suc, ◌≡◌, ◌↔◌, inl, inr, true, List, [], ◌∷◌, arith, length, ok, ◌>>=◌, ◌>>◌, is_ok,
  Result-cases,
}
use rustprobe.Common.Bits.{has_bit-zero}
use rustprobe.Config.{Topology, BoardProfile, ChipLimits, check_budgets, claim_instances, validate}
use rustprobe.Config.Spec.{IsLegal, Budgets, pins, probe_pins, uart_pins}
use rustprobe.Config.Claims.{
  IsProfile, Fresh, claim_all, claim_all-append, claim_probes-pins, claim_uarts-pins,
  claim_all-accepts, claim_all-accepted,
}
use rustprobe.Config.Instances.{instances_accept, instances_accepted}

Fresh-zero : (ps : List ℕ) → Fresh 0 ps
Fresh-zero [] = tt
Fresh-zero (p ∷ ps) = (has_bit-zero p, Fresh-zero ps)

check_budgets-accepts :
    (chip : ChipLimits) (n m : ℕ) → Budgets chip n m → check_budgets chip n m ≡ ok tt
unfolding check_budgets
check_budgets-accepts chip n zero h = ground arith
check_budgets-accepts chip n (suc m) h = ground arith

check_budgets-accepted :
    (chip : ChipLimits) (n m : ℕ) → is_ok (check_budgets chip n m) ≡ true → Budgets chip n m
unfolding check_budgets
check_budgets-accepted chip n zero h = ground arith
check_budgets-accepted chip n (suc m) h = ground arith

-- `validate` in terms of the flat list of pins.
pub validate-pins :
    (t : Topology) (chip : ChipLimits) (b : BoardProfile)
    → validate t chip b ≡ (
        check_budgets chip (length t.probes) (length t.uarts)
        >> (claim_all chip b 0 (pins t) >>= λ _. claim_instances 0 t.uarts))
unfolding validate
validate-pins t chip b =
    elim (Result-cases (check_budgets chip (length t.probes) (length t.uarts))) [
      | inr (x, e) ↦ rw e
      | inl (_, e) ↦
          rw
            (
              e,
              claim_all-append chip b 0 (probe_pins t.probes) (uart_pins t.uarts),
              claim_probes-pins chip b 0 t.probes,
            )
            (elim (Result-cases (claim_all chip b 0 (probe_pins t.probes))) [
              | inr (x, e') ↦ rw e'
              | inl (u, e') ↦ rw (e', claim_uarts-pins chip b u t.uarts)
            ])
    ]

check_budgets-tt :
    (chip : ChipLimits) (n m : ℕ)
    → is_ok (check_budgets chip n m) ≡ true
    → check_budgets chip n m ≡ ok tt
check_budgets-tt chip n m h = check_budgets-accepts chip n m (check_budgets-accepted chip n m h)

validate_accepts :
    (t : Topology) (chip : ChipLimits) (b : BoardProfile)
    → IsProfile b
    → IsLegal chip b t
    → is_ok (validate t chip b) ≡ true
validate_accepts t chip b word legal =
    let claimed : is_ok (claim_all chip b 0 (pins t)) ≡ true =
      claim_all-accepts chip b word 0 (pins t) legal.free legal.distinct (Fresh-zero (pins t)) in
    rw (validate-pins t chip b, check_budgets-accepts chip _ _ legal.budgets)
      (elim (Result-cases (claim_all chip b 0 (pins t))) [
        | inr (x, e) ↦ cc (rw e at claimed)
        | inl (u, e) ↦ rw e (instances_accept t.uarts legal.muxed legal.own_instance)
      ])

validate_accepted :
    (t : Topology) (chip : ChipLimits) (b : BoardProfile)
    → IsProfile b
    → is_ok (validate t chip b) ≡ true
    → IsLegal chip b t
validate_accepted t chip b word h =
    let h' = rw (validate-pins t chip b) at h in
    elim (Result-cases (check_budgets chip (length t.probes) (length t.uarts))) [
      | inr (x, e) ↦ cc (rw e at h')
      | inl (_, e) ↦ elim (Result-cases (claim_all chip b 0 (pins t))) [
        | inr (x, e') ↦ cc (rw (e, e') at h')
        | inl (u, e') ↦
            let (f, d, _) = claim_all-accepted chip b word 0 (pins t) (rw e') in
            let (m, i) = instances_accepted t.uarts (rw (e, e') at h') in
            record {
              budgets = check_budgets-accepted chip _ _ (rw e);
              free = f;
              distinct = d;
              muxed = m;
              own_instance = i;
            }
      ]
    ]

-- On a profile of 64-bit masks, `validate` accepts a topology exactly when it is legal: the budgets
-- of state machines, UARTs and endpoints hold, every claimed pin is free on the chip and the board,
-- no pin is claimed twice, and every UART selects a hardware instance that no other UART selects.
pub validate_iff :
    (t : Topology) (chip : ChipLimits) (b : BoardProfile)
    → IsProfile b
    → (is_ok (validate t chip b) ≡ true) ↔ IsLegal chip b t
validate_iff t chip b word = (validate_accepted t chip b word, validate_accepts t chip b word)
