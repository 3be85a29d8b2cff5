-- ===== src/Config/Tests.antt =====
-- Runs of the validation, and the theorems at concrete configurations. The runs are those of the
-- unit tests of probe-config/src/lib.rs.
use rustprobe.Common.{ℕ, ◌≡◌, refl, ◌↔◌, true, none, some, [], ◌∷◌, arith, ok, err, is_ok}
use rustprobe.Config.{
  ProbeConfig, UartConfig, Topology, pico, rp2040, pin_conflict, pin_unavailable, uart_pin_mux,
  uart_instance_conflict, profile_pin_range, claim, claim_reset, claim_probes, claim_uarts,
  claim_instances, check_budgets, validate, validate_profile, instance_of, is_assignable,
}
use rustprobe.Config.Spec.{IsLegal}
use rustprobe.Config.Claims.{IsProfile}
use rustprobe.Config.Legal.{validate_iff}
use rustprobe.Config.Errors.{Explains, validate-explained}
use rustprobe.Config.Profile.{IsBoard, validate_profile_iff}

abbrev probe : ℕ → ℕ → ProbeConfig
probe c d = record { swclk = c; swdio = d; reset = none }

abbrev uart : ℕ → ℕ → UartConfig
uart t r = record { tx = t; rx = r; baud = 115200 }

abbrev stock : Topology
stock = record {
  probes = record { swclk = 2; swdio = 3; reset = some 1 } ∷ [];
  uarts = uart 4 5 ∷ [];
}

run : Unit {0}
unfolding claim claim_reset claim_probes claim_uarts claim_instances check_budgets validate
    validate_profile instance_of is_assignable
run = tt

stock_valid : validate stock rp2040 pico ≡ ok tt
unfolding run
stock_valid = refl

abbrev crossed : Topology
crossed = record { probes = probe 2 3 ∷ probe 3 6 ∷ []; uarts = [] }

crossed_rejected : validate crossed rp2040 pico ≡ err (pin_conflict 3)
unfolding run
crossed_rejected = refl

led_rejected :
    validate (record { probes = probe 25 3 ∷ []; uarts = [] }) rp2040 pico
    ≡ err (pin_unavailable 25)
unfolding run
led_rejected = refl

mux_rejected :
    validate (record { probes = []; uarts = uart 4 1 ∷ [] }) rp2040 pico ≡ err (uart_pin_mux 4)
unfolding run
mux_rejected = refl

instance_rejected :
    validate (record { probes = []; uarts = uart 0 1 ∷ uart 16 17 ∷ [] }) rp2040 pico
    ≡ err (uart_instance_conflict 0)
unfolding run
instance_rejected = refl

pico_word : IsProfile pico
pico_word = omega arith

wide_rejected :
    validate_profile (record { available = 0x4000_0000; reserved = 0 }) rp2040
    ≡ err profile_pin_range
unfolding run
wide_rejected = refl

validate_iff_example : (is_ok (validate stock rp2040 pico) ≡ true) ↔ IsLegal rp2040 pico stock
validate_iff_example = validate_iff stock rp2040 pico pico_word

validate-explained_example : Explains rp2040 pico crossed (pin_conflict 3)
validate-explained_example =
    validate-explained rp2040 pico crossed (pin_conflict 3) crossed_rejected

validate_profile_iff_example : (is_ok (validate_profile pico rp2040) ≡ true) ↔ IsBoard rp2040 pico
validate_profile_iff_example = validate_profile_iff rp2040 pico pico_word (omega arith)
