-- ===== src/Firmware/Instances/Tests.antt =====
-- Set-ups at concrete topologies, among them those that validation would reject.
use rustprobe.Common.{ℕ, ◌≡◌, refl, true, false, none, some, List, [], ◌∷◌, arith, map, ok, err}
use rustprobe.Config
use rustprobe.Config.{
  Topology, ProbeConfig, UartConfig, pico, is_assignable, instance_of, uart_tx_instance,
  uart_rx_instance, same_instance, validate, check_budgets, claim, claim_probes, claim_uarts,
  claim_instances, assignable_mask, rp2040,
}
use rustprobe.Config.Spec.{IsLegal, instances}
use rustprobe.Config.Legal.{validate_iff}
use rustprobe.Firmware.Instances.{
  Bridge, already_claimed, no_such_pin, claim_pin, claim_reset, place, slot, block_engines,
  is_ab_block, build_block, build_engines, set_up, limits,
}
use rustprobe.Firmware.Instances.Blocks.{engines_of}
use rustprobe.Firmware.Instances.Setup.{set_up-IsLegal}

probe : ℕ → ℕ → ProbeConfig
probe a b = record { swclk = a; swdio = b; reset = none }

abbrev uart : UartConfig
uart = record { tx = 4; rx = 5; baud = 115200 }

abbrev five : Topology
five = record {
  probes =
      record { swclk = 2; swdio = 3; reset = some 1 }
      ∷ record { swclk = 6; swdio = 7; reset = none }
      ∷ record { swclk = 8; swdio = 9; reset = none }
      ∷ record { swclk = 10; swdio = 11; reset = none }
      ∷ record { swclk = 12; swdio = 13; reset = none }
      ∷ [];
  uarts = uart ∷ [];
}

five_valid : validate five rp2040 pico ≡ ok tt
unfolding validate check_budgets claim_probes claim_uarts Config.claim_reset claim claim_instances
    is_assignable assignable_mask instance_of
five_valid = refl

five-IsLegal : IsLegal (limits false) pico five
five-IsLegal =
    (validate_iff five rp2040 pico
        (record { available_word = omega arith; reserved_word = omega arith })).0
      (rw five_valid)

set_up-IsLegal_example :
    (bridges : List Bridge) × (set_up false five
      ≡ ok (record {
        engines = engines_of 0 five.probes;
        autobaud = some (record { block = 1; sm = 3 });
        bridges = bridges;
      }))
    × (map (λ r. r.uart) bridges ≡ five.uarts)
    × (map (λ r. some r.instance_no) bridges ≡ instances five.uarts)
set_up-IsLegal_example = set_up-IsLegal false pico five five-IsLegal

twice :
    set_up false (record { probes = probe 2 3 ∷ probe 3 6 ∷ []; uarts = [] }) ≡ err already_claimed
unfolding set_up build_engines build_block block_engines slot place claim_pin claim_reset
    is_ab_block probe
twice = refl

beyond : set_up true (record { probes = probe 2 30 ∷ []; uarts = [] }) ≡ err no_such_pin
unfolding set_up build_engines build_block block_engines slot place claim_pin claim_reset
    is_ab_block probe
beyond = refl
