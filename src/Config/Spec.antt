-- ===== src/Config/Spec.antt =====
-- What a legal board and a legal topology are, with no order of checks and no bit masks in use:
-- the contract of probe-config/src/lib.rs.
use rustprobe.Common.{
  ℕ, ◌+◌, ◌*◌, ◌≤◌, ◌<◌, ◌≡◌, ◌≢◌, true, false, Option, none, some, List, [], ◌∷◌, ◌++◌, length,
  All,
}
use rustprobe.Common.Bits.{has_bit}
use rustprobe.Config.{
  ProbeConfig, UartConfig, Topology, BoardProfile, ChipLimits, instance_of, max_uarts,
}

-- The pin exists on the chip, is wired out, and is not reserved.
pub record IsFree (chip : ChipLimits) (b : BoardProfile) (pin : ℕ) : Type 0 where
  pub exists_on_chip : pin < chip.gpio_count
  pub is_word_bit : pin < 64
  pub is_available : has_bit b.available pin ≡ true
  pub not_reserved : has_bit b.reserved pin ≡ false

abbrev pub Distinct {ℓ} : {A : Type ℓ} → List A → Type ℓ
Distinct [] = Unit
Distinct (x ∷ xs) = All (λ y. x ≢ y) xs × Distinct xs

abbrev pub reset_pins : Option ℕ → List ℕ
reset_pins none = []
reset_pins (some r) = r ∷ []

abbrev pub probe_pins : List ProbeConfig → List ℕ
probe_pins [] = []
probe_pins (p ∷ ps) = p.swclk ∷ p.swdio ∷ reset_pins p.reset ++ probe_pins ps

abbrev pub uart_pins : List UartConfig → List ℕ
uart_pins [] = []
uart_pins (u ∷ us) = u.tx ∷ u.rx ∷ uart_pins us

-- Every pin that a topology claims.
abbrev pub pins : Topology → List ℕ
pins t = probe_pins t.probes ++ uart_pins t.uarts

abbrev pub instances : List UartConfig → List (Option ℕ)
instances [] = []
instances (u ∷ us) = instance_of u ∷ instances us

-- One state machine for each probe, and one more if there is a UART.
abbrev pub state_machines : ℕ → ℕ → ℕ
state_machines probes ℕ.zero = probes
state_machines probes (ℕ.suc uarts) = probes + 1

pub record Budgets (chip : ChipLimits) (n_probes n_uarts : ℕ) : Type 0 where
  pub sm_budget : state_machines n_probes n_uarts ≤ chip.pio_blocks * chip.sms_per_block
  pub uart_budget : n_uarts ≤ max_uarts
  pub in_budget : n_probes + 2 * n_uarts ≤ chip.ep_numbers_per_dir
  pub out_budget : n_probes + n_uarts ≤ chip.ep_numbers_per_dir

pub record IsLegal (chip : ChipLimits) (b : BoardProfile) (t : Topology) : Type 0 where
  pub budgets : Budgets chip (length t.probes) (length t.uarts)
  pub free : All (IsFree chip b) (pins t)
  pub distinct : Distinct (pins t)
  pub muxed : All (λ i. i ≢ none) (instances t.uarts)
  pub own_instance : Distinct (instances t.uarts)
