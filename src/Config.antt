-- ===== src/Config.antt =====
-- probe-config/src/lib.rs: the configuration schema and its validation.
-- Pins are bytes, masks are 64-bit words. The fixed-capacity vectors are lists. `1u64 << n` is
-- written for `n` below 64 wherever the code has checked that; the one shift it does not check,
-- by `gpio_count`, takes its distance modulo 64, as the hardware does.
pub mod Spec
pub mod Claims
pub mod Instances
pub mod Legal
pub mod Errors
pub mod Profile
pub mod Protocol
mod Tests
use rustprobe.Common.{
  ℕ, ◌+◌, ◌-◌, ◌*◌, ◌%◌, ◌^◌, Bool, true, false, not, ◌&&◌, ◌||◌, Option, none, some, List, [], ◌∷◌,
  ltb, leb, ◌==◌, if◌then◌else◌, length, bit_and, bit_or, Result, ok, err, ◌>>=◌, ◌>>◌, guard,
  ok_or,
}
use rustprobe.Common.Bits.{has_bit}

abbrev pub max_probes : ℕ
max_probes = 12

abbrev pub max_uarts : ℕ
max_uarts = 2

pub record ProbeConfig : Type 0 where
  pub swclk : ℕ
  pub swdio : ℕ
  pub reset : Option ℕ

pub record UartConfig : Type 0 where
  pub tx : ℕ
  pub rx : ℕ
  pub baud : ℕ

unfoldable pub uart_tx_instance : ℕ → Option ℕ
uart_tx_instance pin =
    if pin == 0 || pin == 12 || pin == 16 || pin == 28
    then some 0
    else if pin == 4 || pin == 8 || pin == 20 || pin == 24
    then some 1
    else none

unfoldable pub uart_rx_instance : ℕ → Option ℕ
uart_rx_instance pin =
    if pin == 1 || pin == 13 || pin == 17 || pin == 29
    then some 0
    else if pin == 5 || pin == 9 || pin == 21 || pin == 25
    then some 1
    else none

-- `let tx = ..?; let rx = ..?; (tx == rx).then_some(tx)`
unfoldable pub same_instance : Option ℕ → Option ℕ → Option ℕ
same_instance (some tx) (some rx) = if tx == rx then some tx else none
same_instance _ _ = none

unfoldable pub instance_of : UartConfig → Option ℕ
unfolding uart_tx_instance uart_rx_instance same_instance
instance_of u = same_instance (uart_tx_instance u.tx) (uart_rx_instance u.rx)

pub record Topology : Type 0 where
  pub probes : List ProbeConfig
  pub uarts : List UartConfig

pub record BoardProfile : Type 0 where
  pub available : ℕ
  pub reserved : ℕ

abbrev pub pico : BoardProfile
pico = record { available = 0x1fff_ffff; reserved = 0x2380_0000 }

-- `self.available & !self.reserved`
unfoldable pub assignable_mask : BoardProfile → ℕ
assignable_mask b = bit_and b.available (2 ^ 64 - 1 - b.reserved)

unfoldable pub is_assignable : BoardProfile → ℕ → Bool
unfolding assignable_mask
is_assignable b pin = ltb pin 64 && has_bit (assignable_mask b) pin

pub record ChipLimits : Type 0 where
  pub gpio_count : ℕ
  pub pio_blocks : ℕ
  pub sms_per_block : ℕ
  pub ep_numbers_per_dir : ℕ
  pub pio_pin_window : ℕ

abbrev pub rp2040 : ChipLimits
rp2040 = record {
  gpio_count = 30;
  pio_blocks = 2;
  sms_per_block = 4;
  ep_numbers_per_dir = 15;
  pio_pin_window = 32;
}

abbrev pub rp2350a : ChipLimits
rp2350a = record {
  gpio_count = 30;
  pio_blocks = 3;
  sms_per_block = 4;
  ep_numbers_per_dir = 15;
  pio_pin_window = 32;
}

abbrev pub rp2350b : ChipLimits
rp2350b = record {
  gpio_count = 48;
  pio_blocks = 3;
  sms_per_block = 4;
  ep_numbers_per_dir = 15;
  pio_pin_window = 32;
}

pub data ValidationError : Type 0 where
  too_many_probes too_many_uarts endpoint_budget pio_window profile_pin_range profile_empty :
      ValidationError
  pin_unavailable pin_conflict uart_pin_mux uart_instance_conflict : ℕ → ValidationError

-- `BoardProfile::validate`
unfoldable pub validate_profile : BoardProfile → ChipLimits → Result ValidationError (Unit {0})
unfolding assignable_mask
validate_profile b chip =
    let gpio_mask = 2 ^ (chip.gpio_count % 64) - 1 in
    do
      guard (bit_and b.available (2 ^ 64 - 1 - gpio_mask) == 0) profile_pin_range
      guard (not (assignable_mask b == 0)) profile_empty

-- The closure `claim` of `Topology::validate`, from `used` to the new `used`.
unfoldable pub claim : ChipLimits → BoardProfile → ℕ → ℕ → Result ValidationError ℕ
claim chip b used pin =
    if leb chip.gpio_count pin || not (is_assignable b pin)
    then err (pin_unavailable pin)
    else if has_bit used pin
    then err (pin_conflict pin)
    else ok (bit_or used (2 ^ pin))

module _ (chip : ChipLimits) (b : BoardProfile) where
  unfoldable pub claim_reset : ℕ → Option ℕ → Result ValidationError ℕ
  claim_reset used none = ok used
  claim_reset used (some r) = claim chip b used r

  -- `for p in &self.probes`
  unfoldable pub claim_probes : ℕ → List ProbeConfig → Result ValidationError ℕ
  claim_probes used [] = ok used
  claim_probes used (p ∷ ps) = do
    u ← claim chip b used p.swclk
    v ← claim chip b u p.swdio
    w ← claim_reset v p.reset
    claim_probes w ps

  -- `for u in &self.uarts`
  unfoldable pub claim_uarts : ℕ → List UartConfig → Result ValidationError ℕ
  claim_uarts used [] = ok used
  claim_uarts used (u ∷ us) = do
    v ← claim chip b used u.tx
    w ← claim chip b v u.rx
    claim_uarts w us

-- The second loop over the UARTs. `used` is `used_uarts`.
unfoldable pub claim_instances : ℕ → List UartConfig → Result ValidationError (Unit {0})
claim_instances used [] = ok tt
claim_instances used (u ∷ us) = do
  inst ← ok_or (instance_of u) (uart_pin_mux u.tx)
  (if has_bit used inst
      then err (uart_instance_conflict inst)
      else claim_instances (bit_or used (2 ^ inst)) us)

-- The tests on the numbers of probes and UARTs.
unfoldable pub check_budgets : ChipLimits → ℕ → ℕ → Result ValidationError (Unit {0})
check_budgets chip n_probes n_uarts =
    let total_sms = chip.pio_blocks * chip.sms_per_block in
    let autobaud_sms : ℕ = if ltb 0 n_uarts then 1 else 0 in
    do
      guard (not (ltb total_sms (n_probes + autobaud_sms))) too_many_probes
      guard (not (ltb max_uarts n_uarts)) too_many_uarts
      guard
          (not (
            ltb chip.ep_numbers_per_dir (n_probes + 2 * n_uarts)
            || ltb chip.ep_numbers_per_dir (n_probes + n_uarts)))
          endpoint_budget

-- `Topology::validate`
unfoldable pub validate : Topology → ChipLimits → BoardProfile → Result ValidationError (Unit {0})
validate t chip b = do
  check_budgets chip (length t.probes) (length t.uarts)
  used ← claim_probes chip b 0 t.probes
  _ ← claim_uarts chip b used t.uarts
  claim_instances 0 t.uarts
