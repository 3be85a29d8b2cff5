-- ===== src/Firmware/ResetIface.antt =====
-- firmware/src/reset_iface.rs: the control requests of picotool's reset interface. The watchdog's
-- lock is a test that the caller passes; what the request asks of the chip is a value.
use rustprobe.Common.{
  ℕ, ◌/◌, ◌^◌, Bool, not, ◌&&◌, Option, none, some, ltb, ◌==◌, if◌then◌else◌, bit_and,
}

abbrev pub reset_request_bootsel : ℕ
reset_request_bootsel = 0x01

abbrev pub reset_request_flash : ℕ
reset_request_flash = 0x02

-- The fields of a control request that the handler reads.
pub record Request : Type 0 where
  pub is_vendor : Bool
  pub to_interface : Bool
  pub index : ℕ
  pub request : ℕ
  pub value : ℕ

-- `boot` is `reset_to_usb_boot`; the request is rejected if that returns, which it does on a failure.
-- `accepted` has armed the watchdog.
pub data Action : Type 0 where
  accepted rejected : Action
  boot : ℕ → ℕ → Action

-- `1u32.checked_shl(n).unwrap_or(0)`
abbrev pub checked_bit : ℕ → ℕ
checked_bit n = if ltb n 32 then 2 ^ n else 0

unfoldable pub control_out : ℕ → Bool → Request → Option Action
control_out itf unlocked req =
    if not (req.is_vendor && req.to_interface && req.index == itf)
    then none
    else if req.request == reset_request_bootsel
    then some (
        boot (if not (bit_and req.value 0x100 == 0) then checked_bit (req.value / 2 ^ 9) else 0)
          (bit_and req.value 0x7f))
    else if req.request == reset_request_flash
    then some (if unlocked then accepted else rejected)
    else some rejected
