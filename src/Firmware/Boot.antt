-- ===== src/Firmware/Boot.antt =====
-- firmware/src/main.rs, from reset to the configuration service: the choice of the profile and of
-- the topology. The chip, its limits and the version are fixed by the build.
pub mod Legal
use rustprobe.Common.{
  ℕ, Bool, true, false, Option, none, some, List, [], ◌∷◌, if◌then◌else◌, length, is_ok, ◌%◌,
}
use rustprobe.Config.{Topology, BoardProfile, ChipLimits, pico, validate, validate_profile}
use rustprobe.Config.Protocol.{FirmwareInfo, Chip, protocol_version}
use rustprobe.Firmware.Platform.{Platform}
use rustprobe.Firmware.FlashConfig.{load_topology, load_profile}
use rustprobe.Firmware.Vendor.{Service, new}

-- `default_topology`
abbrev pub default_topology : Topology
default_topology = record {
  probes = record { swclk = 2; swdio = 3; reset = some 1 } ∷ [];
  uarts = record { tx = 4; rx = 5; baud = 115200 } ∷ [];
}

-- `match load_profile(..)`
unfoldable pub boot_profile : ChipLimits → Option BoardProfile → BoardProfile
boot_profile limits none = pico
boot_profile limits (some p) = if is_ok (validate_profile p limits) then p else pico

-- `match load_topology(..)`: the topology, and whether the stored one is at fault.
unfoldable pub boot_topology : ChipLimits → BoardProfile → Option Topology → Topology × Bool
boot_topology limits profile none = (default_topology, false)
boot_topology limits profile (some t) =
    if is_ok (validate t limits profile) then (t, false) else (default_topology, true)

pub record Build : Type 0 where
  pub chip : Chip
  pub limits : ChipLimits
  pub version : ℕ × ℕ × ℕ

-- `main`, up to `ConfigService::new`
unfoldable pub boot : {S : Type 0} → Platform S → Build → S → Service S
unfolding new
boot pf build flash =
    let profile = boot_profile build.limits (load_profile pf flash) in
    let (topology, config_fault) = boot_topology build.limits profile (load_topology pf flash) in
    new
      (record {
        protocol_version = protocol_version;
        firmware_version = build.version;
        chip = build.chip;
        limits = build.limits;
        active_probes = length topology.probes % 256;
        active_uarts = length topology.uarts % 256;
        config_fault = config_fault;
      })
      topology build.limits profile flash
