-- ===== src/Firmware/Boot/Legal.antt =====
-- firmware/src/main.rs: the legality of what the firmware starts with.
use rustprobe.Common.{◌≡◌, refl, ◌⊎◌, inl, inr, true, Option, none, some, is_ok, Bool-cases}
use rustprobe.Config.{Topology, BoardProfile, ChipLimits, pico, validate, validate_profile}
use rustprobe.Firmware.Platform.{Platform}
use rustprobe.Firmware.FlashConfig.{load_topology, load_profile}
use rustprobe.Firmware.Boot.{Build, default_topology, boot_profile, boot_topology, boot}

boot_profile-legal :
    (limits : ChipLimits) (stored : Option BoardProfile)
    → is_ok (validate_profile pico limits) ≡ true
    → is_ok (validate_profile (boot_profile limits stored) limits) ≡ true
unfolding boot_profile
boot_profile-legal limits none h = h
boot_profile-legal limits (some p) h = elim (Bool-cases (is_ok (validate_profile p limits))) [
  | inl e ↦ rw (e, e)
  | inr e ↦ rw e h
]

boot_topology-legal :
    (limits : ChipLimits) (profile : BoardProfile) (stored : Option Topology)
    → let booted = boot_topology limits profile stored in
      (is_ok (validate booted.0 limits profile) ≡ true) ⊎ (booted.0 ≡ default_topology)
unfolding boot_topology
boot_topology-legal limits profile none = inr refl
boot_topology-legal limits profile (some t) =
    elim (Bool-cases (is_ok (validate t limits profile))) [
      | inl e ↦ rw e (inl e)
      | inr e ↦ rw e (inr refl)
    ]

-- Whatever the flash holds, on a chip that can be the Pico's the service starts with a board profile
-- that is legal for the chip, and with a topology that is legal on that board or is the built-in one.
pub boot-legal :
    {S : Type 0} (pf : Platform S) (build : Build) (flash : S)
    → is_ok (validate_profile pico build.limits) ≡ true
    → let s = boot pf build flash in
      (is_ok (validate_profile s.profile s.limits) ≡ true)
      × ((is_ok (validate s.active s.limits s.profile) ≡ true) ⊎ (s.active ≡ default_topology))
unfolding boot
boot-legal pf build flash h = (
  boot_profile-legal build.limits (load_profile pf flash) h,
  boot_topology-legal build.limits (boot_profile build.limits (load_profile pf flash))
      (load_topology pf flash),
)
