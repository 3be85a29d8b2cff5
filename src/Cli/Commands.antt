-- ===== src/Cli/Commands.antt =====
-- cli/src/main.rs: the commands, on an opened session. A command's result is what it prints; a file
-- is its text, or nothing if it cannot be read. Warnings are left out, but for that of `cmd_set_board`.
pub mod Device
pub mod Setting
use rustprobe.Common.{
  ℕ, Bool, true, false, Option, none, some, List, ltb, leb, if◌then◌else◌, length, Result, ok, err,
}
use rustprobe.Config.{Topology, BoardProfile, ValidationError, pico, validate, validate_profile}
use rustprobe.Config.Protocol.{FirmwareInfo}
use rustprobe.Firmware.Platform.{Postcard}
use rustprobe.Toml.Text.{Text, is_empty, trim}
use rustprobe.Toml.Format.{Format}
use rustprobe.Toml.Ranges.{RangeError, format_pin_ranges}
use rustprobe.Toml.Board.{TomlBoardProfile, into_profile, from_profile}
use rustprobe.Toml.Topologies.{TomlTopology, CapacityError, into_topology, from_topology}
use rustprobe.Cli.Session.{Link, Session, SessionError}
use rustprobe.Cli.Session

pub data CommandError : Type 0 where
  unreadable unparsable unwritable : CommandError
  session : SessionError → CommandError
  capacity : CapacityError → CommandError
  range : RangeError → CommandError
  rejected : ValidationError → CommandError
  too_old : ℕ → CommandError

abbrev pub Command : Type 0 → Type 0 → Type 0
Command P A = P → Result CommandError A × P

abbrev pub and_then :
    {P A B : Type 0} → Result CommandError A × P → (A → Command P B) → Result CommandError B × P
and_then (ok a, p) f = f a p
and_then (err e, p) f = (err e, p)

infixl 5 ◌>>=◌ ◌>>◌
abbrev pub ◌>>=◌ : {P A B : Type 0} → Command P A → (A → Command P B) → Command P B
◌>>=◌ m f p = and_then (m p) f

abbrev pub ◌>>◌ : {P B : Type 0} → Command P (Unit {0}) → Command P B → Command P B
m >> k = m >>= λ _. k

-- A result with its error in the command's type.
abbrev pub in_command :
    {E A P : Type 0} → (E → CommandError) → Result E A × P → Result CommandError A × P
in_command f (ok a, p) = (ok a, p)
in_command f (err e, p) = (err (f e), p)

-- A call of the session, and a call that does not need the device.
abbrev pub call : {P A : Type 0} → Session P A → Command P A
call m p = in_command session (m p)

abbrev pub local : {E P A : Type 0} → (E → CommandError) → Result E A → Command P A
local f r p = in_command f (r, p)

abbrev pub present : {P A : Type 0} → CommandError → Option A → Command P A
present e none p = (err e, p)
present e (some a) p = (ok a, p)

pub data Report : Type 0 where
  -- "topology written", with the counts and whether the reboot was requested.
  topology_written : ℕ → ℕ → Bool → Report
  -- "board profile written", and whether the active topology violates it.
  board_written : Text → Text → Bool → Report
  printed : Text → Report
  -- The line that stands for a topology without a text.
  empty_topology : Report
  firmware : FirmwareInfo → Option (Text × Text) → Report
  rebooting : Bool → Report

-- The formats that the client uses.
pub record Formats : Type 0 where
  pub toml_topologies : Format TomlTopology
  pub toml_profiles : Format TomlBoardProfile
  pub topologies : Postcard Topology
  pub profiles : Postcard BoardProfile
  pub infos : Postcard FirmwareInfo

module _ {P : Type 0} (link : Link P) (fs : Formats) where
  unfoldable pub device_profile : FirmwareInfo → Command P BoardProfile
  device_profile info =
      if leb 2 info.protocol_version
      then call (Session.get_profile link fs.profiles)
      else local session (ok pico)

  unfoldable pub cmd_info : Command P Report
  cmd_info = do
    info ← call (Session.info link fs.infos)
    if leb 2 info.protocol_version
        then (do
          b ← call (Session.get_profile link fs.profiles)
          local session (
              ok (
                firmware info
                  (some (format_pin_ranges b.available, format_pin_ranges b.reserved)))))
        else local session (ok (firmware info none))

  unfoldable pub cmd_get : Command P Report
  cmd_get = do
    t ← call (Session.get_topology link fs.topologies)
    text ← present unwritable (fs.toml_topologies.to_string (from_topology t))
    local session (ok (if is_empty (trim text) then empty_topology else printed text))

  -- `cmd_set` behind the store.
  unfoldable pub finish_set : Topology → Bool → Command P Report
  finish_set t reboot = do
    (if reboot then call (Session.reboot link) else local session (ok tt))
    local session (ok (topology_written (length t.probes) (length t.uarts) reboot))

  -- `cmd_set` behind the requests for the limits and the profile.
  unfoldable pub send_topology : Topology → Bool → FirmwareInfo → BoardProfile → Command P Report
  send_topology t reboot info profile = do
    local rejected (validate t info.limits profile)
    call (Session.set_topology link fs.topologies t)
    finish_set t reboot

  -- `cmd_set` behind the reading of the file.
  unfoldable pub set_from : Topology → Bool → Command P Report
  unfolding device_profile
  set_from t reboot = do
    info ← call (Session.info link fs.infos)
    profile ← device_profile info
    send_topology t reboot info profile

  unfoldable pub cmd_set : Option Text → Bool → Command P Report
  cmd_set file reboot = do
    text ← present unreadable file
    parsed ← present unparsable (fs.toml_topologies.from_str text)
    t ← local capacity (into_topology parsed)
    set_from t reboot

  unfoldable pub cmd_get_board : Command P Report
  cmd_get_board = do
    info ← call (Session.info link fs.infos)
    b ← device_profile info
    text ← present unwritable (fs.toml_profiles.to_string (from_profile b))
    local session (ok (printed text))

  abbrev violates : Topology → FirmwareInfo → BoardProfile → Bool
  violates t info b = elim (validate t info.limits b) [ ok _ ↦ false | err _ ↦ true ]

  unfoldable pub cmd_set_board : Option Text → Command P Report
  cmd_set_board file = do
    text ← present unreadable file
    parsed ← present unparsable (fs.toml_profiles.from_str text)
    b ← local range (into_profile parsed)
    info ← call (Session.info link fs.infos)
    (if ltb info.protocol_version 2
        then local {A = Unit} too_old (err info.protocol_version)
        else local session (ok tt))
    local rejected (validate_profile b info.limits)
    call (Session.set_profile link fs.profiles b)
    t ← call (Session.get_topology link fs.topologies)
    local session (
        ok (
          board_written (format_pin_ranges b.available) (format_pin_ranges b.reserved)
            (violates t info b)))

  unfoldable pub cmd_reboot : Bool → Command P Report
  cmd_reboot bootsel = do
    (if bootsel then call (Session.reboot_bootsel link) else call (Session.reboot link))
    local session (ok (rebooting bootsel))
