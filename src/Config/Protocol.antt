-- ===== src/Config/Protocol.antt =====
-- probe-config/src/protocol.rs: the constants and the info record of the configuration protocol.
use rustprobe.Common.{ℕ, Bool}
use rustprobe.Config.{ChipLimits}

abbrev pub protocol_version : ℕ
protocol_version = 2

abbrev pub vendor_base : ℕ
vendor_base = 0x80

abbrev pub vendor_end : ℕ
vendor_end = 0x9f

abbrev pub cmd_info : ℕ
cmd_info = 0x80

abbrev pub cmd_get_topology : ℕ
cmd_get_topology = 0x81

abbrev pub cmd_set_topology : ℕ
cmd_set_topology = 0x82

abbrev pub cmd_commit : ℕ
cmd_commit = 0x83

abbrev pub cmd_reboot : ℕ
cmd_reboot = 0x84

abbrev pub cmd_bootsel : ℕ
cmd_bootsel = 0x85

abbrev pub cmd_get_profile : ℕ
cmd_get_profile = 0x86

abbrev pub cmd_set_profile : ℕ
cmd_set_profile = 0x87

abbrev pub status_ok : ℕ
status_ok = 0x00

abbrev pub status_err_decode : ℕ
status_err_decode = 0x01

abbrev pub status_err_invalid : ℕ
status_err_invalid = 0x02

abbrev pub status_err_flash : ℕ
status_err_flash = 0x03

abbrev pub status_err_bad_request : ℕ
status_err_bad_request = 0x04

abbrev pub topology_buf_len : ℕ
topology_buf_len = 128

abbrev pub profile_buf_len : ℕ
profile_buf_len = 20

pub data Chip : Type 0 where
  rp2040_chip rp2350_chip : Chip

pub record FirmwareInfo : Type 0 where
  pub protocol_version : ℕ
  pub firmware_version : ℕ × ℕ × ℕ
  pub chip : Chip
  pub limits : ChipLimits
  pub active_probes : ℕ
  pub active_uarts : ℕ
  pub config_fault : Bool
