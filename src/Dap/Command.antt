-- ===== src/Dap/Command.antt =====
-- dap-async/src/command.rs: command ids, `DAP_Info` ids and status bytes. The other modules write
-- `Command.info` for `cmd::INFO`, and `Command.info_fw_version` for `info::FW_VERSION`.
use rustprobe.Common.{ℕ}

abbrev pub info : ℕ
info = 0x00

abbrev pub host_status : ℕ
host_status = 0x01

abbrev pub connect : ℕ
connect = 0x02

abbrev pub disconnect : ℕ
disconnect = 0x03

abbrev pub transfer_configure : ℕ
transfer_configure = 0x04

abbrev pub transfer : ℕ
transfer = 0x05

abbrev pub transfer_block : ℕ
transfer_block = 0x06

abbrev pub transfer_abort : ℕ
transfer_abort = 0x07

abbrev pub write_abort : ℕ
write_abort = 0x08

abbrev pub delay : ℕ
delay = 0x09

abbrev pub reset_target : ℕ
reset_target = 0x0a

abbrev pub swj_pins : ℕ
swj_pins = 0x10

abbrev pub swj_clock : ℕ
swj_clock = 0x11

abbrev pub swj_sequence : ℕ
swj_sequence = 0x12

abbrev pub swd_configure : ℕ
swd_configure = 0x13

abbrev pub jtag_sequence : ℕ
jtag_sequence = 0x14

abbrev pub jtag_configure : ℕ
jtag_configure = 0x15

abbrev pub jtag_idcode : ℕ
jtag_idcode = 0x16

abbrev pub swo_transport : ℕ
swo_transport = 0x17

abbrev pub swo_mode : ℕ
swo_mode = 0x18

abbrev pub swo_baudrate : ℕ
swo_baudrate = 0x19

abbrev pub swo_control : ℕ
swo_control = 0x1a

abbrev pub swo_status : ℕ
swo_status = 0x1b

abbrev pub swo_data : ℕ
swo_data = 0x1c

abbrev pub swd_sequence : ℕ
swd_sequence = 0x1d

abbrev pub swo_extended_status : ℕ
swo_extended_status = 0x1e

abbrev pub queue_commands : ℕ
queue_commands = 0x7e

abbrev pub execute_commands : ℕ
execute_commands = 0x7f

abbrev pub invalid : ℕ
invalid = 0xff

abbrev pub info_serial : ℕ
info_serial = 0x03

abbrev pub info_fw_version : ℕ
info_fw_version = 0x04

abbrev pub info_capabilities : ℕ
info_capabilities = 0xf0

abbrev pub info_swo_buffer_size : ℕ
info_swo_buffer_size = 0xfd

abbrev pub info_max_packet_count : ℕ
info_max_packet_count = 0xfe

abbrev pub info_max_packet_size : ℕ
info_max_packet_size = 0xff

abbrev pub dap_ok : ℕ
dap_ok = 0x00

abbrev pub dap_error : ℕ
dap_error = 0xff

abbrev pub capabilities : ℕ
capabilities = 0x01
