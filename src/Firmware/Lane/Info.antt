-- ===== src/Firmware/Lane/Info.antt =====
-- firmware/src/main.rs: the form of the answers to `DAP_Info`.
use rustprobe.Common.{
  ℕ, ◌+◌, ◌%◌, ◌<◌, ◌≡◌, Option, none, some, List, [], ◌∷◌, ◌++◌, arith, ◌==◌, if◌then◌else◌,
  length, length-append, get_elem?,
}
use rustprobe.Dap.Command
use rustprobe.Firmware.Lane.{dap_fw_version, dap_info_response}

-- A reply to `DAP_Info` with a value: the command, the number of bytes, and the bytes.
abbrev pub info_reply : List ℕ → List ℕ
info_reply value = Command.info ∷ length value ∷ value

-- The values that the firmware reports, with no bytes for an identifier it does not know.
unfoldable pub info_value : Option ℕ → List ℕ → List ℕ
info_value none serial = []
info_value (some id) serial =
    if id == Command.info_serial
    then serial ++ (0 ∷ [])
    else if id == Command.info_fw_version
    then dap_fw_version
    else if id == Command.info_capabilities
    then Command.capabilities ∷ []
    else if id == Command.info_swo_buffer_size
    then 0 ∷ 0 ∷ 0 ∷ 0 ∷ []
    else if id == Command.info_max_packet_count
    then 1 ∷ []
    else if id == Command.info_max_packet_size
    then 0 ∷ 2 ∷ []
    else []

-- With a serial number of fewer than 255 bytes, every answer to `DAP_Info` is the command, the
-- number of bytes of the value of the identifier asked for, and these bytes; an identifier without
-- a value, or none at all, has a value of no bytes.
pub dap_info_response_lem :
    (request serial : List ℕ)
    → length serial < 255
    → dap_info_response request serial ≡ info_reply (info_value (get_elem? request 1) serial)
unfolding dap_info_response info_value
dap_info_response_lem request serial h =
    let e : (length serial + 1) % 256 ≡ length (serial ++ (0 ∷ [])) =
      omega (arith, length-append serial (0 ∷ [])) in
    ground (arith, e)
