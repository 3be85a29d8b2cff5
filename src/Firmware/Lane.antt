-- ===== src/Firmware/Lane.antt =====
-- firmware/src/main.rs: the I/O task of one DAP interface.
-- The packets that the endpoint will deliver are a list; the endpoint goes down when it runs out.
-- The worker on the other core holds the SWD engine; it is a parameter that answers a command with
-- the bytes of its reply, none for no reply. `stall_diag` only counts and is left out.
pub mod Packets
pub mod Info
pub mod Same
pub mod Requests
pub mod Serve
use rustprobe.Common.{
  ℕ, zero, suc, ◌+◌, ◌%◌, Bool, true, false, not, ◌&&◌, Option, none, some, List, [], ◌∷◌, ◌++◌,
  ltb, leb, ◌==◌, if◌then◌else◌, length, take, drop, get_or, get_elem?, u16_to_le, u32_to_le,
  Result, ok, err,
}
use rustprobe.Config.Protocol.{vendor_base, vendor_end}
use rustprobe.Dap.Command
use rustprobe.Dap.Framing.{need_more, complete, unknown, request_len}
use rustprobe.Firmware.Platform.{Platform}
use rustprobe.Firmware.Vendor.{Service, AfterResponse, nothing, handle}

-- `USB_MPS`, `DAP_PACKET_SIZE`
abbrev pub usb_mps : ℕ
usb_mps = 64

abbrev pub dap_packet_size : ℕ
dap_packet_size = 512

-- The bytes of `DAP_FW_VERSION`, "2.1.0".
abbrev pub dap_fw_version : List ℕ
dap_fw_version = 50 ∷ 46 ∷ 49 ∷ 46 ∷ 48 ∷ []

-- `if len == 0 { None } else { Some(len) }`
abbrev pub nonempty : List ℕ → Option (List ℕ)
nonempty [] = none
nonempty (c ∷ request) = some (c ∷ request)

-- The loop of `read_request`, after `request`: the result, and the packets that are left.
unfoldable pub read_packets :
    List ℕ → List (List ℕ) → Result (Unit {0}) (Option (List ℕ)) × List (List ℕ)
read_packets request [] =
    if ltb dap_packet_size (length request + usb_mps) then (ok none, []) else (err tt, [])
read_packets request (p ∷ ps) = elim (ltb dap_packet_size (length request + usb_mps)) [
  | true ↦ (ok none, p ∷ ps)
  | false ↦ elim (ltb (length p) usb_mps) [
    | true ↦ (ok (nonempty (request ++ p)), ps)
    | false ↦ elim (request_len (request ++ p)) [
      | need_more ↦ read_packets (request ++ p) ps
      | complete n ↦ (ok (nonempty (request ++ p)), ps)
      | unknown ↦ (ok (nonempty (request ++ p)), ps)
    ]
  ]
]

unfoldable pub read_request : List (List ℕ) → Result (Unit {0}) (Option (List ℕ)) × List (List ℕ)
unfolding read_packets
read_request packets = read_packets [] packets

-- `data.chunks(mps)`, with the number of bytes as fuel.
unfoldable pub chunks : ℕ → List ℕ → List (List ℕ)
chunks zero bs = []
chunks (suc fuel) [] = []
chunks (suc fuel) (b ∷ bs) = take usb_mps (b ∷ bs) ∷ chunks fuel (drop usb_mps (b ∷ bs))

-- The packets that `write_response` sends.
unfoldable pub write_response : List ℕ → Bool → List (List ℕ)
unfolding chunks
write_response bs zlp =
    chunks (length bs) bs ++ (if zlp && length bs % usb_mps == 0 then [] ∷ [] else [])

unfoldable pub dap_info_response : List ℕ → List ℕ → List ℕ
dap_info_response request serial = elim (get_elem? request 1) [
  | none ↦ Command.info ∷ 0 ∷ []
  | some id ↦
      if id == Command.info_serial
      then Command.info ∷ ((length serial + 1) % 256) ∷ (serial ++ (0 ∷ []))
      else if id == Command.info_fw_version
      then Command.info ∷ (length dap_fw_version % 256) ∷ dap_fw_version
      else if id == Command.info_capabilities
      then Command.info ∷ 1 ∷ Command.capabilities ∷ []
      else if id == Command.info_swo_buffer_size
      then Command.info ∷ 4 ∷ u32_to_le 0
      else if id == Command.info_max_packet_count
      then Command.info ∷ 1 ∷ 1 ∷ []
      else if id == Command.info_max_packet_size
      then Command.info ∷ 2 ∷ u16_to_le dap_packet_size
      else Command.info ∷ 0 ∷ []
]

abbrev pub is_vendor : ℕ → Bool
is_vendor cmd = leb vendor_base cmd && leb cmd vendor_end

-- What one exchange leaves: the state of the service and of the worker, and, unless the endpoint
-- went down, the packets sent and what to do once they are.
abbrev pub Exchange : Type 0 → Type 0 → Type 0
Exchange S W = Service S × W × Result (Unit {0}) (List (List ℕ) × AfterResponse)

module _ {S W : Type 0} (pf : Platform S) (worker : List ℕ → W → W × List ℕ) (serial : List ℕ) where
  -- The reply to a request, by its command byte.
  unfoldable pub answer : List ℕ → Service S → W → Service S × W × List ℕ × AfterResponse
  unfolding dap_info_response
  answer request s w =
      let cmd = get_or request 0 0 in
      if cmd == Command.info
      then (s, w, dap_info_response request serial, nothing)
      else if is_vendor cmd
      then (let (s', reply, after) = handle pf dap_packet_size request s in (s', w, reply, after))
      else (let (w', reply) = worker request w in (s, w', reply, nothing))

  -- Past the reading of the request.
  unfoldable pub respond : List ℕ → Service S → W → Exchange S W
  unfolding answer
  respond request s w =
      let (s', w', reply, after) = answer request s w in
      if length reply == 0
      then (s', w', ok ([], nothing))
      else (s', w', ok (write_response reply (not (is_vendor (get_or request 0 0))), after))

  -- Past `read_request`, for its result and the packets that it leaves.
  unfoldable pub serve_read :
      Result (Unit {0}) (Option (List ℕ)) × List (List ℕ)
      → Service S
      → W
      → Exchange S W × List (List ℕ)
  unfolding respond
  serve_read (err e, rest) s w = ((s, w, err e), rest)
  serve_read (ok none, rest) s w = ((s, w, ok ([], nothing)), rest)
  serve_read (ok (some request), rest) s w = (respond request s w, rest)

  -- `serve_request`
  unfoldable pub serve_request : List (List ℕ) → Service S → W → Exchange S W × List (List ℕ)
  unfolding serve_read read_request
  serve_request packets s w = serve_read (read_request packets) s w
