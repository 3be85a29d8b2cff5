-- ===== src/Cli/Session.antt =====
-- cli/src/session.rs: the host's side of the configuration protocol.
-- `P` is what lies behind the opened USB interface; a `Link` sends one request packet and returns
-- the response packet. An action returns its result and the new `P`. The two loops take fuel;
-- `stuck`, which is no error of the source, says that it ran out.
pub mod Transfers
use rustprobe.Common.{
  ℕ, zero, suc, ◌+◌, ◌-◌, ◌%◌, Bool, true, false, not, Option, none, some, List, [], ◌∷◌, ◌++◌, ltb,
  leb, ◌==◌, if◌then◌else◌, length, take, drop, get_or, min, Result, ok, err, ok_or,
}
use rustprobe.Config.{Topology, BoardProfile}
use rustprobe.Config.Protocol.{
  FirmwareInfo, cmd_info, cmd_get_topology, cmd_set_topology, cmd_commit, cmd_reboot, cmd_bootsel,
  cmd_get_profile, cmd_set_profile, status_ok, status_err_decode, status_err_invalid,
  status_err_flash, status_err_bad_request, topology_buf_len,
}
use rustprobe.Firmware.Platform.{Postcard}

pub data SessionError : Type 0 where
  usb decode_failed empty_chunk stuck : SessionError
  short_response short_topology bad_status too_long : ℕ → SessionError
  wrong_echo : ℕ → ℕ → SessionError

pub record Link (P : Type 0) : Type 0 where
  pub transceive : List ℕ → P → Result SessionError (List ℕ) × P

abbrev pub Session : Type 0 → Type 0 → Type 0
Session P A = P → Result SessionError A × P

-- The rest of a method after the result of a call, which `?` returns early if it is an error.
abbrev pub and_then :
    {P A B : Type 0} → Result SessionError A × P → (A → Session P B) → Result SessionError B × P
and_then (ok a, p) f = f a p
and_then (err e, p) f = (err e, p)

infixl 5 ◌>>=◌ ◌>>◌
abbrev pub ◌>>=◌ : {P A B : Type 0} → Session P A → (A → Session P B) → Session P B
◌>>=◌ m f p = and_then (m p) f

abbrev pub ◌>>◌ : {P B : Type 0} → Session P (Unit {0}) → Session P B → Session P B
m >> k = m >>= λ _. k

abbrev pub lift : {P A : Type 0} → Result SessionError A → Session P A
lift r p = (r, p)

abbrev pub chunk_size : ℕ
chunk_size = 61

-- `check`
unfoldable pub check : List ℕ → ℕ → Result SessionError (Unit {0})
check resp cmd =
    if ltb (length resp) 2
    then err (short_response (length resp))
    else if not (get_or resp 0 0 == cmd)
    then err (wrong_echo (get_or resp 0 0) cmd)
    else if not (get_or resp 1 0 == status_ok)
    then err (bad_status (get_or resp 1 0))
    else ok tt

abbrev pub from_bytes : {A : Type 0} → Postcard A → List ℕ → Result SessionError A
from_bytes c bs = ok_or (c.decode bs) decode_failed

module _ {P : Type 0} (link : Link P) where
  -- `transceive` and `check`, which every method does in turn.
  unfoldable pub request : ℕ → List ℕ → Session P (List ℕ)
  unfolding check
  request cmd args = do resp ← link.transceive (cmd ∷ args); lift (check resp cmd); lift (ok resp)

  unfoldable pub info : Postcard FirmwareInfo → Session P FirmwareInfo
  unfolding request
  info c = do resp ← request cmd_info []; lift (from_bytes c (drop 2 resp))

  -- What a round of `get_topology` does with a response: the buffer when it is complete, or else
  -- the buffer to go on with.
  unfoldable pub extend : List ℕ → List ℕ → Result SessionError (Bool × List ℕ)
  extend buf resp =
      let total_len = get_or resp 2 0 in
      let chunk = drop 3 resp in
      if ltb (length resp) 3
      then err (short_topology (length resp))
      else if leb total_len (length buf)
      then ok (true, buf)
      else if length chunk == 0
      then err empty_chunk
      else if leb total_len (length (buf ++ chunk))
      then ok (true, take total_len (buf ++ chunk))
      else ok (false, buf ++ chunk)

  -- The loop of `get_topology`.
  unfoldable pub read_topology : ℕ → List ℕ → Session P (List ℕ)
  read_topology zero buf = lift (err stuck)
  read_topology (suc fuel) buf = do
    resp ← request cmd_get_topology ((length buf % 256) ∷ [])
    r ← lift (extend buf resp)
    elim r.0 [ true ↦ lift (ok r.1) | false ↦ read_topology fuel r.1 ]

  -- A response names a total of at most 255 bytes, and each round but the last adds a byte.
  unfoldable pub get_topology : Postcard Topology → Session P Topology
  get_topology c = do buf ← read_topology 257 []; lift (from_bytes c buf)

  -- The loop of `set_topology`, at `offset`.
  unfoldable pub send_chunks : ℕ → ℕ → List ℕ → Session P (Unit {0})
  send_chunks zero offset encoded = lift (err stuck)
  send_chunks (suc fuel) offset encoded =
      let end = min (offset + chunk_size) (length encoded) in
      do
        _ ← request cmd_set_topology ((offset % 256) ∷ take (end - offset) (drop offset encoded))
        elim (leb (length encoded) end) [
          | true ↦ lift (ok tt)
          | false ↦ send_chunks fuel end encoded
        ]

  unfoldable pub set_topology : Postcard Topology → Topology → Session P (Unit {0})
  set_topology c topo =
      let encoded = c.encode topo in
      if ltb topology_buf_len (length encoded) then lift (err (too_long (length encoded))) else (do
        send_chunks (suc (length encoded)) 0 encoded
        _ ← request cmd_commit ((length encoded % 256) ∷ [])
        lift (ok tt))

  unfoldable pub get_profile : Postcard BoardProfile → Session P BoardProfile
  unfolding request
  get_profile c = do resp ← request cmd_get_profile []; lift (from_bytes c (drop 2 resp))

  unfoldable pub set_profile : Postcard BoardProfile → BoardProfile → Session P (Unit {0})
  unfolding request
  set_profile c profile = do _ ← request cmd_set_profile (c.encode profile); lift (ok tt)

  unfoldable pub reboot : Session P (Unit {0})
  unfolding request
  reboot = do _ ← request cmd_reboot []; lift (ok tt)

  unfoldable pub reboot_bootsel : Session P (Unit {0})
  unfolding request
  reboot_bootsel = do _ ← request cmd_bootsel []; lift (ok tt)

pub data Meaning : Type 0 where
  fine failed_to_decode failed_validation flash_write_failed malformed unknown_status : Meaning

-- `status_str`, with a name for each text.
unfoldable pub status_str : ℕ → Meaning
status_str status =
    if status == status_ok
    then fine
    else if status == status_err_decode
    then failed_to_decode
    else if status == status_err_invalid
    then failed_validation
    else if status == status_err_flash
    then flash_write_failed
    else if status == status_err_bad_request
    then malformed
    else unknown_status
