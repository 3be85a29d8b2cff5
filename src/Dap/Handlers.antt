-- ===== src/Dap/Handlers.antt =====
-- dap-async/src/dap.rs: the handlers of the commands that do no counted transfers.
pub mod Replies
use rustprobe.Common.{
  ℕ, zero, suc, ◌+◌, ◌%◌, Bool, true, false, not, List, [], ◌∷◌, ◌==◌, leb, if◌then◌else◌, length,
  bit_and, min, div_ceil_8,
}
use rustprobe.Dap.Command
use rustprobe.Dap.Io.{u8, bytes, u16, u32, put_slice, put_u8, put_u16, put_u32, fill}
use rustprobe.Dap.Swd.{abort_write, Driver, connected, running}
use rustprobe.Dap.Machine.{
  Probe, Dap, Action, pure, fail, ◌>>=◌, ◌>>◌, take_req, respond, reserve_req, patch, modify, gets,
  drive,
}

module _ {D T : Type 0} where
  unfoldable pub info : Action D T (Unit {0})
  info = do
    id ← take_req u8
    version ← gets (λ s. s.version)
    packet_size ← gets (λ s. s.packet_size)
    if id == Command.info_fw_version
        then (do respond (put_u8 (length version % 256)); respond (put_slice version))
        else if id == Command.info_capabilities
        then (do respond (put_u8 1); respond (put_u8 Command.capabilities))
        else if id == Command.info_swo_buffer_size
        then (do respond (put_u8 4); respond (put_u32 0))
        else if id == Command.info_max_packet_count
        then (do respond (put_u8 1); respond (put_u8 1))
        else if id == Command.info_max_packet_size
        then (do respond (put_u8 2); respond (put_u16 packet_size))
        else respond (put_u8 0)

  unfoldable pub transfer_configure : Action D T (Unit {0})
  transfer_configure = do
    idle ← take_req u8
    modify (λ s. record s { params = record s.params { idle_cycles = idle } })
    wait ← take_req u16
    modify (λ s. record s { wait_retries = wait })
    matches ← take_req u16
    modify (λ s. record s { match_retries = matches })
    respond (put_u8 Command.dap_ok)

  unfoldable pub swd_configure : Action D T (Unit {0})
  swd_configure = do
    config ← take_req u8
    modify (λ s. record s { params = record s.params { turnaround = bit_and config 3 + 1 } })
    modify (λ s. record s { params = record s.params { data_phase = not (bit_and config 4 == 0) } })
    respond (put_u8 Command.dap_ok)

  unfoldable pub swo_transport : Action D T (Unit {0})
  swo_transport = do
    transport ← take_req u8
    if leb transport 2 then respond (put_u8 Command.dap_ok) else fail

-- `DelayNs::delay_us`
module _ {D T : Type 0} (delay_us : ℕ → T → T) where
  unfoldable pub delay : Action D T (Unit {0})
  delay = do
    us ← take_req u16
    modify (λ s. record s { delay = delay_us us s.delay })
    respond (put_u8 Command.dap_ok)

module _ {D T : Type 0} (probe : Probe D) where
  -- A call of the driver that returns nothing.
  abbrev pub drive_on : (D → D) → Action D T (Unit {0})
  drive_on f = drive (λ d. (tt, f d))

  unfoldable pub host_status : Action D T (Unit {0})
  host_status = do
    kind ← take_req u8
    v ← take_req u8
    let value = not (v == 0)
    if kind == 0
        then drive_on (probe.host_status (connected value))
        else if kind == 1
        then drive_on (probe.host_status (running value))
        else fail
    respond (put_u8 Command.dap_ok)

  unfoldable pub connect : Action D T (Unit {0})
  connect = do
    port ← take_req u8
    if leb port 1 then (do drive_on probe.connect; respond (put_u8 1)) else respond (put_u8 0)

  unfoldable pub disconnect : Action D T (Unit {0})
  disconnect = do drive_on probe.disconnect; respond (put_u8 Command.dap_ok)

  unfoldable pub write_abort : Action D T (Unit {0})
  write_abort = do
    index ← take_req u8
    word ← take_req u32
    params ← gets (λ s. s.params)
    drive (probe.base.transfer abort_write word params)
    respond (put_u8 Command.dap_ok)

  unfoldable pub swj_pins : Action D T (Unit {0})
  swj_pins = do
    output ← take_req u8
    mask ← take_req u8
    wait ← take_req u32
    pins ← drive (probe.swj_pins output mask (min wait 3000000))
    respond (put_u8 pins)

  unfoldable pub swj_clock : Action D T (Unit {0})
  swj_clock = do
    hz ← take_req u32
    good ← drive (probe.set_clock hz)
    respond (put_u8 (if good then Command.dap_ok else Command.dap_error))

  unfoldable pub swj_sequence : Action D T (Unit {0})
  swj_sequence = do
    n ← take_req u8
    let bits = (if n == 0 then 256 else n)
    data_bytes ← take_req (bytes (div_ceil_8 bits))
    drive_on (probe.write_sequence bits data_bytes)
    respond (put_u8 Command.dap_ok)

  -- One sequence of `swd_sequence`.
  unfoldable pub sequence_one : Action D T (Unit {0})
  sequence_one = do
    info_byte ← take_req u8
    let low = bit_and info_byte 0x3f
    let bits = (if low == 0 then 64 else low)
    if bit_and info_byte 0x80 == 0
        then (do
          data_bytes ← take_req (bytes (div_ceil_8 bits))
          drive_on (probe.write_sequence bits data_bytes))
        else (do
          at ← reserve_req (div_ceil_8 bits)
          read ← drive (probe.read_sequence bits)
          patch (fill at read))

  unfoldable pub sequences : ℕ → Action D T (Unit {0})
  sequences zero = pure tt
  sequences (suc count) = do sequence_one; sequences count

  unfoldable pub swd_sequence : Action D T (Unit {0})
  swd_sequence = do count ← take_req u8; respond (put_u8 Command.dap_ok); sequences count
