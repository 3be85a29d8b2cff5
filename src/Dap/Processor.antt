-- ===== src/Dap/Processor.antt =====
-- dap-async/src/dap.rs: the command processor.
-- The result is the processor after the call, the whole reply buffer and the reply's length.
pub mod Reply
pub mod Exchange
mod Tests
use rustprobe.Common.{
  ℕ, zero, suc, Bool, true, false, Option, none, some, List, [], ◌∷◌, ◌==◌, ltb, if◌then◌else◌,
  length, replicate,
}
use rustprobe.Dap.Command
use rustprobe.Dap.Io.{Response, new, put_slice, put_u8, put_u16, put_u32, set_u8}
use rustprobe.Dap.Machine.{Probe, Dap, Machine, Action, fail, ◌>>=◌, ◌>>◌, respond}
use rustprobe.Dap.Handlers.{
  info, host_status, connect, disconnect, transfer_configure, write_abort, delay, swj_pins,
  swj_clock, swj_sequence, swd_configure, swd_sequence, swo_transport,
}
use rustprobe.Dap.Transfers.{transfer, transfer_block}
use rustprobe.Dap.Framing.{is_one_of}

module _ {D T : Type 0} (probe : Probe D) (delay_us : ℕ → T → T) where
  -- `Dap::suspend`
  unfoldable pub suspend : Dap D T → Dap D T
  suspend dap = record dap { driver = probe.disconnect dap.driver }

  -- The `match` of `process_command`: the handler of a command that has one.
  unfoldable pub handler : ℕ → Option (Action D T (Unit {0}))
  handler c =
      if c == Command.info
      then some info
      else if c == Command.host_status
      then some (host_status probe)
      else if c == Command.connect
      then some (connect probe)
      else if c == Command.disconnect
      then some (disconnect probe)
      else if c == Command.transfer_configure
      then some transfer_configure
      else if c == Command.transfer
      then some (transfer probe)
      else if c == Command.transfer_block
      then some (transfer_block probe)
      else if c == Command.write_abort
      then some (write_abort probe)
      else if c == Command.delay
      then some (delay delay_us)
      else if c == Command.reset_target
      then some (do respond (put_u8 Command.dap_ok); respond (put_u8 0))
      else if c == Command.swj_pins
      then some (swj_pins probe)
      else if c == Command.swj_clock
      then some (swj_clock probe)
      else if c == Command.swj_sequence
      then some (swj_sequence probe)
      else if c == Command.swd_configure
      then some swd_configure
      else if c == Command.swd_sequence
      then some (swd_sequence probe)
      else if is_one_of c
          (Command.jtag_sequence ∷ Command.jtag_configure ∷ Command.jtag_idcode ∷ [])
      then some fail
      else if c == Command.swo_transport
      then some swo_transport
      else if is_one_of c (Command.swo_mode ∷ Command.swo_control ∷ [])
      then some fail
      else if c == Command.swo_baudrate
      then some (respond (put_u32 0))
      else if c == Command.swo_status
      then some (do respond (put_u8 0); respond (put_u32 0))
      else if c == Command.swo_extended_status
      then some (respond (put_slice (replicate 13 0)))
      else if c == Command.swo_data
      then some (do respond (put_u8 0); respond (put_u16 0))
      else none

  -- `match ok`: what the caller gets.
  unfoldable pub reply : Option (Unit {0}) × Machine D T → Dap D T × List ℕ × ℕ
  reply (some _, s) = (s.dap, s.resp.buf, s.resp.len)
  reply (none, s) = (s.dap, (set_u8 1 Command.dap_error s.resp).buf, 2)

  unfoldable pub process_command : Dap D T → List ℕ → List ℕ → Dap D T × List ℕ × ℕ
  process_command dap [] response = (dap, response, 0)
  process_command dap (command ∷ payload) response =
      let resp = new response command in
      if ltb (length response) 2
      then (dap, response, 0)
      else if command == Command.transfer_abort
      then (dap, resp.buf, 0)
      else elim (handler command) [
        | none ↦ (dap, (set_u8 0 Command.invalid resp).buf, 1)
        | some h ↦ reply (h (record { dap = dap; req = payload; resp = resp }))
      ]
