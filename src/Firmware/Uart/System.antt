-- ===== src/Firmware/Uart/System.antt =====
-- firmware/src/uart_bridge.rs and firmware/src/autobaud.rs: the bridges and the capture of edges,
-- which meet at a signal that holds the last command and at the last result that was sent.
pub mod Owner
use rustprobe.Common.{ℕ, ◌≡◌, false, Option, none, some, List, ◌==◌, if◌then◌else◌}
use rustprobe.Autobaud.{Float}
use rustprobe.Firmware.Uart.{
  Command, BaudResult, Bridge, Event, measured, control_changed, on_event,
}
use rustprobe.Firmware.Uart.Capture.{Engine, new_engine, on_command, on_block}

-- `CONTROL` is `signal`, and `RESULT` is `last`. `rates` are the rates that the bridges have read from
-- their hosts' line codings last, 0 before the first.
pub record System (F : Type 0) : Type 0 where
  pub bridges : ℕ → Bridge
  pub engine : Engine F
  pub signal : Option Command
  pub last : Option BaudResult
  pub rates : ℕ → ℕ

-- `Signal::signal` replaces the value that is there.
abbrev pub signalled : Option Command → Option Command → Option Command
signalled none before = before
signalled (some c) before = some c

abbrev pub update : {A : Type 0} → (ℕ → A) → ℕ → A → ℕ → A
update bs u b v = if u == v then b else bs v

abbrev pub rate_read : Event → ℕ → ℕ
rate_read (control_changed coding) before = coding.data_rate
rate_read _ before = before

-- `pins` are the receive pins of the UARTs.
module _ {F : Type 0} (f : Float F) (pins : ℕ → ℕ) where
  abbrev pub bridge_step : ℕ → Event → System F → System F
  bridge_step u ev s =
      let (b, out) = on_event u (pins u) ev (s.bridges u) in
      record s {
        bridges = update s.bridges u b;
        signal = signalled out.command s.signal;
        rates = update s.rates u (rate_read ev (s.rates u));
      }

  -- The steps: a bridge's, with the last result if it takes one; the engine's receipt of the signal;
  -- and its receipt of a block in a session.
  pub data Step (s : System F) : System F → Type 0 where
    bridge :
        (u : ℕ) (ev : Event)
        → ((r : BaudResult) → ev ≡ measured r → s.last ≡ some r)
        → Step s (bridge_step u ev s)
    command :
        (c : Command)
        → s.signal ≡ some c
        → Step s (record s { engine = on_command f c s.engine; signal = none })
    block :
        (u : ℕ) (words : List ℕ) (est : Option BaudResult) (e : Engine F)
        → s.engine.active ≡ some u
        → on_block f u words s.engine ≡ some (est, e)
        → Step s (record s { engine = e; last = (elim est [ none ↦ s.last | some r ↦ some r ]) })

  pub data Reachable : System F → Type 0 where
    boot :
        (bauds : ℕ → ℕ)
        → Reachable (record {
          bridges = λ u. record { connected = false; autobauding = false; baud = bauds u };
          engine = new_engine f;
          signal = none;
          last = none;
          rates = λ u. 0;
        })
    step : {s s' : System F} → Reachable s → Step s s' → Reachable s'
