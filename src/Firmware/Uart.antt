-- ===== src/Firmware/Uart.antt =====
-- firmware/src/uart_bridge.rs: a bridge between a serial port of the host and a UART.
-- A bridge is a machine over what its waits come back with. Writes to the drivers are its output; a
-- write that fails is part of what comes back. A bridge takes every event in every state here, also
-- those that the task awaits only while it is connected and DTR is asserted. The rate that it sets is
-- the coding's, which `apply_line_coding` passes on.
pub mod Capture
pub mod System
mod Tests
use rustprobe.Common.{ℕ, Bool, true, false, Option, none, some, List, [], ◌==◌, ◌&&◌, if◌then◌else◌}

abbrev pub magic_baud : ℕ
magic_baud = 9728

pub data ParityType : Type 0 where
  no_parity odd_parity even_parity mark_parity space_parity : ParityType

pub data StopBits : Type 0 where
  one_bit one_and_half two_bits : StopBits

-- `LineCoding`
pub record LineCoding : Type 0 where
  pub data_rate : ℕ
  pub data_bits : ℕ
  pub parity_type : ParityType
  pub stop_bits : StopBits

pub data Parity : Type 0 where
  none_sent odd_sent even_sent : Parity

-- `uart::Config`: `rest` stands for the fields that are not derived from the host.
pub record LineConfig (R : Type 0) : Type 0 where
  pub baudrate : ℕ
  pub word_bits : ℕ
  pub parity : Parity
  pub stops : ℕ
  pub rest : R

unfoldable pub word_bits_of : ℕ → ℕ
word_bits_of n = if n == 5 then 5 else if n == 6 then 6 else if n == 7 then 7 else 8

unfoldable pub parity_of : ParityType → Parity
parity_of odd_parity = odd_sent
parity_of even_parity = even_sent
parity_of _ = none_sent

unfoldable pub stops_of : StopBits → ℕ
stops_of two_bits = 2
stops_of one_and_half = 2
stops_of one_bit = 1

unfoldable pub apply_line_coding : {R : Type 0} → LineConfig R → LineCoding → LineConfig R
apply_line_coding base coding = record {
  baudrate = coding.data_rate;
  word_bits = word_bits_of coding.data_bits;
  parity = parity_of coding.parity_type;
  stops = stops_of coding.stop_bits;
  rest = base.rest;
}

-- `autobaud::Command`
pub data Command : Type 0 where
  start : ℕ → ℕ → Command
  stop : Command

-- `BaudResult`, without its validity.
pub record BaudResult : Type 0 where
  pub uart : ℕ
  pub baud : ℕ

-- `connected` tells that the task is in its inner loop; `baud` is the rate of the UART's driver.
pub record Bridge : Type 0 where
  pub connected : Bool
  pub autobauding : Bool
  pub baud : ℕ

-- What a wait comes back with: a connection; behind a deasserted DTR a change of the control state;
-- and what the `select4` of a connected bridge has.
pub data Event : Type 0 where
  connection : Event
  paused : Event
  from_host : Option (List ℕ) → Bool → Event
  from_target : Option (List ℕ) → Bool → Event
  control_changed : LineCoding → Event
  measured : BaudResult → Event

-- The bytes that a bridge writes, and its command to the capture of edges.
pub record Output : Type 0 where
  pub to_target : List ℕ
  pub to_host : List ℕ
  pub command : Option Command

abbrev pub silent : Output
silent = record { to_target = []; to_host = []; command = none }

module _ (uart_id rx_pin : ℕ) where
  -- The arm `Either4::Third`.
  unfoldable pub on_control : LineCoding → Bridge → Bridge × Output
  on_control coding b =
      if coding.data_rate == magic_baud
      then (
        record b { autobauding = true },
        record silent { command = some (start uart_id rx_pin) },
      )
      else (
        record b { autobauding = false; baud = coding.data_rate },
        record silent { command = (if b.autobauding then some stop else none) },
      )

  -- The arm `Either4::Fourth`.
  unfoldable pub on_measured : BaudResult → Bridge → Bridge
  on_measured r b = if b.autobauding && r.uart == uart_id then record b { baud = r.baud } else b

  unfoldable pub on_event : Event → Bridge → Bridge × Output
  on_event connection b = (record b { connected = true }, silent)
  on_event paused b = (b, silent)
  on_event (from_host none written) b = (record b { connected = false }, silent)
  on_event (from_host (some bytes) written) b =
      if written
      then (b, record silent { to_target = bytes })
      else (record b { connected = false }, silent)
  on_event (from_target none sent) b = (b, silent)
  on_event (from_target (some bytes) sent) b =
      if sent
      then (b, record silent { to_host = bytes })
      else (record b { connected = false }, silent)
  on_event (control_changed coding) b = on_control coding b
  on_event (measured r) b = (on_measured r b, silent)
