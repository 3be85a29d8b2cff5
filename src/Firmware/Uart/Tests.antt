-- ===== src/Firmware/Uart/Tests.antt =====
-- The bridges and the capture of edges at one session of the second UART.
use rustprobe.Common.{
  ℕ, ◌+◌, ◌-◌, ◌*◌, ◌/◌, ◌≡◌, ◌≢◌, refl, ap, arith, true, false, Option, none, some, List, [], ◌∷◌,
  ltb,
}
use rustprobe.Autobaud.{Float, push_batch, probe, reset, hash, raw_to_cycles}
use rustprobe.Firmware.Uart.{
  apply_line_coding, LineCoding, odd_parity, one_and_half, odd_sent, none_sent, no_parity, one_bit,
  start, stop, BaudResult, Bridge, control_changed, on_control, on_event, on_measured, magic_baud,
  word_bits_of, parity_of, stops_of,
}
use rustprobe.Firmware.Uart.Capture.{Engine, new_engine, on_command, on_block}
use rustprobe.Firmware.Uart.System.Owner.{on_block-own_pin}
use rustprobe.Firmware.Uart.System.{System, Reachable, bridge_step, boot, step, bridge, command}

-- Thousandths, without exponentials.
abbrev thousandths : Float ℕ
thousandths = record {
  of_u32 = λ n. n * 1000;
  literal = λ n. n;
  to_u32 = λ x. x / 1000;
  sub = λ a b. a - b;
  mul = λ a b. a * b / 1000;
  div = λ a b. a * 1000 / b;
  neg = λ a. a;
  expf = λ a. 0;
  roundf = λ a. a;
  lt = ltb;
}

abbrev rx_pins : ℕ → ℕ
rx_pins u = u * 4 + 1

abbrev at_rate : ℕ → LineCoding
at_rate n = record { data_rate = n; data_bits = 8; parity_type = no_parity; stop_bits = one_bit }

abbrev booted : System ℕ
booted = record {
  bridges = λ u. record { connected = false; autobauding = false; baud = 115200 };
  engine = new_engine thousandths;
  signal = none;
  last = none;
  rates = λ u. 0;
}

-- The host selects the magic rate on the second UART, and the capture starts.
abbrev asked : System ℕ
asked = bridge_step thousandths rx_pins 1 (control_changed (at_rate 9728)) booted

abbrev watching : System ℕ
watching = record asked { engine = on_command thousandths (start 1 5) asked.engine; signal = none }

asked_signal : asked.signal ≡ some (start 1 5)
unfolding on_event on_control
asked_signal = refl

watching-Reachable : Reachable thousandths rx_pins watching
watching-Reachable =
    step (step (boot (λ u. 115200)) (bridge 1 (control_changed (at_rate 9728)) (λ r h. cc)))
      (command (start 1 5) asked_signal)

-- Two pulses of 2170 cycles at 125 MHz.
abbrev pulses : List ℕ
pulses = 0xffff_fbc2 ∷ 0xffff_fbc2 ∷ []

abbrev engine_of : Option (Option BaudResult × Engine ℕ) → Engine ℕ
engine_of none = new_engine thousandths
engine_of (some (_, e)) = e

abbrev found : BaudResult
found = record { uart = 1; baud = 57603 }

found_run :
    on_block thousandths 1 pulses watching.engine
    ≡ some (some found, engine_of (on_block thousandths 1 pulses watching.engine))
unfolding on_block on_command new_engine push_batch probe reset hash raw_to_cycles
found_run = refl

watching_session : watching.engine.active ≡ some 1
unfolding on_command
watching_session = refl

-- The second bridge takes the result.
found_taken : on_measured 1 5 found (watching.bridges 1) ≢ watching.bridges 1
unfolding on_measured on_event on_control
found_taken h =
    let same : ◌≡◌ {A = ℕ} 57603 115200 = ap (λ (b : Bridge). b.baud) h in omega (arith, same)

on_block-own_pin_example :
    (watching.engine.capture.enabled ≡ true)
    × (watching.engine.capture.pin ≡ rx_pins 1)
    × (found.uart ≡ 1)
    × (watching.rates 1 ≡ magic_baud)
on_block-own_pin_example =
    on_block-own_pin thousandths rx_pins watching watching 1 1 pulses found
      (engine_of (on_block thousandths 1 pulses watching.engine)) watching-Reachable
      watching_session found_run watching-Reachable found_taken

-- One and a half stop bits become two, and nine data bits eight.
line_run :
    apply_line_coding
      (record { baudrate = 115200; word_bits = 8; parity = none_sent; stops = 1; rest = tt })
      (record {
        data_rate = 9600;
        data_bits = 9;
        parity_type = odd_parity;
        stop_bits = one_and_half;
      })
    ≡ record { baudrate = 9600; word_bits = 8; parity = odd_sent; stops = 2; rest = tt }
unfolding apply_line_coding word_bits_of parity_of stops_of
line_run = refl

-- A stop of the first bridge ends the session that the second one asked for.
stolen_run : (on_command thousandths stop watching.engine).active ≡ none
unfolding on_command
stolen_run = refl
