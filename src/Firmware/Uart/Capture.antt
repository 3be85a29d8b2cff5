-- ===== src/Firmware/Uart/Capture.antt =====
-- firmware/src/autobaud.rs: the capture of edges on one state machine, and the loop of its task.
-- The PIO program and its clock are not modelled; a block is the words that the state machine has
-- pushed since the capture was armed or the last block was taken.
use rustprobe.Common.{ℕ, Bool, true, false, Option, none, some, List}
use rustprobe.Autobaud.{Float, BaudEstimator, Estimate, push_batch}
use rustprobe.Autobaud
use rustprobe.Firmware.Uart.{Command, start, stop, BaudResult}

abbrev pub pio_clock_hz : ℕ
pio_clock_hz = 125_000_000

-- `AutobaudCapture`: whether the state machine runs, and the pin that it looks at.
pub record Capture : Type 0 where
  pub enabled : Bool
  pub pin : ℕ

-- `AutobaudCapture::arm` and `disarm`
unfoldable pub arm : ℕ → Capture → Capture
arm rx_pin c = record { enabled = true; pin = rx_pin }

unfoldable pub disarm : Capture → Capture
disarm c = record c { enabled = false }

-- The variables of `run`.
pub record Engine (F : Type 0) : Type 0 where
  pub estimator : BaudEstimator F
  pub capture : Capture
  pub active : Option ℕ

module _ {F : Type 0} (f : Float F) where
  -- `run`, up to its loop.
  unfoldable pub new_engine : Engine F
  new_engine = record {
    estimator = Autobaud.new f pio_clock_hz;
    capture = record { enabled = false; pin = 0 };
    active = none;
  }

  unfoldable pub begin : ℕ → ℕ → Engine F → Engine F
  unfolding arm
  begin uart rx_pin e = record {
    estimator = Autobaud.reset f e.estimator;
    capture = arm rx_pin e.capture;
    active = some uart;
  }

  -- `Command::Stop`, idle or in a session.
  unfoldable pub end_session : Option ℕ → Engine F → Engine F
  unfolding disarm
  end_session none e = e
  end_session (some uart) e = record e { capture = disarm e.capture; active = none }

  -- A command, idle or in a session.
  unfoldable pub on_command : Command → Engine F → Engine F
  unfolding begin end_session
  on_command (start uart rx_pin) e = begin uart rx_pin e
  on_command stop e = end_session e.active e

  unfoldable pub published : ℕ → Option (Estimate F) → Option BaudResult
  published uart none = none
  published uart (some est) = some (record { uart = uart; baud = est.rate })

  -- What the session does with what the estimator returns for a block.
  unfoldable pub blocked :
      ℕ
      → Option (Option (Estimate F) × BaudEstimator F)
      → Engine F
      → Option (Option BaudResult × Engine F)
  unfolding published
  blocked uart none e = none
  blocked uart (some (est, estimator)) e =
      some (published uart est, record e { estimator = estimator })

  -- A block of words in a session of `uart`: the result is what is sent. `none` says that the
  -- estimator's probing does not end.
  unfoldable pub on_block : ℕ → List ℕ → Engine F → Option (Option BaudResult × Engine F)
  unfolding blocked
  on_block uart words e = blocked uart (push_batch f words e.estimator) e
