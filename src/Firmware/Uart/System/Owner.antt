-- ===== src/Firmware/Uart/System/Owner.antt =====
-- firmware/src/uart_bridge.rs, firmware/src/autobaud.rs: whose pin a session looks at, and who takes its
-- results.
use mathlib.Core.Path.{subst}
use rustprobe.Common.{
  ℕ, ◌≡◌, ◌≢◌, refl, sym, ap, ◌∙◌, true, false, Option, none, some, List, ◌==◌, ◌&&◌, arith,
  some_inj, inl, inr, Bool-cases,
}
use rustprobe.Autobaud.{Float, BaudEstimator, Estimate, push_batch}
use rustprobe.Firmware.Uart.{
  Command, start, stop, BaudResult, Bridge, Event, connection, paused, from_host, from_target,
  control_changed, measured, on_control, on_measured, on_event, magic_baud,
}
use rustprobe.Firmware.Uart.Capture.{
  arm, disarm, Engine, new_engine, begin, end_session, on_command, published, blocked, on_block,
}
use rustprobe.Firmware.Uart.System.{
  System, signalled, rate_read, bridge_step, Step, bridge, command, block, Reachable, boot, step,
}

module _ {F : Type 0} (f : Float F) (pins : ℕ → ℕ) where
  -- Every session looks at the pin of its UART, also one that a command will start, and a bridge is
  -- autobauding exactly when the last rate that it read is the magic one.
  pub record IsSound (s : System F) : Type 0 where
    pub signal_pin : (u p : ℕ) → s.signal ≡ some (start u p) → p ≡ pins u
    pub session_pin :
        (u : ℕ)
        → s.engine.active ≡ some u
        → (s.engine.capture.enabled ≡ true) × (s.engine.capture.pin ≡ pins u)
    pub idle : s.engine.active ≡ none → s.engine.capture.enabled ≡ false
    pub asking : (u : ℕ) → (s.bridges u).autobauding ≡ (s.rates u == magic_baud)

  on_event-asking :
      (u p : ℕ) (ev : Event) (b : Bridge) (rate : ℕ)
      → b.autobauding ≡ (rate == magic_baud)
      → (on_event u p ev b).0.autobauding ≡ (rate_read ev rate == magic_baud)
  unfolding on_event on_control on_measured
  on_event-asking u p connection b rate h = h
  on_event-asking u p paused b rate h = h
  on_event-asking u p (from_host none written) b rate h = h
  on_event-asking u p (from_host (some bytes) true) b rate h = h
  on_event-asking u p (from_host (some bytes) false) b rate h = h
  on_event-asking u p (from_target none sent) b rate h = h
  on_event-asking u p (from_target (some bytes) true) b rate h = h
  on_event-asking u p (from_target (some bytes) false) b rate h = h
  on_event-asking u p (control_changed coding) b rate h =
      elim (Bool-cases (coding.data_rate == magic_baud)) [ inl e ↦ rw e refl | inr e ↦ rw e refl ]
  on_event-asking u p (measured r) b rate h = elim (Bool-cases (b.autobauding && r.uart == u)) [
    | inl e ↦ rw e h
    | inr e ↦ rw e h
  ]

  update-asking :
      (u : ℕ) (ev : Event) (s : System F)
      → ((v : ℕ) → (s.bridges v).autobauding ≡ (s.rates v == magic_baud))
      → (v : ℕ)
      → ((bridge_step f pins u ev s).bridges v).autobauding
        ≡ ((bridge_step f pins u ev s).rates v == magic_baud)
  update-asking u ev s h v = elim (Bool-cases (u == v)) [
    | inl e ↦ rw e (on_event-asking u (pins u) ev (s.bridges u) (s.rates u) (h u))
    | inr e ↦ rw e (h v)
  ]

  on_event-start :
      (u : ℕ) (ev : Event) (b : Bridge) (v p : ℕ)
      → (on_event u (pins u) ev b).1.command ≡ some (start v p)
      → p ≡ pins v
  unfolding on_event on_control
  on_event-start u ev b v p h = ground arith

  signalled-start :
      (u : ℕ) (ev : Event) (s : System F) (c : Option Command) (v p : ℕ)
      → (on_event u (pins u) ev (s.bridges u)).1.command ≡ c
      → IsSound s
      → signalled c s.signal ≡ some (start v p)
      → p ≡ pins v
  signalled-start u ev s none v p e i h = i.signal_pin v p h
  signalled-start u ev s (some c) v p e i h = on_event-start u ev (s.bridges u) v p (e ∙ h)

  bridge-IsSound :
      (u : ℕ) (ev : Event) (s : System F) → IsSound s → IsSound (bridge_step f pins u ev s)
  bridge-IsSound u ev s i = record {
    signal_pin = λ v p h. signalled-start u ev s _ v p refl i h;
    session_pin = i.session_pin;
    idle = i.idle;
    asking = update-asking u ev s i.asking;
  }

  -- What the invariant says of the engine alone.
  pub record IsWatching (e : Engine F) : Type 0 where
    pub watched :
        (u : ℕ) → e.active ≡ some u → (e.capture.enabled ≡ true) × (e.capture.pin ≡ pins u)
    pub unwatched : e.active ≡ none → e.capture.enabled ≡ false

  blocked_frame :
      (pushed : Option (Option (Estimate F) × BaudEstimator F)) (u : ℕ) (est : Option BaudResult)
      (e e' : Engine F)
      → blocked f u pushed e ≡ some (est, e')
      → (estimator : BaudEstimator F) × (result : Option (Estimate F)) × (est
          ≡ published f u result)
        × (e' ≡ record e { estimator = estimator })
  unfolding blocked
  blocked_frame none u est e e' h = cc
  blocked_frame (some (result, estimator)) u est e e' h =
      (estimator, result, ap (λ t. t.0) (sym (some_inj h)), ap (λ t. t.1) (sym (some_inj h)))

  -- A block leaves the capture and the session, and its result is the session's.
  on_block_frame :
      (u : ℕ) (words : List ℕ) (est : Option BaudResult) (e e' : Engine F)
      → on_block f u words e ≡ some (est, e')
      → (estimator : BaudEstimator F) × (result : Option (Estimate F)) × (est
          ≡ published f u result)
        × (e' ≡ record e { estimator = estimator })
  unfolding on_block
  on_block_frame u words est e e' h = blocked_frame (push_batch f words e.estimator) u est e e' h

  begin-IsWatching : (u p : ℕ) (e : Engine F) → p ≡ pins u → IsWatching (begin f u p e)
  unfolding begin arm
  begin-IsWatching u p e h = record {
    watched = λ v k. (refl, h ∙ ap pins (some_inj k));
    unwatched = λ k. cc;
  }

  end_session-IsWatching :
      (session : Option ℕ) (e : Engine F)
      → e.active ≡ session
      → IsWatching e
      → IsWatching (end_session f session e)
  unfolding end_session disarm
  end_session-IsWatching none e k w = w
  end_session-IsWatching (some u) e k w = record { watched = λ v k'. cc; unwatched = λ k'. refl }

  on_command-IsWatching :
      (c : Command) (e : Engine F)
      → ((u p : ℕ) → c ≡ start u p → p ≡ pins u)
      → IsWatching e
      → IsWatching (on_command f c e)
  unfolding on_command
  on_command-IsWatching (start u p) e right w = begin-IsWatching u p e (right u p refl)
  on_command-IsWatching stop e right w = end_session-IsWatching e.active e refl w

  on_block-IsWatching :
      (u : ℕ) (words : List ℕ) (est : Option BaudResult) (e e' : Engine F)
      → on_block f u words e ≡ some (est, e')
      → IsWatching e
      → IsWatching e'
  on_block-IsWatching u words est e e' h w =
      let (estimator, _, _, k) = on_block_frame u words est e e' h in
      subst IsWatching (sym k) (record { watched = w.watched; unwatched = w.unwatched })

  watching : (s : System F) → IsSound s → IsWatching s.engine
  watching s i = record { watched = i.session_pin; unwatched = i.idle }

  Step-IsSound : {s s' : System F} → IsSound s → Step f pins s s' → IsSound s'
  Step-IsSound {s} i (bridge u ev _) = bridge-IsSound u ev s i
  Step-IsSound {s} i (command c h) =
      let w =
        on_command-IsWatching c s.engine (λ u p e. i.signal_pin u p (h ∙ ap (λ t. some t) e))
          (watching s i) in
      record {
        signal_pin = λ u p e. cc;
        session_pin = w.watched;
        idle = w.unwatched;
        asking = i.asking;
      }
  Step-IsSound {s} i (block u words est e _ h) =
      let w = on_block-IsWatching u words est s.engine e h (watching s i) in
      record {
        signal_pin = i.signal_pin;
        session_pin = w.watched;
        idle = w.unwatched;
        asking = i.asking;
      }

  pub Reachable-IsSound : {s : System F} → Reachable f pins s → IsSound s
  unfolding new_engine
  Reachable-IsSound (boot bauds) = record {
    signal_pin = λ u p e. cc;
    session_pin = λ u e. cc;
    idle = λ e. refl;
    asking = λ u. refl;
  }
  Reachable-IsSound (step r m) = Step-IsSound (Reachable-IsSound r) m

  published_uart :
      (u : ℕ) (r : BaudResult) (result : Option (Estimate F))
      → some r ≡ published f u result
      → r.uart ≡ u
  unfolding published
  published_uart u r none h = cc
  published_uart u r (some est) h = ap (λ t. t.uart) (some_inj h)

  on_block_uart :
      (u : ℕ) (words : List ℕ) (r : BaudResult) (e e' : Engine F)
      → on_block f u words e ≡ some (some r, e')
      → r.uart ≡ u
  on_block_uart u words r e e' h =
      let (_, result, k, _) = on_block_frame u words (some r) e e' h in published_uart u r result k

on_measured_own :
    (v p : ℕ) (r : BaudResult) (b : Bridge)
    → on_measured v p r b ≢ b
    → (b.autobauding ≡ true) × (r.uart ≡ v)
unfolding on_measured
on_measured_own v p r b h = ground arith

-- In every reachable state with a session, if a block of it makes the capture send a result: the capture
-- is running, and looks at the receive pin of the UART that the result is for. And in every reachable
-- state, a bridge that this result changes is that UART's, and the last rate that this bridge has
-- read from its host's line coding is the magic one.
pub on_block-own_pin :
    {F : Type 0} (f : Float F) (pins : ℕ → ℕ) (s later : System F) (u v : ℕ) (words : List ℕ)
    (r : BaudResult) (e : Engine F)
    → Reachable f pins s
    → s.engine.active ≡ some u
    → on_block f u words s.engine ≡ some (some r, e)
    → Reachable f pins later
    → on_measured v (pins v) r (later.bridges v) ≢ later.bridges v
    → (s.engine.capture.enabled ≡ true)
      × (s.engine.capture.pin ≡ pins r.uart)
      × (r.uart ≡ v)
      × (later.rates v ≡ magic_baud)
on_block-own_pin f pins s later u v words r e reached session sent reached' taken =
    let (on, pin) = (Reachable-IsSound f pins reached).session_pin u session in
    let asked = (Reachable-IsSound f pins reached').asking v in
    let (autobauding, own) = on_measured_own v (pins v) r (later.bridges v) taken in
    (
      on,
      pin ∙ ap pins (sym (on_block_uart f pins u words r s.engine e sent)),
      own,
      ground (arith, asked, autobauding),
    )
