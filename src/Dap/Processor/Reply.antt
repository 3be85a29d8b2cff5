-- ===== src/Dap/Processor/Reply.antt =====
-- dap-async/src/dap.rs: the replies of the command processor.
use rustprobe.Common.{
  ℕ, ◌≤◌, ◌≡◌, ◌≢◌, refl, ◌⊎◌, inl, inr, Bool, true, false, Option, none, some, List, [], ◌∷◌,
  arith, ◌==◌, ltb, if◌then◌else◌, length, get_elem?, length-set, Bool-cases, some_inj, ltb-false,
}
use mathlib.Core.Path.{subst}
use rustprobe.Dap.Command
use rustprobe.Dap.Io.{new, set_u8}
use rustprobe.Dap.Machine.{Probe, Dap, Machine, Action}
use rustprobe.Dap.Machine.Reaches.{
  Reaches, Ends, Any, IsReply, after, fail-Reaches, respond-Reaches, put_u8-IsPut, put_u16-IsPut,
  put_u32-IsPut, put_slice-IsPut, set_u8-IsReply,
}
use rustprobe.Dap.Handlers.Replies.{
  info-Reaches, host_status-Reaches, connect-Reaches, disconnect-Reaches,
  transfer_configure-Reaches, write_abort-Reaches, delay-Reaches, swj_pins-Reaches,
  swj_clock-Reaches, swj_sequence-Reaches, swd_configure-Reaches, swd_sequence-Reaches,
  swo_transport-Reaches,
}
use rustprobe.Dap.Transfers.Replies.{transfer-Reaches, transfer_block-Reaches}
use rustprobe.Dap.Framing.{is_one_of}
use rustprobe.Dap.Processor.{handler, reply, process_command}

-- The handler, if there is one, keeps the reply one.
record Keeps (D T : Type 0) (c size : ℕ) (o : Option (Action D T (Unit {0}))) : Type 0 where
  keeps : (h : Action D T (Unit {0})) → o ≡ some h → Reaches D T c size Any h

module _ {D T : Type 0} {c size : ℕ} where
  some-Keeps : {h : Action D T (Unit {0})} → Reaches D T c size Any h → Keeps D T c size (some h)
  some-Keeps r = record { keeps = λ h e. subst (Reaches D T c size Any) (some_inj e) r }

  none-Keeps : Keeps D T c size none
  none-Keeps = record { keeps = λ h e. absurd (ground arith) }

  if-Keeps :
      {a b : Option (Action D T (Unit {0}))} (t : Bool)
      → Keeps D T c size a
      → Keeps D T c size b
      → Keeps D T c size (if t then a else b)
  if-Keeps true ha hb = ha
  if-Keeps false ha hb = hb

module _ {D T : Type 0} {c size : ℕ} (probe : Probe D) (delay_us : ℕ → T → T) where
  handler-Keeps : (command : ℕ) → Keeps D T c size (handler probe delay_us command)
  unfolding handler
  handler-Keeps command = if-Keeps (command == Command.info) (some-Keeps info-Reaches) (
      if-Keeps (command == Command.host_status) (some-Keeps (host_status-Reaches probe)) (
        if-Keeps (command == Command.connect) (some-Keeps (connect-Reaches probe)) (
          if-Keeps (command == Command.disconnect) (some-Keeps (disconnect-Reaches probe)) (
            if-Keeps (command == Command.transfer_configure) (some-Keeps transfer_configure-Reaches)
              (if-Keeps (command == Command.transfer) (some-Keeps (transfer-Reaches probe)) (
                if-Keeps (command == Command.transfer_block)
                  (some-Keeps (transfer_block-Reaches probe))
                  (if-Keeps (command == Command.write_abort)
                    (some-Keeps (write_abort-Reaches probe))
                    (if-Keeps (command == Command.delay) (some-Keeps (delay-Reaches delay_us)) (
                      if-Keeps (command == Command.reset_target)
                        (some-Keeps (
                          after (respond-Reaches (put_u8-IsPut _))
                            (respond-Reaches (put_u8-IsPut _))))
                        (if-Keeps (command == Command.swj_pins)
                          (some-Keeps (swj_pins-Reaches probe))
                          (if-Keeps (command == Command.swj_clock)
                            (some-Keeps (swj_clock-Reaches probe))
                            (if-Keeps (command == Command.swj_sequence)
                              (some-Keeps (swj_sequence-Reaches probe))
                              (if-Keeps (command == Command.swd_configure)
                                (some-Keeps swd_configure-Reaches)
                                (if-Keeps (command == Command.swd_sequence)
                                  (some-Keeps (swd_sequence-Reaches probe))
                                  (if-Keeps
                                    (is_one_of command (
                                      Command.jtag_sequence ∷ Command.jtag_configure
                                      ∷ Command.jtag_idcode ∷ []))
                                    (some-Keeps fail-Reaches)
                                    (if-Keeps (command == Command.swo_transport)
                                      (some-Keeps swo_transport-Reaches)
                                      (if-Keeps
                                        (is_one_of command
                                          (Command.swo_mode ∷ Command.swo_control ∷ []))
                                        (some-Keeps fail-Reaches)
                                        (if-Keeps (command == Command.swo_baudrate)
                                          (some-Keeps (respond-Reaches (put_u32-IsPut _)))
                                          (if-Keeps (command == Command.swo_status)
                                            (some-Keeps (
                                              after (respond-Reaches (put_u8-IsPut _))
                                                (respond-Reaches (put_u32-IsPut _))))
                                            (if-Keeps (command == Command.swo_extended_status)
                                              (some-Keeps (respond-Reaches (put_slice-IsPut _)))
                                              (if-Keeps (command == Command.swo_data)
                                                (some-Keeps (
                                                  after (respond-Reaches (put_u8-IsPut _))
                                                    (respond-Reaches (put_u16-IsPut _))))
                                                none-Keeps)))))))))))))))))))))

  -- The reply of a handler that started with a reply of one byte.
  reply-bounds :
      (o : Option (Unit {0}) × Machine D T)
      → 2 ≤ size
      → Ends D T c size Any o
      → let (dap, buf, len) = reply probe delay_us o in
        (length buf ≡ size) × (1 ≤ len) × (len ≤ size) × (get_elem? buf 0 ≡ some c)
  unfolding reply set_u8
  reply-bounds (some _, s) two (h, _) = (h.same_size, h.begun, h.bounded, h.echo)
  reply-bounds (none, s) two h =
      let r : IsReply c size (set_u8 1 Command.dap_error s.resp) =
        set_u8-IsReply s.resp h 1 _ (omega arith) in
      (r.same_size, omega arith, two, r.echo)

new-IsReply : (c : ℕ) (buf : List ℕ) → 2 ≤ length buf → IsReply c (length buf) (new buf c)
unfolding new
new-IsReply c [] h = absurd (omega arith)
new-IsReply c (b ∷ buf) h = record {
  same_size = refl;
  begun = omega arith;
  bounded = omega arith;
  echo = refl;
}

-- What a caller may rely on of a reply: it stays in the buffer, whose size is kept, and it begins
-- with the command, or is the one byte for an invalid command.
abbrev pub IsAnswer : (D T : Type 0) → List ℕ → List ℕ → Dap D T × List ℕ × ℕ → Type 0
IsAnswer D T request response (dap, buf, len) =
    (length buf ≡ length response)
    × (len ≤ length buf)
    × (len ≢ 0
        → (get_elem? buf 0 ≡ get_elem? request 0)
          ⊎ ((len ≡ 1) × (get_elem? buf 0 ≡ some Command.invalid)))

module _ {D T : Type 0} (probe : Probe D) (delay_us : ℕ → T → T) where
  handled-IsAnswer :
      (dap : Dap D T) (command : ℕ) (payload response : List ℕ)
      → 2 ≤ length response
      → (o : Option (Action D T (Unit {0}))) → Keeps D T command (length response) o
      → IsAnswer D T (command ∷ payload) response (elim o [
        | none ↦ (dap, (set_u8 0 Command.invalid (new response command)).buf, 1)
        | some h ↦
            reply probe delay_us
              (h (record { dap = dap; req = payload; resp = new response command }))
      ])
  unfolding set_u8 new
  handled-IsAnswer dap command payload response two (some h) k =
      let start : Machine D T = record { dap = dap; req = payload; resp = new response command } in
      let (same_size, begun, bounded, echo) =
        reply-bounds probe delay_us (h start) two
          ((k.keeps h refl).ends start (new-IsReply command response two)) in
      (same_size, omega (arith, same_size, bounded), λ some_len. inl echo)
  handled-IsAnswer dap command payload (b ∷ response) two none k =
      (refl, omega arith, λ some_len. inr (refl, refl))
  handled-IsAnswer dap command payload [] two none k = absurd (omega arith)

  -- The command processor keeps the size of the reply buffer, the reply fits into it, and a reply that
  -- is not empty begins with the command of the request or is the one byte 0xff, whatever the request
  -- holds and the driver does.
  pub process_command-IsAnswer :
      (dap : Dap D T) (request response : List ℕ)
      → IsAnswer D T request response (process_command probe delay_us dap request response)
  unfolding process_command new
  process_command-IsAnswer dap [] response = (refl, omega arith, λ none_len. absurd (none_len refl))
  process_command-IsAnswer dap (command ∷ payload) response =
      elim (Bool-cases (ltb (length response) 2)) [
        | inl short ↦ rw short (refl, omega arith, λ none_len. absurd (none_len refl))
        | inr long ↦ elim (Bool-cases (command == Command.transfer_abort)) [
          | inl abort ↦
              rw (long, abort) (length-set _ 0 _, omega arith, λ none_len. absurd (none_len refl))
          | inr other ↦
              rw (long, other)
                (handled-IsAnswer dap command payload response (ltb-false _ _ long) _
                  (handler-Keeps probe delay_us command))
        ]
      ]
