-- ===== src/Firmware/Lane/Same.antt =====
-- firmware/src/main.rs, dap-async/src/dap.rs: the answers to `DAP_Info` that core 0 gives against those of
-- the command processor.
mod Tests
use rustprobe.Common.{
  ℕ, suc, ◌+◌, ◌%◌, ◌≤◌, ◌≡◌, ◌≢◌, refl, sym, ap, ◌∙◌, inl, inr, Bool, true, false, Option, none,
  some, List, [], ◌∷◌, ◌++◌, append_assoc, arith, ◌==◌, if◌then◌else◌, length, take, ltb,
  length-set, u16_to_le, u32_to_le, Option-cases, Bool-cases,
}
use rustprobe.Dap.Command
use rustprobe.Dap.Io.{Response, new, put_slice, put_u8, put_u16, put_u32, u8, set_u8}
use rustprobe.Dap.Io.Laws.{
  Appends, put_slice-Appends, put_slice_iff, put_u8-slice, capacity, written, written-new,
  written_lem,
}
use rustprobe.Dap.Machine.{Probe, Dap, Machine, respond, take_req, ◌>>=◌, ◌>>◌}
use rustprobe.Dap.Machine.Runs.{
  Runs, bind, after, take_req-Runs, respond-Runs, gets-Runs, if_true, if_false, append_trans,
}
use rustprobe.Dap.Handlers.{info}
use rustprobe.Dap.Processor.{process_command, handler, reply}
use rustprobe.Firmware.Lane.{dap_fw_version, dap_packet_size, dap_info_response}

put_fits :
    (bs : List ℕ) (r : Response)
    → r.len + length bs ≤ capacity r
    → (r' : Response) × (put_slice bs r ≡ some r') × Appends r bs r'
put_fits bs r room = elim (Option-cases (put_slice bs r)) [
  | inl full ↦ absurd ((put_slice_iff bs r).1 room full)
  | inr (r', e) ↦ (r', e, put_slice-Appends bs r e)
]

module _ {D T : Type 0} (dap : Dap D T) where
  -- A number of bytes, and the bytes.
  record Puts (m : Machine D T → Option (Unit {0}) × Machine D T) (req : List ℕ) (r : Response)
      (bs : List ℕ) : Type 0 where
    end : Response
    runs :
        Runs m
          (record { dap = dap; req = req; resp = r })
          tt
          (record { dap = dap; req = req; resp = end })
    text : written end ≡ written r ++ bs

  put_one :
      (v : ℕ) (req : List ℕ) (r : Response)
      → r.len + 1 ≤ capacity r
      → Puts (respond (put_u8 v)) req r (v ∷ [])
  put_one v req r room =
      let (r', e, app) = put_fits (v ∷ []) r room in
      record { end = r'; runs = respond-Runs _ (put_u8-slice v r ∙ e); text = app.text }

  put_two :
      (v : ℕ) (put : Response → Option Response) (bs req : List ℕ) (r : Response)
      → ((r : Response) → put r ≡ put_slice bs r)
      → r.len + 1 + length bs ≤ capacity r
      → Puts (respond (put_u8 v) >> respond put) req r (v ∷ bs)
  put_two v put bs req r same room =
      let (r', e, app) = put_fits (v ∷ []) r (omega arith) in
      let (r'', e', app') = put_fits bs r' (omega (arith, app.grown, app.same_capacity)) in
      record {
        end = r'';
        runs = after (respond-Runs _ (put_u8-slice v r ∙ e)) (respond-Runs put (same r' ∙ e'));
        text = (append_trans app app').text;
      }

  -- The handler answers as core 0 does.
  record Agrees (id : ℕ) (rest serial : List ℕ) (r : Response) : Type 0 where
    end : Response
    bs : List ℕ
    runs :
        Runs info
          (record { dap = dap; req = id ∷ rest; resp = r })
          tt
          (record { dap = dap; req = rest; resp = end })
    text : written end ≡ written r ++ bs
    same : dap_info_response (Command.info ∷ id ∷ rest) serial ≡ Command.info ∷ bs

  module _ (id : ℕ) (rest serial : List ℕ) (r : Response) (v : dap.version ≡ dap_fw_version)
      (n : dap.packet_size ≡ dap_packet_size) (no_serial : (id == Command.info_serial) ≡ false)
      (room : r.len + 6 ≤ capacity r) where
    other_identifiers :
        (id == Command.info_fw_version) ≡ false
        → (id == Command.info_capabilities) ≡ false
        → (id == Command.info_swo_buffer_size) ≡ false
        → Agrees id rest serial r
    unfolding info u8 dap_info_response put_u16
    other_identifiers e e1 e2 = elim (Bool-cases (id == Command.info_max_packet_count)) [
      | inl e3 ↦
          let c = put_two 1 (put_u8 1) (1 ∷ []) rest r (put_u8-slice 1) (omega arith) in
          record {
            end = c.end;
            bs = 1 ∷ 1 ∷ [];
            runs = bind _ (take_req-Runs u8 refl) (
                bind _ (gets-Runs _) (
                  bind _ (gets-Runs _)
                    (if_false _ e (if_false _ e1 (if_false _ e2 (if_true _ e3 c.runs))))));
            text = c.text;
            same = rw (no_serial, e, e1, e2, e3);
          }
      | inr e3 ↦ elim (Bool-cases (id == Command.info_max_packet_size)) [
        | inl e4 ↦
            let c =
              put_two 2 (put_u16 dap.packet_size) (u16_to_le dap.packet_size) rest r (λ r. refl)
                (omega arith) in
            record {
              end = c.end;
              bs = 2 ∷ u16_to_le dap.packet_size;
              runs = bind _ (take_req-Runs u8 refl) (
                  bind _ (gets-Runs _) (
                    bind _ (gets-Runs _) (
                      if_false _ e
                        (if_false _ e1 (if_false _ e2 (if_false _ e3 (if_true _ e4 c.runs)))))));
              text = c.text;
              same = rw (no_serial, e, e1, e2, e3, e4, n);
            }
        | inr e4 ↦
            let c = put_one 0 rest r (omega arith) in
            record {
              end = c.end;
              bs = 0 ∷ [];
              runs = bind _ (take_req-Runs u8 refl) (
                  bind _ (gets-Runs _) (
                    bind _ (gets-Runs _) (
                      if_false _ e
                        (if_false _ e1 (if_false _ e2 (if_false _ e3 (if_false _ e4 c.runs)))))));
              text = c.text;
              same = rw (no_serial, e, e1, e2, e3, e4);
            }
      ]
    ]

    agrees : Agrees id rest serial r
    unfolding info u8 dap_info_response put_u32
    agrees = elim (Bool-cases (id == Command.info_fw_version)) [
      | inl e ↦
          let five : length dap.version ≡ 5 = rw v in
          let c =
            put_two (length dap.version % 256) (put_slice dap.version) dap.version rest r
              (λ r. refl) (omega (arith, five)) in
          record {
            end = c.end;
            bs = length dap.version % 256 ∷ dap.version;
            runs =
                bind _ (take_req-Runs u8 refl)
                  (bind _ (gets-Runs _) (bind _ (gets-Runs _) (if_true _ e c.runs)));
            text = c.text;
            same = rw (no_serial, e, v);
          }
      | inr e ↦ elim (Bool-cases (id == Command.info_capabilities)) [
        | inl e1 ↦
            let c =
              put_two 1 (put_u8 Command.capabilities) (Command.capabilities ∷ []) rest r
                (put_u8-slice Command.capabilities) (omega arith) in
            record {
              end = c.end;
              bs = 1 ∷ Command.capabilities ∷ [];
              runs = bind _ (take_req-Runs u8 refl) (
                  bind _ (gets-Runs _) (bind _ (gets-Runs _) (if_false _ e (if_true _ e1 c.runs))));
              text = c.text;
              same = rw (no_serial, e, e1);
            }
        | inr e1 ↦ elim (Bool-cases (id == Command.info_swo_buffer_size)) [
          | inl e2 ↦
              let c = put_two 4 (put_u32 0) (u32_to_le 0) rest r (λ r. refl) (omega arith) in
              record {
                end = c.end;
                bs = 4 ∷ u32_to_le 0;
                runs = bind _ (take_req-Runs u8 refl) (
                    bind _ (gets-Runs _)
                      (bind _ (gets-Runs _) (if_false _ e (if_false _ e1 (if_true _ e2 c.runs)))));
                text = c.text;
                same = rw (no_serial, e, e1, e2);
              }
          | inr e2 ↦ other_identifiers e e1 e2
        ]
      ]
    ]

module _ {D T : Type 0} (probe : Probe D) (delay_us : ℕ → T → T) where
  short_info :
      (dap : Dap D T) (response : List ℕ)
      → 7 ≤ length response
      → let (dap', buf, len) = process_command probe delay_us dap (Command.info ∷ []) response in
        take len buf ≡ Command.info ∷ Command.dap_error ∷ []
  unfolding process_command handler reply new info u8 take_req ◌>>=◌ set_u8
  short_info dap [] room = absurd (omega arith)
  short_info dap (a ∷ []) room = absurd (omega arith)
  short_info dap (a ∷ b ∷ response) room =
      let long : ltb (length (a ∷ b ∷ response)) 2 ≡ false = ground arith in rw long refl

  same_answer :
      (dap : Dap D T) (id : ℕ) (rest serial response : List ℕ)
      → dap.version ≡ dap_fw_version
      → dap.packet_size ≡ dap_packet_size
      → id ≢ Command.info_serial
      → 7 ≤ length response
      → let (dap', buf, len) =
          process_command probe delay_us dap (Command.info ∷ id ∷ rest) response in
        take len buf ≡ dap_info_response (Command.info ∷ id ∷ rest) serial
  unfolding process_command handler reply new
  same_answer dap id rest serial response v n other room =
      let no_serial : (id == Command.info_serial) ≡ false = ground arith in
      let a =
        agrees dap id rest serial (new response Command.info) v n no_serial
          (omega (arith, length-set response 0 Command.info)) in
      let long : ltb (length response) 2 ≡ false = ground arith in
      rw (long, a.runs.ran)
        (sym (written_lem a.end)
          ∙ a.text
          ∙ ap (λ l. l ++ a.bs) (written-new response Command.info (omega arith))
          ∙ sym a.same)

  -- If the processor has the firmware's version and packet size, and a buffer of at least seven bytes:
  -- a request of `DAP_Info` with an identifier that is not that of the serial number gets the same reply
  -- from core 0 and from the command processor; and one that ends behind the command byte gets an empty
  -- value from core 0, and an error from the processor.
  pub process_command-dap_info_response :
      (dap : Dap D T) (id : ℕ) (rest serial response : List ℕ)
      → dap.version ≡ dap_fw_version
      → dap.packet_size ≡ dap_packet_size
      → id ≢ Command.info_serial
      → 7 ≤ length response
      → let (dap', buf, len) =
          process_command probe delay_us dap (Command.info ∷ id ∷ rest) response in
        let (dap'', short_buf, short_len) =
          process_command probe delay_us dap (Command.info ∷ []) response in
        (take len buf ≡ dap_info_response (Command.info ∷ id ∷ rest) serial)
        × (take short_len short_buf ≡ Command.info ∷ Command.dap_error ∷ [])
        × (dap_info_response (Command.info ∷ []) serial ≡ Command.info ∷ 0 ∷ [])
  unfolding dap_info_response
  process_command-dap_info_response dap id rest serial response v n other room =
      (same_answer dap id rest serial response v n other room, short_info dap response room, refl)
