-- ===== src/Dap/Processor/Exchange.antt =====
-- dap-async/src/dap.rs: a whole DAP_Transfer exchange on a target whose AP reads are posted.
use rustprobe.Common.{
  ℕ, ◌+◌, ◌*◌, ◌≤◌, ◌≡◌, ◌≢◌, refl, sym, ◌∙◌, false, some, List, [], ◌∷◌, append-nil, arith, length,
  All, take, ltb, replicate, length-set,
}
use rustprobe.Dap.Command
use rustprobe.Dap.Io.{Response, new, set_u8, u8, reserve}
use rustprobe.Dap.Io.Laws.{Appends, capacity, written, written-set_u8, written-new, written_lem}
use rustprobe.Dap.Swd.{ack_ok}
use rustprobe.Dap.Machine.{Probe, Dap, Machine}
use rustprobe.Dap.Machine.Runs.{
  Runs, bind, after, take_req-Runs, reserve_req-Runs, patch-Runs, reserve_fits,
}
use rustprobe.Dap.Transfers.{start, transfer}
use rustprobe.Dap.Transfers.Pipeline.{Op, IsPlain, words_le, Registers, IsPipelined}
use rustprobe.Dap.Transfers.Steps.{machine}
use rustprobe.Dap.Transfers.Sequence.{encode_all, run_ops, Completed, completed}
use rustprobe.Dap.Processor.{handler, reply, process_command}

-- The reply after its command byte, and the two bytes of the head.
written-set :
    (r : Response) (count status : ℕ) (tail : List ℕ)
    → written r ≡ Command.transfer ∷ 0 ∷ 0 ∷ tail
    → written (set_u8 2 status (set_u8 1 count r)) ≡ Command.transfer ∷ count ∷ status ∷ tail
written-set r count status tail e = rw (written-set_u8 2 status, written-set_u8 1 count, e)

module _ {D T A : Type 0} (probe : Probe D) (delay_us : ℕ → T → T) (dap : Dap D T)
    (registers : Registers A)
    (target : IsPipelined probe registers dap.params dap.wait_retries) where
  -- What the handler leaves: its machine, whose reply has the head and the words.
  record Exchanged (index : ℕ) (ops : List Op) (resp : Response) : Type 0 where
    end : Machine D T
    runs :
        Runs
          (transfer probe)
          (machine probe dap dap.driver (index ∷ length ops ∷ encode_all ops) resp)
          tt
          end
    text :
        written end.resp
        ≡ Command.transfer
          ∷ length ops
          ∷ ack_ok
          ∷ words_le (run_ops registers ops (target.view dap.driver)).0
    seen : target.view end.dap.driver ≡ (run_ops registers ops (target.view dap.driver)).1

  -- The handler's steps around the loop.
  around :
      (index : ℕ) (ops : List Op) (resp r : Response)
      → resp.len ≡ 1
      → written resp ≡ Command.transfer ∷ []
      → reserve 2 resp ≡ some (resp.len, r)
      → Appends resp (replicate 2 0) r
      → Completed probe dap registers target
          (length ops)
          start
          dap.driver
          (encode_all ops)
          r
          (run_ops registers ops (target.view dap.driver)).0
          (run_ops registers ops (target.view dap.driver)).1
          []
      → Exchanged index ops resp
  unfolding transfer u8
  around index ops resp r one begun reserved head c = record {
    end = record {
      dap = record dap { driver = c.driver };
      req = [];
      resp = set_u8 (resp.len + 1) c.status (set_u8 resp.len c.last.count c.reply);
    };
    runs = bind _ (take_req-Runs u8 refl) (
        bind _ (take_req-Runs u8 refl) (
          bind _ (reserve_req-Runs 2 reserved)
            (bind _ c.loop (bind _ c.finished (after (patch-Runs _) (patch-Runs _))))));
    text =
        let total : c.last.count ≡ length ops = omega (arith, c.counted) in
        rw (one, c.ok, total)
          (written-set c.reply (length ops) ack_ok _ (c.appends.text ∙ rw (head.text, begun)));
    seen = c.seen;
  }

  exchanged :
      (index : ℕ) (ops : List Op) (resp : Response)
      → All IsPlain ops
      → ops ≢ []
      → resp.len ≡ 1
      → written resp ≡ Command.transfer ∷ []
      → 3 + 4 * length (run_ops registers ops (target.view dap.driver)).0 ≤ capacity resp
      → Exchanged index ops resp
  exchanged index ops resp plain some_op one begun room =
      let (r, reserved, head) = reserve_fits 2 resp (omega arith) in
      let c =
        completed probe dap registers target ops start dap.driver [] r plain
          (λ none_op. absurd (some_op none_op)) (omega (arith, head.grown, head.same_capacity)) in
      around index ops resp r one begun reserved head (rw (append-nil (encode_all ops)) at c)

  -- If the target answers each transfer within the retries, and a request of one or more plain reads and
  -- writes has a reply that fits, then the reply to DAP_Transfer is the command, the number of
  -- requests, OK, and the words that the reads return when each request takes effect at once, in
  -- their order; and the registers are left as these requests leave them.
  pub process_command-pipelined :
      (index : ℕ) (ops : List Op) (response : List ℕ)
      → All IsPlain ops
      → ops ≢ []
      → 3 + 4 * length (run_ops registers ops (target.view dap.driver)).0 ≤ length response
      → let (dap', buf, len) =
          process_command probe delay_us dap
            (Command.transfer ∷ index ∷ length ops ∷ encode_all ops)
            response in
        let (words, a') = run_ops registers ops (target.view dap.driver) in
        (take len buf ≡ Command.transfer ∷ length ops ∷ ack_ok ∷ words_le words)
        × (target.view dap'.driver ≡ a')
  unfolding process_command handler reply new
  process_command-pipelined index ops response plain some_op room =
      let x =
        exchanged index ops (new response Command.transfer) plain some_op refl
          (written-new response Command.transfer (omega arith))
          (omega (arith, length-set response 0 Command.transfer)) in
      let long : ltb (length response) 2 ≡ false = ground arith in
      rw (long, x.runs.ran) (sym (written_lem x.end.resp) ∙ x.text, x.seen)
