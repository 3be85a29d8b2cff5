-- ===== src/Dap/Transfers/Sequence.antt =====
-- dap-async/src/dap.rs: the loop of DAP_Transfer, to its end, on a target whose AP reads are posted.
use rustprobe.Common.{
  ℕ, suc, ◌+◌, ◌≡◌, refl, sym, ap, ◌∙◌, inl, inr, true, List, [], ◌∷◌, ◌++◌, append-nil,
  append_assoc, arith, ◌==◌, length, length-append, Bool-cases, All,
}
use mathlib.Core.Path.{subst}
use rustprobe.Dap.Io.{Response, u8}
use rustprobe.Dap.Io.Laws.{Appends}
use rustprobe.Dap.Swd.{rdbuff_read, ack_ok}
use rustprobe.Dap.Machine.{Probe, Dap, Action}
use rustprobe.Dap.Machine.Runs.{
  Runs, bind, after, pure-Runs, take_req-Runs, respond-Runs, if_true, if_false, append_trans,
  put_u32_fits,
}
use rustprobe.Dap.Transfers.{Progress, Flow, go_on, transfer_one, transfers, finish}
use rustprobe.Dap.Transfers.Pipeline.{
  Op, read, write, IsPlain, encode, words_le, Registers, effect, IsPipelined,
}
use rustprobe.Dap.Transfers.Steps.{machine, answer, xfer-Runs}
use rustprobe.Dap.Transfers.Delivery.{
  Delivered, pending, HasRoom, read_step-Delivered, write_step-Delivered, length-words_le,
  words_le-append, collected, append_nothing,
}

abbrev pub encode_all : List Op → List ℕ
encode_all [] = []
encode_all (op ∷ ops) = encode op ++ encode_all ops

-- The requests one after the other, each at once: the words read, and the registers at the end.
abbrev pub run_ops : {A : Type 0} → Registers A → List Op → A → List ℕ × A
run_ops registers [] a = ([], a)
run_ops registers (op ∷ ops) a =
    let (words, a') = effect registers op a in
    let (more, a'') = run_ops registers ops a' in (words ++ more, a'')

module _ {D T A : Type 0} (probe : Probe D) (dap : Dap D T) (registers : Registers A)
    (target : IsPipelined probe registers dap.params dap.wait_retries) where
  begun :
      {m m' : Action D T Flow} {p : Progress} {d : D} {req req' rest : List ℕ} {resp : Response}
      {words : List ℕ} {a' : A}
      (c : Delivered probe dap registers target m p d req resp words a' rest)
      → Runs m'
          (machine probe dap d req' resp)
          (go_on c.next)
          (machine probe dap c.driver rest c.reply)
      → Delivered probe dap registers target m' p d req' resp words a' rest
  begun c runs = record {
    next = c.next;
    driver = c.driver;
    reply = c.reply;
    delivered = c.delivered;
    runs = runs;
    ok = c.ok;
    same_count = c.same_count;
    seen = c.seen;
    appends = c.appends;
    account = c.account;
  }

  transfer_one-Delivered :
      (op : Op) (p : Progress) (d : D) (rest : List ℕ) (resp : Response)
      → IsPlain op
      → HasRoom probe dap registers target p d resp (length (effect registers op (target.view d)).0)
      → Delivered probe dap registers target
          (transfer_one probe p)
          p
          d
          (encode op ++ rest)
          resp
          (effect registers op (target.view d)).0
          (effect registers op (target.view d)).1
          rest
  unfolding transfer_one u8
  transfer_one-Delivered (read rv) p d rest resp plain room =
      let c = read_step-Delivered probe dap registers target rv plain p d rest resp room in
      begun c (bind _ (take_req-Runs u8 refl) (if_true _ plain.reads c.runs))
  transfer_one-Delivered (write rv word) p d rest resp plain room =
      let c = write_step-Delivered probe dap registers target rv word plain p d resp rest room in
      begun c (bind _ (take_req-Runs u8 refl) (if_false _ plain.writes c.runs))

  -- The loop and the block behind it, with `n` requests left.
  pub record Completed (n : ℕ) (p : Progress) (d : D) (req : List ℕ) (resp : Response)
      (words : List ℕ) (a' : A) (rest : List ℕ) : Type 0 where
    pub last : Progress
    pub status : ℕ
    pub loop_driver : D
    pub loop_reply : Response
    pub driver : D
    pub reply : Response
    pub loop :
        Runs
          (transfers probe n p)
          (machine probe dap d req resp)
          last
          (machine probe dap loop_driver rest loop_reply)
    pub finished :
        Runs
          (finish probe last)
          (machine probe dap loop_driver rest loop_reply)
          status
          (machine probe dap driver rest reply)
    pub ok : status ≡ ack_ok
    pub counted : last.count ≡ p.count + n
    pub seen : target.view driver ≡ a'
    pub appends : Appends resp (words_le (pending probe dap registers target p d ++ words)) reply

  -- The end of the loop: a pending word is collected, and a last write is checked.
  ended :
      (p : Progress) (d : D) (rest : List ℕ) (resp : Response)
      → p.status ≡ ack_ok
      → HasRoom probe dap registers target p d resp 0
      → Completed 0 p d rest resp [] (target.view d) rest
  unfolding finish transfers
  ended p d rest resp ok room =
      let good : (p.status == ack_ok) ≡ true = rw ok in
      let (rd_ack, word, seen) = target.reads_rdbuff d in
      elim (Bool-cases p.post_read) [
        | inl post ↦
            let (r, put, appends) =
              put_u32_fits (answer probe dap rdbuff_read 0 d).0.word resp
                (omega (arith, rw post at room)) in
            let read_ok : ((answer probe dap rdbuff_read 0 d).0.ack == ack_ok) ≡ true = rw rd_ack in
            record {
              last = p;
              status = (answer probe dap rdbuff_read 0 d).0.ack;
              loop_driver = d;
              loop_reply = resp;
              driver = (answer probe dap rdbuff_read 0 d).1;
              reply = r;
              loop = pure-Runs;
              finished = if_true _ good (
                  if_true _ post (
                    bind _ (xfer-Runs probe dap rdbuff_read 0 d rest resp)
                      (after (if_true _ read_ok (respond-Runs _ put)) pure-Runs)));
              ok = rd_ack;
              counted = omega arith;
              seen = seen;
              appends =
                  rw (append-nil (pending probe dap registers target p d))
                    (collected probe dap registers target p d post word appends);
            }
        | inr none_posted ↦ elim (Bool-cases p.check_write) [
          | inl check ↦ record {
            last = p;
            status = (answer probe dap rdbuff_read 0 d).0.ack;
            loop_driver = d;
            loop_reply = resp;
            driver = (answer probe dap rdbuff_read 0 d).1;
            reply = resp;
            loop = pure-Runs;
            finished = if_true _ good (
                if_false _ none_posted (
                  if_true _ check
                    (bind _ (xfer-Runs probe dap rdbuff_read 0 d rest resp) pure-Runs)));
            ok = rd_ack;
            counted = omega arith;
            seen = seen;
            appends = rw none_posted (append_nothing resp);
          }
          | inr no_check ↦ record {
            last = p;
            status = p.status;
            loop_driver = d;
            loop_reply = resp;
            driver = d;
            reply = resp;
            loop = pure-Runs;
            finished = if_true _ good (if_false _ none_posted (if_false _ no_check pure-Runs));
            ok = ok;
            counted = omega arith;
            seen = refl;
            appends = rw none_posted (append_nothing resp);
          }
        ]
      ]

  -- One request and the rest of the loop.
  module _ {p : Progress} {d : D} {req mid : List ℕ} {resp : Response} {words : List ℕ} {a : A}
      (c : Delivered probe dap registers target
        (transfer_one probe p)
        p
        d
        req
        resp
        words
        a
        mid) where
    regrouped :
        (more : List ℕ)
        → pending probe dap registers target p d ++ (words ++ more)
          ≡ c.delivered ++ (pending probe dap registers target c.next c.driver ++ more)
    regrouped more =
        sym (append_assoc _ words more)
        ∙ ap (λ l. l ++ more) c.account
        ∙ append_assoc c.delivered _ more

    chained :
        {n : ℕ} {rest : List ℕ} (more : List ℕ) {a' : A}
        → Completed n (record c.next { count = c.next.count + 1 }) c.driver mid c.reply more a' rest
        → Completed (suc n) p d req resp (words ++ more) a' rest
    unfolding transfers
    chained more m = record {
      last = m.last;
      status = m.status;
      loop_driver = m.loop_driver;
      loop_reply = m.loop_reply;
      driver = m.driver;
      reply = m.reply;
      loop = bind _ c.runs m.loop;
      finished = m.finished;
      ok = m.ok;
      counted = omega (arith, m.counted, c.same_count);
      seen = m.seen;
      appends = rw (regrouped more, words_le-append c.delivered) (append_trans c.appends m.appends);
    }

    room_after :
        (more : List ℕ)
        → HasRoom probe dap registers target p d resp (length (words ++ more))
        → HasRoom probe dap registers target c.next c.driver c.reply (length more)
    room_after more room = omega (
      arith,
      room,
      ap (λ (l : List ℕ). length l) c.account,
      length-append (pending probe dap registers target p d) words,
      length-append c.delivered (pending probe dap registers target c.next c.driver),
      length-append words more,
      c.appends.grown,
      c.appends.same_capacity,
      length-words_le c.delivered,
    )

  pub completed :
      (ops : List Op) (p : Progress) (d : D) (rest : List ℕ) (resp : Response)
      → All IsPlain ops
      → (ops ≡ [] → p.status ≡ ack_ok)
      → HasRoom probe dap registers target p d resp
          (length (run_ops registers ops (target.view d)).0)
      → Completed
          (length ops)
          p
          d
          (encode_all ops ++ rest)
          resp
          (run_ops registers ops (target.view d)).0
          (run_ops registers ops (target.view d)).1
          rest
  unfolding transfers
  completed [] p d rest resp plain ok room = ended p d rest resp (ok refl) room
  completed (op ∷ ops) p d rest resp (plain, plains) ok room =
      let words = (effect registers op (target.view d)).0 in
      let a = (effect registers op (target.view d)).1 in
      let more = (run_ops registers ops a).0 in
      let c =
        transfer_one-Delivered op p d (encode_all ops ++ rest) resp plain
          (omega (arith, room, length-append words more)) in
      let room_there =
        subst
          (λ b.
            HasRoom probe dap registers target c.next c.driver c.reply
              (length (run_ops registers ops b).0))
          (sym c.seen) (room_after c more room) in
      let there =
        completed ops (record c.next { count = c.next.count + 1 }) c.driver rest c.reply plains
          (λ _. c.ok) room_there in
      rw (append_assoc (encode op) (encode_all ops) rest) (
        chained c more (
          subst
            (λ b.
              Completed (length ops) (record c.next { count = c.next.count + 1 }) c.driver
                (encode_all ops ++ rest) c.reply (run_ops registers ops b).0
                (run_ops registers ops b).1 rest)
            c.seen there))
