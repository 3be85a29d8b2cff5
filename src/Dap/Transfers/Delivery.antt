-- ===== src/Dap/Transfers/Delivery.antt =====
-- dap-async/src/dap.rs: one request of DAP_Transfer on a target whose AP reads are posted.
-- A step delivers some words to the reply and may leave one posted in the target.
use rustprobe.Common.{
  ℕ, ◌+◌, ◌*◌, ◌/◌, ◌%◌, ◌≤◌, ◌≡◌, refl, sym, ap, ◌∙◌, inl, inr, true, false, some, List, [], ◌∷◌,
  ◌++◌, append-nil, arith, if◌then◌else◌, length, u32_to_le, u32_from_le, IsWord, Bool-cases,
}
use rustprobe.Dap.Io.{Response, u32}
use rustprobe.Dap.Io.Laws.{Appends, capacity}
use rustprobe.Dap.Swd.{apndp, rdbuff_read, ack_ok}
use rustprobe.Dap.Machine.{Probe, Dap, Machine, Action}
use rustprobe.Dap.Machine.Runs.{
  Runs, bind, after, pure-Runs, take_req-Runs, respond-Runs, if_true, if_false, append_trans,
  put_u32_fits,
}
use rustprobe.Dap.Transfers.{
  Progress, Flow, go_on, is_set, collect, read_ap, read_dp, read_step, collect_last, write_step,
}
use rustprobe.Dap.Transfers.Pipeline.{
  read, IsPlainRead, IsPlainWrite, words_le, Registers, effect, IsPipelined, plain_ap,
}
use rustprobe.Dap.Transfers.Steps.{
  proceed_go, proceed_ok, machine, answer, xfer-Runs, stamp_none, collect_none, collect_ap,
  collect_rdbuff, collect_last_posted, collect_last_none,
}

pub append_nothing : (r : Response) → Appends r [] r
append_nothing r = record { grown = omega arith; same_capacity = refl; text = sym (append-nil _) }

pub words_le-append : (a b : List ℕ) → words_le (a ++ b) ≡ words_le a ++ words_le b
words_le-append [] b = refl
words_le-append (w ∷ a) b = ap (λ t. u32_to_le w ++ t) (words_le-append a b)

pub length-words_le : (ws : List ℕ) → length (words_le ws) ≡ 4 * length ws
length-words_le [] = refl
length-words_le (w ∷ ws) = omega (arith, length-words_le ws)

u32_round :
    (w : ℕ)
    → IsWord w
    → u32_from_le (w % 256) (w / 256 % 256) (w / 65536 % 256) (w / 16777216 % 256) ≡ w
u32_round w h = omega arith

module _ {D T A : Type 0} (probe : Probe D) (dap : Dap D T) (registers : Registers A)
    (target : IsPipelined probe registers dap.params dap.wait_retries) where
  -- The word that the target still holds for the reply.
  abbrev pub pending : Progress → D → List ℕ
  pending p d = if p.post_read then target.posted d ∷ [] else []

  -- The step goes on, and the words that it delivers and leaves pending are those that were pending
  -- and those of the request.
  pub record Delivered (m : Action D T Flow) (p : Progress) (d : D) (req : List ℕ) (resp : Response)
      (words : List ℕ) (a' : A) (rest : List ℕ) : Type 0 where
    pub next : Progress
    pub driver : D
    pub reply : Response
    pub delivered : List ℕ
    pub runs :
        Runs m (machine probe dap d req resp) (go_on next) (machine probe dap driver rest reply)
    pub ok : next.status ≡ ack_ok
    pub same_count : next.count ≡ p.count
    pub seen : target.view driver ≡ a'
    pub appends : Appends resp (words_le delivered) reply
    pub account : pending p d ++ words ≡ delivered ++ pending next driver

  -- Nothing is pending any more: the word is in the reply.
  record Settled (m : Action D T Flow) (p : Progress) (d : D) (req : List ℕ) (resp : Response)
      : Type 0 where
    next : Progress
    driver : D
    reply : Response
    runs : Runs m (machine probe dap d req resp) (go_on next) (machine probe dap driver req reply)
    same_count : next.count ≡ p.count
    seen : target.view driver ≡ target.view d
    none_left : next.post_read ≡ false
    appends : Appends resp (words_le (pending p d)) reply

  pub collected :
      (p : Progress) (d : D) {w : ℕ} {resp r : Response}
      → p.post_read ≡ true
      → w ≡ target.posted d
      → Appends resp (u32_to_le w) r
      → Appends resp (words_le (pending p d)) r
  collected p d post word appends = rw (post, ← word) appends

  -- The room for the pending words and `n` more ones.
  abbrev pub HasRoom : Progress → D → Response → ℕ → Type 0
  HasRoom p d resp n = resp.len + 4 * (length (pending p d) + n) ≤ capacity resp

  room_left :
      {m : Action D T Flow} {p : Progress} {d : D} {req : List ℕ} {resp : Response} (n : ℕ)
      (c : Settled m p d req resp)
      → HasRoom p d resp n
      → c.reply.len + 4 * n ≤ capacity c.reply
  room_left {p = p} {d = d} n c room =
      omega (arith, c.appends.grown, c.appends.same_capacity, room, length-words_le (pending p d))

  module _ (rv : ℕ) (plain : IsPlainRead rv) (p : Progress) (d : D) (req : List ℕ)
      (resp : Response) where
    -- The end of `read_step` behind a `collect` that went on.
    ap_tail :
        {s s' : Machine D T} {q : Progress}
        → is_set rv apndp ≡ true
        → Runs (collect probe rv p) s (go_on q) s'
        → q.post_read ≡ true
        → Runs (read_step probe rv p) s (go_on (record q { check_write = false })) s'
    unfolding read_step read_ap
    ap_tail is_ap run post = proceed_go _ run (
        proceed_go _ (if_false _ plain.no_match (if_true _ is_ap (if_true _ post pure-Runs)))
          pure-Runs)

    fresh_ap :
        is_set rv apndp ≡ true
        → p.post_read ≡ false
        → Delivered
            (read_step probe rv p)
            p
            d
            req
            resp
            ((registers.ap_read rv (target.view d)).0 ∷ [])
            (registers.ap_read rv (target.view d)).1
            req
    unfolding read_step read_ap
    fresh_ap is_ap fresh =
        let (ok_ack, word, post, seen) = target.reads_ap rv d is_ap plain.reads in
        record {
          next = record p {
            status = (answer probe dap rv 0 d).0.ack;
            post_read = true;
            check_write = false;
          };
          driver = (answer probe dap rv 0 d).1;
          reply = resp;
          delivered = [];
          runs = proceed_go _ (collect_none probe dap rv p _ fresh) (
              proceed_go _
                (if_false _ plain.no_match (
                  if_true _ is_ap (
                    if_false _ fresh (
                      bind _ (xfer-Runs probe dap rv 0 d req resp) (
                        proceed_ok p _ _ ok_ack
                          (after (stamp_none probe dap rv _ plain.no_stamp) pure-Runs))))))
                pure-Runs);
          ok = ok_ack;
          same_count = refl;
          seen = seen;
          appends = append_nothing resp;
          account = rw (fresh, post);
        }

    next_ap :
        is_set rv apndp ≡ true
        → p.post_read ≡ true
        → resp.len + 4 ≤ capacity resp
        → Delivered
            (read_step probe rv p)
            p
            d
            req
            resp
            ((registers.ap_read rv (target.view d)).0 ∷ [])
            (registers.ap_read rv (target.view d)).1
            req
    next_ap is_ap posted_before room =
        let (ok_ack, word, post, seen) = target.reads_ap rv d is_ap plain.reads in
        let (r, put, appends) = put_u32_fits (answer probe dap rv 0 d).0.word resp room in
        record {
          next = record p {
            status = (answer probe dap rv 0 d).0.ack;
            post_read = true;
            check_write = false;
          };
          driver = (answer probe dap rv 0 d).1;
          reply = r;
          delivered = (answer probe dap rv 0 d).0.word ∷ [];
          runs =
              ap_tail is_ap
                (collect_ap probe dap rv p d req resp r posted_before
                  (plain_ap rv plain.no_match ∙ is_ap) plain.no_stamp ok_ack put)
                refl;
          ok = ok_ack;
          same_count = refl;
          seen = seen;
          appends = appends;
          account = rw (posted_before, post, word);
        }

    dp_read_tail :
        (c : Settled (collect probe rv p) p d req resp)
        → is_set rv apndp ≡ false
        → HasRoom p d resp 1
        → Delivered
            (read_step probe rv p)
            p
            d
            req
            resp
            ((registers.dp_read rv (target.view d)).0 ∷ [])
            (registers.dp_read rv (target.view d)).1
            req
    unfolding read_step read_dp
    dp_read_tail c is_dp room =
        let (ok_ack, word, seen) = target.reads_dp rv c.driver is_dp plain.reads plain.no_rdbuff in
        let (r, put, appends) =
          put_u32_fits (answer probe dap rv 0 c.driver).0.word c.reply
            (omega (arith, room_left 1 c room)) in
        record {
          next = record c.next {
            status = (answer probe dap rv 0 c.driver).0.ack;
            check_write = false;
          };
          driver = (answer probe dap rv 0 c.driver).1;
          reply = r;
          delivered = pending p d ++ (answer probe dap rv 0 c.driver).0.word ∷ [];
          runs = proceed_go _ c.runs (
              proceed_go _
                (if_false _ plain.no_match (
                  if_false _ is_dp (
                    bind _ (xfer-Runs probe dap rv 0 c.driver req c.reply) (
                      proceed_ok c.next _ _ ok_ack (
                        after (stamp_none probe dap rv _ plain.no_stamp)
                          (after (respond-Runs _ put) pure-Runs))))))
                pure-Runs);
          ok = ok_ack;
          same_count = c.same_count;
          seen = seen ∙ ap (λ a. (registers.dp_read rv a).1) c.seen;
          appends = rw (words_le-append (pending p d)) (append_trans c.appends appends);
          account = rw (c.none_left, append-nil, word, c.seen);
        }

    settle_read :
        is_set rv apndp ≡ false → HasRoom p d resp 1 → Settled (collect probe rv p) p d req resp
    settle_read is_dp room = elim (Bool-cases p.post_read) [
      | inl post ↦
          let (ok_ack, word, seen) = target.reads_rdbuff d in
          let (r, put, appends) =
            put_u32_fits (answer probe dap rdbuff_read 0 d).0.word resp
              (omega (arith, rw post at room)) in
          record {
            next = record p {
              post_read = false;
              status = (answer probe dap rdbuff_read 0 d).0.ack;
            };
            driver = (answer probe dap rdbuff_read 0 d).1;
            reply = r;
            runs =
                collect_rdbuff probe dap rv p d req resp r post (plain_ap rv plain.no_match ∙ is_dp)
                  ok_ack put;
            same_count = refl;
            seen = seen;
            none_left = refl;
            appends = collected p d post word appends;
          }
      | inr none_posted ↦ record {
        next = p;
        driver = d;
        reply = resp;
        runs = collect_none probe dap rv p _ none_posted;
        same_count = refl;
        seen = refl;
        none_left = none_posted;
        appends = rw none_posted (append_nothing resp);
      }
    ]

    -- A plain read delivers its word after the pending one, or leaves it pending.
    pub read_step-Delivered :
        HasRoom p d resp 1
        → Delivered
            (read_step probe rv p)
            p
            d
            req
            resp
            (effect registers (read rv) (target.view d)).0
            (effect registers (read rv) (target.view d)).1
            req
    read_step-Delivered room = elim (Bool-cases (is_set rv apndp)) [
      | inr is_dp ↦ rw is_dp (dp_read_tail (settle_read is_dp room) is_dp room)
      | inl is_ap ↦ elim (Bool-cases p.post_read) [
        | inl post ↦ rw is_ap (next_ap is_ap post (omega (arith, rw post at room)))
        | inr fresh ↦ rw is_ap (fresh_ap is_ap fresh)
      ]
    ]

  module _ (rv word : ℕ) (plain : IsPlainWrite rv word) (p : Progress) (d : D)
      (resp : Response) where
    settle_write : (req : List ℕ) → HasRoom p d resp 0 → Settled (collect_last probe p) p d req resp
    settle_write req room = elim (Bool-cases p.post_read) [
      | inl post ↦
          let (ok_ack, word, seen) = target.reads_rdbuff d in
          let (r, put, appends) =
            put_u32_fits (answer probe dap rdbuff_read 0 d).0.word resp
              (omega (arith, rw post at room)) in
          record {
            next = record p {
              post_read = false;
              status = (answer probe dap rdbuff_read 0 d).0.ack;
            };
            driver = (answer probe dap rdbuff_read 0 d).1;
            reply = r;
            runs = collect_last_posted probe dap rv p d req resp r post ok_ack put;
            same_count = refl;
            seen = seen;
            none_left = refl;
            appends = collected p d post word appends;
          }
      | inr none_posted ↦ record {
        next = p;
        driver = d;
        reply = resp;
        runs = collect_last_none probe dap p _ none_posted;
        same_count = refl;
        seen = refl;
        none_left = none_posted;
        appends = rw none_posted (append_nothing resp);
      }
    ]

    -- A plain write delivers the pending word and stores its own.
    pub write_step-Delivered :
        (rest : List ℕ)
        → HasRoom p d resp 0
        → Delivered
            (write_step probe rv p)
            p
            d
            (u32_to_le word ++ rest)
            resp
            []
            (registers.store rv word (target.view d))
            rest
    unfolding write_step u32
    write_step-Delivered rest room =
        let c = settle_write (u32_to_le word ++ rest) room in
        let (ok_ack, seen) = target.writes rv word c.driver plain.writes in
        record {
          next = record c.next {
            status = (answer probe dap rv word c.driver).0.ack;
            check_write = true;
          };
          driver = (answer probe dap rv word c.driver).1;
          reply = c.reply;
          delivered = pending p d;
          runs = proceed_go _ c.runs (
              bind _
                (take_req-Runs u32 (ap (λ (w : ℕ). some (w, rest)) (u32_round word plain.fits)))
                (if_false _ plain.no_mask (
                  bind _ (xfer-Runs probe dap rv word c.driver rest c.reply) (
                    proceed_ok c.next _ _ ok_ack
                      (after (stamp_none probe dap rv _ plain.no_stamp) pure-Runs)))));
          ok = ok_ack;
          same_count = c.same_count;
          seen = seen ∙ ap (registers.store rv word) c.seen;
          appends = c.appends;
          account = rw (c.none_left);
        }
