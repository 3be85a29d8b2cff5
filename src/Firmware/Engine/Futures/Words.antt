-- ===== src/Firmware/Engine/Futures/Words.antt =====
-- firmware/src/dap.rs, dap-async/src/swd.rs: the words of a block read, in the future and in the default
-- method.
use mathlib.Core.Path.{subst}
use rustprobe.Common.{
  ℕ, zero, suc, ◌+◌, ◌-◌, ◌<◌, ◌≡◌, ◌≢◌, refl, sym, ◌∙◌, inl, inr, Bool, true, false, not, ◌&&◌,
  some, List, [], ◌++◌, append_assoc, append-nil, arith, ◌==◌, if◌then◌else◌, bit_and, u32_to_le,
  Bool-cases,
}
use rustprobe.Dap.Swd.{
  Driver, Transfer, TransferParams, apndp, rdbuff_read, ack_ok, transfer_retry, read_words,
}
use rustprobe.Firmware.Engine.{Bus, PioSwd, TransferState, at_start}
use rustprobe.Firmware.Engine.Futures.{
  again, finish, retry_poll, Reading, read_decide, read_request,
}
use rustprobe.Firmware.Engine.Futures.Laws.{Finishes, Leads, finish-Leads, again-Leads, more_rounds}
use rustprobe.Firmware.Engine.Futures.Retry.{others_run, IsTransfer, retry_poll-transfer_retry}

module _ {H : Type 0} (hw : Bus H) (p : TransferParams) (driver : Driver (PioSwd H))
    (transfers : IsTransfer hw p driver) (wait_retries request count : ℕ) where
  abbrev pub retried : ℕ → PioSwd H → Transfer × PioSwd H
  retried r d = transfer_retry driver p wait_retries r 0 d

  -- The read loop comes to these bytes, words and status, from `o` on with `k` rounds.
  abbrev pub ReadLeads :
      ℕ → Reading → TransferState → PioSwd H → ℕ → (List ℕ × ℕ × ℕ) × PioSwd H → Type 0
  ReadLeads k o x d i ((stored, n, ack), d') =
      (o' : Reading) × (x' : TransferState) × (o'.out ≡ o.out ++ stored)
      × Leads (others_run hw)
          (λ o. retry_poll hw p wait_retries (read_request request count o.next) 0)
          (read_decide count) (λ o. count + 2) k o (wait_retries, x) d (i + n, ack)
          (o', (wait_retries, x')) d'

  abbrev pub is_ap : Bool
  is_ap = not (bit_and request apndp == 0)

  -- The request of the word with `left` more ones behind it.
  abbrev asked : ℕ → ℕ
  asked left = if is_ap && left == 0 then rdbuff_read else request

  asked_lem : (i left : ℕ) → i + suc left ≡ count → read_request request count (some i) ≡ asked left
  asked_lem i left e = let same : (i + 1 == count) ≡ (left == 0) = ground arith in rw same

  read_words_failed :
      (left : ℕ) (d : PioSwd H)
      → ((retried (asked left) d).0.ack == ack_ok) ≡ false
      → read_words driver p wait_retries request is_ap (suc left) d
        ≡ (([], 0, (retried (asked left) d).0.ack), (retried (asked left) d).1)
  unfolding read_words
  read_words_failed left d e = rw (e, read_words)

  read_words_more :
      (left : ℕ) (d : PioSwd H)
      → ((retried (asked left) d).0.ack == ack_ok) ≡ true
      → read_words driver p wait_retries request is_ap (suc left) d ≡ (
          let ((stored, n, ack), d') =
            read_words driver p wait_retries request is_ap left (retried (asked left) d).1 in
          ((u32_to_le (retried (asked left) d).0.word ++ stored, suc n, ack), d'))
  unfolding read_words
  read_words_more left d e = rw (e, read_words)

  abbrev pub at_word : ℕ → List ℕ → Reading
  at_word i out = record { next = some i; out = out }

  decide_failed :
      (i : ℕ) (out : List ℕ) (t : Transfer)
      → (t.ack == ack_ok) ≡ false
      → read_decide count (at_word i out) t ≡ finish (at_word i out) (i, t.ack)
  decide_failed i out t e = rw e

  decide_last :
      (i : ℕ) (out : List ℕ) (t : Transfer)
      → (t.ack == ack_ok) ≡ true
      → i + 1 ≡ count
      → read_decide count (at_word i out) t
        ≡ finish (at_word i (out ++ u32_to_le t.word)) (count, ack_ok)
  decide_last i out t e here = let same : (i + 1 == count) ≡ true = ground arith in rw (e, same)

  decide_more :
      (i : ℕ) (out : List ℕ) (t : Transfer)
      → (t.ack == ack_ok) ≡ true
      → i + 1 ≢ count
      → read_decide count (at_word i out) t ≡ again (at_word (i + 1) (out ++ u32_to_le t.word))
  decide_more i out t e here = let same : (i + 1 == count) ≡ false = ground arith in rw (e, same)

  read_request-Finishes :
      (left i : ℕ) (x : TransferState) (d : PioSwd H)
      → x.stage ≡ at_start
      → i + suc left ≡ count
      → (x' : TransferState) × (x'.stage ≡ at_start)
        × Finishes
            (others_run hw)
            (retry_poll hw p wait_retries (read_request request count (some i)) 0)
            (wait_retries, x)
            d
            (retried (asked left) d).0
            (wait_retries, x')
            (retried (asked left) d).1
  read_request-Finishes left i x d fresh here =
      rw (asked_lem i left here)
        (retry_poll-transfer_retry hw p driver transfers wait_retries (asked left) 0 x d fresh)

  AskedFinishes : ℕ → ℕ → TransferState → PioSwd H → TransferState → Type 0
  AskedFinishes left i x d x' =
      Finishes (others_run hw)
        (retry_poll hw p wait_retries (read_request request count (some i)) 0) (wait_retries, x) d
        (retried (asked left) d).0 (wait_retries, x') (retried (asked left) d).1

  failed_leads :
      (left i : ℕ) (out : List ℕ) (x : TransferState) (d : PioSwd H) (x' : TransferState)
      → i + suc left ≡ count
      → ((retried (asked left) d).0.ack == ack_ok) ≡ false
      → AskedFinishes left i x d x'
      → ReadLeads
          (suc left)
          (at_word i out)
          x
          d
          i
          (read_words driver p wait_retries request is_ap (suc left) d)
  unfolding AskedFinishes
  failed_leads left i out x d x' here failed fin =
      subst (ReadLeads (suc left) (at_word i out) x d i) (sym (read_words_failed left d failed)) (
        at_word i out,
        x',
        sym (append-nil out),
        (let none_more : i + 0 ≡ i = omega arith in
            rw none_more (
              more_rounds _ _ _ _
                (finish-Leads _ _ _ _ fin (decide_failed i out _ failed) (omega arith))
                (omega arith))),
      )

  -- The last word.
  last_leads :
      (i : ℕ) (out : List ℕ) (x : TransferState) (d : PioSwd H) (x' : TransferState)
      → i + 1 ≡ count
      → ((retried (asked 0) d).0.ack == ack_ok) ≡ true
      → AskedFinishes 0 i x d x'
      → ReadLeads 1 (at_word i out) x d i (read_words driver p wait_retries request is_ap 1 d)
  unfolding AskedFinishes read_words
  last_leads i out x d x' here good fin =
      subst (ReadLeads 1 (at_word i out) x d i) (sym (read_words_more 0 d good)) (
        at_word i (out ++ u32_to_le (retried (asked 0) d).0.word),
        x',
        refl,
        rw here (finish-Leads _ _ _ _ fin (decide_last i out _ good here) (omega arith)),
      )

  -- A word with more ones behind it.
  more_leads :
      (left i : ℕ) (out : List ℕ) (x : TransferState) (d : PioSwd H) (x' : TransferState)
      → i + suc (suc left) ≡ count
      → ((retried (asked (suc left)) d).0.ack == ack_ok) ≡ true
      → AskedFinishes (suc left) i x d x'
      → ReadLeads
          (suc left)
          (at_word (i + 1) (out ++ u32_to_le (retried (asked (suc left)) d).0.word))
          x'
          (retried (asked (suc left)) d).1
          (i + 1)
          (read_words driver p wait_retries request is_ap
            (suc left)
            (retried (asked (suc left)) d).1)
      → ReadLeads
          (suc (suc left))
          (at_word i out)
          x
          d
          i
          (read_words driver p wait_retries request is_ap (suc (suc left)) d)
  unfolding AskedFinishes
  more_leads left i out x d x' here good fin (o', x'', text, l) =
      let w = u32_to_le (retried (asked (suc left)) d).0.word in
      let d' = (retried (asked (suc left)) d).1 in
      let n = (read_words driver p wait_retries request is_ap (suc left) d').0.1 in
      let step : i + 1 + n ≡ i + suc n = omega arith in
      subst (ReadLeads (suc (suc left)) (at_word i out) x d i)
        (sym (read_words_more (suc left) d good))
        (
          o',
          x'',
          text ∙ append_assoc out w _,
          rw (← step)
              (again-Leads _ _ _ _ fin (decide_more i out _ good (omega arith)) (omega arith) l),
        )

  read_words_leads :
      (left i : ℕ) (out : List ℕ) (x : TransferState) (d : PioSwd H)
      → x.stage ≡ at_start
      → i + suc left ≡ count
      → ReadLeads
          (suc left)
          (at_word i out)
          x
          d
          i
          (read_words driver p wait_retries request is_ap (suc left) d)
  unfolding AskedFinishes
  read_words_leads zero i out x d fresh here =
      let (x', clean, fin) = read_request-Finishes 0 i x d fresh here in
      elim (Bool-cases ((retried (asked 0) d).0.ack == ack_ok)) [
        | inr failed ↦ failed_leads 0 i out x d x' here failed fin
        | inl good ↦ last_leads i out x d x' here good fin
      ]
  read_words_leads (suc left) i out x d fresh here =
      let (x', clean, fin) = read_request-Finishes (suc left) i x d fresh here in
      elim (Bool-cases ((retried (asked (suc left)) d).0.ack == ack_ok)) [
        | inr failed ↦ failed_leads (suc left) i out x d x' here failed fin
        | inl good ↦
            more_leads left i out x d x' here good fin
              (read_words_leads left (i + 1) _ x' _ clean (omega arith))
      ]

  pub all_words_leads :
      (x : TransferState) (d : PioSwd H)
      → x.stage ≡ at_start
      → 0 < count
      → ReadLeads count
          (at_word 0 [])
          x
          d
          0
          (read_words driver p wait_retries request is_ap count d)
  all_words_leads x d fresh pos =
      let e : suc (count - 1) ≡ count = omega arith in
      subst
        (λ (c : ℕ).
          ReadLeads c (at_word 0 []) x d 0 (read_words driver p wait_retries request is_ap c d))
        e (read_words_leads (count - 1) 0 [] x d fresh (omega arith))
