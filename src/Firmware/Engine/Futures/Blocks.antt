-- ===== src/Firmware/Engine/Futures/Blocks.antt =====
-- firmware/src/dap.rs, dap-async/src/swd.rs: the futures of block transfers against the default methods.
use mathlib.Core.Path.{subst}
use rustprobe.Common.{
  ℕ, suc, ◌+◌, ◌*◌, ◌/◌, ◌%◌, ◌^◌, ◌≤◌, ◌<◌, ◌≡◌, refl, sym, ap, ◌∙◌, inl, inr, Bool, true, false,
  not, none, List, [], ◌++◌, arith, ◌==◌, if◌then◌else◌, Bool-cases,
}
use rustprobe.Dap.Swd.{Driver, Transfer, TransferParams, ack_ok, read_words, read_block}
use rustprobe.Firmware.Engine.{Bus, PioSwd, TransferState, at_start, new_state}
use rustprobe.Firmware.Engine.Futures.{
  again, finish, retry_poll, Reading, read_decide, read_request, read_poll, start_reading,
}
use rustprobe.Firmware.Engine.Futures.Laws.{
  Finishes, Leads, finish-Leads, again-Leads, loop_poll-Finishes, more_rounds,
}
use rustprobe.Firmware.Engine.Futures.Retry.{others_run, IsTransfer, retry_poll-transfer_retry}
use rustprobe.Firmware.Engine.Futures.Words

module _ {H : Type 0} (hw : Bus H) (p : TransferParams) (driver : Driver (PioSwd H))
    (transfers : IsTransfer hw p driver) (wait_retries request count : ℕ) where
  abbrev is_ap : Bool
  is_ap = Words.is_ap hw p driver transfers wait_retries request count

  abbrev retried : ℕ → PioSwd H → Transfer × PioSwd H
  retried = Words.retried hw p driver transfers wait_retries request count

  abbrev at_word : ℕ → List ℕ → Reading
  at_word = Words.at_word hw p driver transfers wait_retries request count

  abbrev ReadLeads :
      ℕ → Reading → TransferState → PioSwd H → ℕ → (List ℕ × ℕ × ℕ) × PioSwd H → Type 0
  ReadLeads = Words.ReadLeads hw p driver transfers wait_retries request count

  abbrev posting : Reading
  posting = record { next = none; out = [] }

  decide_posted :
      (t : Transfer) → (t.ack == ack_ok) ≡ true → read_decide count posting t ≡ again (at_word 0 [])
  decide_posted t e = rw e

  decide_not_posted :
      (t : Transfer)
      → (t.ack == ack_ok) ≡ false
      → read_decide count posting t ≡ finish posting (0, t.ack)
  decide_not_posted t e = rw e

  -- The block behind the guard for an empty one.
  abbrev block_result : PioSwd H → (List ℕ × ℕ × ℕ) × PioSwd H
  block_result d =
      let (t, d') = retried request d in
      if is_ap
      then (if not (t.ack == ack_ok)
          then (([], 0, t.ack), d')
          else read_words driver p wait_retries request true count d')
      else read_words driver p wait_retries request false count d

  posting_leads :
      (x : TransferState) (d : PioSwd H)
      → x.stage ≡ at_start
      → 0 < count
      → is_ap ≡ true
      → ReadLeads (suc count) posting x d 0 (block_result d)
  posting_leads x d fresh pos ap_read =
      let (x', clean, fin) =
        retry_poll-transfer_retry hw p driver transfers wait_retries request 0 x d fresh in
      elim (Bool-cases ((retried request d).0.ack == ack_ok)) [
        | inr failed ↦
            rw (ap_read, failed)
              (
                posting,
                x',
                refl,
                more_rounds _ _ _ _
                    (finish-Leads _ _ _ _ fin (decide_not_posted (retried request d).0 failed)
                      (omega arith))
                    (omega arith),
              )
        | inl good ↦
            let (o', x'', text, l) =
              subst
                (λ b.
                  ReadLeads count (at_word 0 []) x' (retried request d).1 0
                    (read_words driver p wait_retries request b count (retried request d).1))
                ap_read
                (Words.all_words_leads hw p driver transfers wait_retries request count x'
                  (retried request d).1 clean pos) in
            rw (ap_read, good)
              (
                o',
                x'',
                text,
                again-Leads _ _ _ _ fin (decide_posted (retried request d).0 good) (omega arith) l,
              )
      ]

  read_block_lem :
      (d : PioSwd H)
      → 0 < count
      → count < 2 ^ 16
      → read_block driver p wait_retries request (4 * count) d ≡ block_result d
  unfolding read_block
  read_block_lem d pos small =
      let size : 4 * count / 4 % 2 ^ 16 ≡ count = omega arith in
      let some_word : (count == 0) ≡ false = ground arith in rw (read_block, size, some_word)

  abbrev ReadDone : Reading → PioSwd H → (List ℕ × ℕ × ℕ) × PioSwd H → Type 0
  ReadDone o d ((stored, n, ack), d') =
      (o' : Reading) × (x' : TransferState) × (o'.out ≡ stored)
      × Finishes (others_run hw) (read_poll hw p wait_retries request count)
          (o, (wait_retries, new_state)) d (n, ack) (o', (wait_retries, x')) d'

  read_done :
      (k : ℕ) (o : Reading) (d : PioSwd H) (res : (List ℕ × ℕ × ℕ) × PioSwd H)
      → o.out ≡ []
      → k ≤ count + 2
      → ReadLeads k o new_state d 0 res
      → ReadDone o d res
  unfolding read_poll
  read_done k o d ((stored, n, ack), d') none_yet enough (o', x', text, l) =
      let total : 0 + n ≡ n = omega arith in
      let l' =
        subst
          (λ (m : ℕ).
            Leads (others_run hw)
              (λ o. retry_poll hw p wait_retries (read_request request count o.next) 0)
              (read_decide count) (λ o. count + 2) k o (wait_retries, new_state) d (m, ack)
              (o', (wait_retries, x')) d')
          total l in
      (o', x', text ∙ ap (λ bs. bs ++ stored) none_yet, loop_poll-Finishes _ _ _ _ l' enough)

  not_ap_leads :
      (d : PioSwd H)
      → 0 < count
      → is_ap ≡ false
      → ReadLeads count (at_word 0 []) new_state d 0 (block_result d)
  not_ap_leads d pos dp_read = rw dp_read (
      subst
        (λ b.
          ReadLeads count (at_word 0 []) new_state d 0
            (read_words driver p wait_retries request b count d))
        dp_read
        (Words.all_words_leads hw p driver transfers wait_retries request count new_state d refl
          pos))

  -- If every transfer future gets ready, then so does the future of a block read of `count` words, at
  -- least one and fewer than 65536: its bytes, number of words, status and driver are those of the
  -- default method over the single transfers.
  pub read_poll-read_block :
      (d : PioSwd H)
      → 0 < count
      → count < 2 ^ 16
      → let ((stored, n, ack), d') = read_block driver p wait_retries request (4 * count) d in
        (o' : Reading) × (x' : TransferState) × (o'.out ≡ stored)
        × Finishes
            (others_run hw)
            (read_poll hw p wait_retries request count)
            (start_reading request, (wait_retries, new_state))
            d
            (n, ack)
            (o', (wait_retries, x'))
            d'
  read_poll-read_block d pos small = rw (read_block_lem d pos small) (elim (Bool-cases is_ap) [
    | inl ap_read ↦
        let first : start_reading request ≡ posting = rw ap_read in
        subst (λ o. ReadDone o d (block_result d)) (sym first)
          (read_done (suc count) posting d (block_result d) refl (omega arith)
            (posting_leads new_state d refl pos ap_read))
    | inr dp_read ↦
        let first : start_reading request ≡ at_word 0 [] = rw dp_read in
        subst (λ o. ReadDone o d (block_result d)) (sym first)
          (read_done count (at_word 0 []) d (block_result d) refl (omega arith)
            (not_ap_leads d pos dp_read))
  ])
