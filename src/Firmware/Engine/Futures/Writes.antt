-- ===== src/Firmware/Engine/Futures/Writes.antt =====
-- firmware/src/dap.rs, dap-async/src/swd.rs: the future of a block write against the default method.
use mathlib.Core.Path.{subst}
use rustprobe.Common.{
  ℕ, zero, suc, ◌+◌, ◌*◌, ◌/◌, ◌%◌, ◌^◌, ◌≤◌, ◌<◌, ◌≡◌, ◌≢◌, refl, sym, ◌∙◌, inl, inr, true, false,
  List, [], ◌∷◌, ◌++◌, append_assoc, arith, ◌==◌, length, length-append, get_or, u32_from_le,
  Bool-cases,
}
use rustprobe.Dap.Swd.{
  Driver, Transfer, TransferParams, rdbuff_read, ack_ok, transfer_retry, write_words, write_block,
}
use rustprobe.Firmware.Engine.{Bus, PioSwd, TransferState, at_start, new_state}
use rustprobe.Firmware.Engine.Futures.{
  again, finish, write_decide, word_at, write_inner, write_poll,
}
use rustprobe.Firmware.Engine.Futures.Laws.{
  Finishes, Leads, finish-Leads, again-Leads, loop_poll-Finishes, more_rounds,
}
use rustprobe.Firmware.Engine.Futures.Retry.{others_run, IsTransfer, retry_poll-transfer_retry}

get_or-append :
    (front rest : List ℕ) (k n : ℕ)
    → n ≡ length front + k
    → get_or (front ++ rest) n 0 ≡ get_or rest k 0
get_or-append [] rest k n e = let same : n ≡ k = omega arith in rw same
get_or-append (x ∷ front) rest k zero e = absurd (omega arith)
get_or-append (x ∷ front) rest k (suc n) e = get_or-append front rest k n (omega arith)

-- The word behind `i` words.
word_at-append :
    (front : List ℕ) (a b c e : ℕ) (rest : List ℕ) (i : ℕ)
    → length front ≡ i * 4
    → word_at (front ++ (a ∷ b ∷ c ∷ e ∷ rest)) (i * 4) ≡ u32_from_le a b c e
word_at-append front a b c e rest i size =
    let tail : List ℕ = a ∷ b ∷ c ∷ e ∷ rest in
    rw (
      get_or-append front tail 0 (i * 4) (omega arith),
      get_or-append front tail 1 (i * 4 + 1) (omega arith),
      get_or-append front tail 2 (i * 4 + 2) (omega arith),
      get_or-append front tail 3 (i * 4 + 3) (omega arith),
    )

module _ {H : Type 0} (hw : Bus H) (p : TransferParams) (driver : Driver (PioSwd H))
    (transfers : IsTransfer hw p driver) (wait_retries request count : ℕ) (bs : List ℕ) where
  abbrev WriteLeads : ℕ → ℕ → TransferState → PioSwd H → (ℕ × ℕ) × PioSwd H → Type 0
  WriteLeads k i x d ((n, ack), d') =
      (o' : ℕ) × (x' : TransferState) × Leads (others_run hw)
        (write_inner hw p wait_retries request bs count) (write_decide count) (λ o. count + 1) k i
        (wait_retries, x) d (i + n, ack) (o', (wait_retries, x')) d'

  abbrev written : ℕ → PioSwd H → Transfer × PioSwd H
  written word d = transfer_retry driver p wait_retries request word d

  write_failed :
      (left a b c e : ℕ) (rest : List ℕ) (d : PioSwd H)
      → ((written (u32_from_le a b c e) d).0.ack == ack_ok) ≡ false
      → write_words driver p wait_retries request (suc left) (a ∷ b ∷ c ∷ e ∷ rest) d
        ≡ ((0, (written (u32_from_le a b c e) d).0.ack), (written (u32_from_le a b c e) d).1)
  unfolding write_words
  write_failed left a b c e rest d h = rw (h, write_words)

  write_more :
      (left a b c e : ℕ) (rest : List ℕ) (d : PioSwd H)
      → ((written (u32_from_le a b c e) d).0.ack == ack_ok) ≡ true
      → write_words driver p wait_retries request (suc left) (a ∷ b ∷ c ∷ e ∷ rest) d ≡ (
          let ((n, ack), d') =
            write_words driver p wait_retries request left rest
              (written (u32_from_le a b c e) d).1 in
          ((suc n, ack), d'))
  unfolding write_words
  write_more left a b c e rest d h = rw (h, write_words)

  decide_failed :
      (i : ℕ) (t : Transfer)
      → i ≢ count
      → (t.ack == ack_ok) ≡ false
      → write_decide count i t ≡ finish i (i, t.ack)
  decide_failed i t other e = let same : (i == count) ≡ false = ground arith in rw (same, e)

  decide_more :
      (i : ℕ) (t : Transfer)
      → i ≢ count
      → (t.ack == ack_ok) ≡ true
      → write_decide count i t ≡ again (i + 1)
  decide_more i t other e = let same : (i == count) ≡ false = ground arith in rw (same, e)

  decide_checked : (t : Transfer) → write_decide count count t ≡ finish count (count, t.ack)
  decide_checked t = let same : (count == count) ≡ true = ground arith in rw same

  -- The inner future of a word gets ready with the transfer of this word.
  write_inner-Finishes :
      (i word : ℕ) (x : TransferState) (d : PioSwd H)
      → x.stage ≡ at_start
      → i ≢ count
      → word_at bs (i * 4) ≡ word
      → (x' : TransferState) × (x'.stage ≡ at_start)
        × Finishes
            (others_run hw)
            (write_inner hw p wait_retries request bs count i)
            (wait_retries, x)
            d
            (written word d).0
            (wait_retries, x')
            (written word d).1
  write_inner-Finishes i word x d fresh other here =
      let same : (i == count) ≡ false = ground arith in
      rw (same, here)
        (retry_poll-transfer_retry hw p driver transfers wait_retries request word x d fresh)

  check_leads :
      (rest : List ℕ) (x : TransferState) (d : PioSwd H)
      → x.stage ≡ at_start
      → WriteLeads 1 count x d (write_words driver p wait_retries request 0 rest d)
  unfolding write_words
  check_leads rest x d fresh =
      let (x', clean, fin) =
        retry_poll-transfer_retry hw p driver transfers wait_retries rdbuff_read 0 x d fresh in
      let same : (count == count) ≡ true = ground arith in
      let total : count + 0 ≡ count = omega arith in
      let t = (transfer_retry driver p wait_retries rdbuff_read 0 d).0 in
      let d' = (transfer_retry driver p wait_retries rdbuff_read 0 d).1 in
      let fin' : Finishes (others_run hw) (write_inner hw p wait_retries request bs count count)
          (wait_retries, x) d t (wait_retries, x') d' =
        rw same fin in
      (count, x', rw total (finish-Leads _ _ _ _ fin' (decide_checked t) (omega arith)))

  write_leads :
      (left i : ℕ) (front rest : List ℕ) (x : TransferState) (d : PioSwd H)
      → x.stage ≡ at_start
      → i + left ≡ count
      → length front ≡ i * 4
      → left * 4 ≤ length rest
      → bs ≡ front ++ rest
      → WriteLeads (suc left) i x d (write_words driver p wait_retries request left rest d)
  write_leads zero i front rest x d fresh here size enough split =
      let last : i ≡ count = omega arith in rw last (check_leads rest x d fresh)
  write_leads (suc left) i front [] x d fresh here size enough split = absurd (omega arith)
  write_leads (suc left) i front (a ∷ []) x d fresh here size enough split = absurd (omega arith)
  write_leads (suc left) i front (a ∷ b ∷ []) x d fresh here size enough split =
      absurd (omega arith)
  write_leads (suc left) i front (a ∷ b ∷ c ∷ []) x d fresh here size enough split =
      absurd (omega arith)
  write_leads (suc left) i front (a ∷ b ∷ c ∷ e ∷ rest) x d fresh here size enough split =
      let word = u32_from_le a b c e in
      let d1 = (written word d).1 in
      let (x', clean, fin) =
        write_inner-Finishes i word x d fresh (omega arith)
          (rw split (word_at-append front a b c e rest i size)) in
      elim (Bool-cases ((written word d).0.ack == ack_ok)) [
        | inr failed ↦
            subst (WriteLeads (suc (suc left)) i x d)
              (sym (write_failed left a b c e rest d failed))
              (
                i,
                x',
                (let none_more : i + 0 ≡ i = omega arith in
                    rw none_more (
                      more_rounds _ _ _ _
                        (finish-Leads _ _ _ _ fin
                          (decide_failed i (written word d).0 (omega arith) failed) (omega arith))
                        (omega arith))),
              )
        | inl good ↦
            let (o', x'', l) =
              write_leads left (i + 1) (front ++ (a ∷ b ∷ c ∷ e ∷ [])) rest x' d1 clean
                (omega arith) (omega (arith, length-append front (a ∷ b ∷ c ∷ e ∷ [])))
                (omega arith) (split ∙ sym (append_assoc front (a ∷ b ∷ c ∷ e ∷ []) rest)) in
            let n = (write_words driver p wait_retries request left rest d1).0.0 in
            let step : i + 1 + n ≡ i + suc n = omega arith in
            subst (WriteLeads (suc (suc left)) i x d) (sym (write_more left a b c e rest d good)) (
              o',
              x'',
              rw (← step) (
                  again-Leads _ _ _ _ fin (decide_more i (written word d).0 (omega arith) good)
                    (omega arith) l),
            )
      ]

  write_block_lem :
      (d : PioSwd H)
      → 0 < count
      → count < 2 ^ 16
      → length bs ≡ 4 * count
      → write_block driver p wait_retries request bs d
        ≡ write_words driver p wait_retries request count bs d
  unfolding write_block
  write_block_lem d pos small size =
      let words : length bs / 4 % 2 ^ 16 ≡ count = omega arith in
      let some_word : (count == 0) ≡ false = ground arith in rw (write_block, words, some_word)

  -- If every transfer future gets ready, then so does the future of a block write of `count` words, at
  -- least one and fewer than 65536: its number of words, status and driver are those of the default
  -- method over the single transfers.
  pub write_poll-write_block :
      (d : PioSwd H)
      → 0 < count
      → count < 2 ^ 16
      → length bs ≡ 4 * count
      → let ((n, ack), d') = write_block driver p wait_retries request bs d in
        (o' : ℕ) × (x' : TransferState) × Finishes
          (others_run hw)
          (write_poll hw p wait_retries request bs count)
          (0, (wait_retries, new_state))
          d
          (n, ack)
          (o', (wait_retries, x'))
          d'
  unfolding write_poll
  write_poll-write_block d pos small size =
      let (o', x', l) =
        write_leads count 0 [] bs new_state d refl (omega arith) refl (omega arith) refl in
      let n = (write_words driver p wait_retries request count bs d).0.0 in
      let total : 0 + n ≡ n = omega arith in
      rw (write_block_lem d pos small size)
        (o', x', loop_poll-Finishes _ _ _ _ (rw total at l) (omega arith))
