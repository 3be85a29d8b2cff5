-- ===== src/Dap/Swd/Writes.antt =====
-- dap-async/src/swd.rs: block writes.
use rustprobe.Common.{
  ℕ, zero, suc, ◌*◌, ◌/◌, ◌%◌, ◌^◌, ◌≤◌, ◌<◌, ◌≡◌, refl, sym, ap, ◌∙◌, inl, inr, true, false, List,
  [], ◌∷◌, ◌++◌, append_assoc, append-nil, arith, ◌==◌, length, bit_and, u32_from_le,
}
use rustprobe.Dap.Swd.{
  Driver, TransferParams, rdbuff_read, ack_ok, ack_wait, transfer_retry, write_words, write_block,
}
use rustprobe.Dap.Swd.Posted.{zero-cases}

-- A target that takes writes of `request`: `busy` counts the WAIT answers before the next success,
-- `stored` lists the words written.
pub record IsWritable {D : Type 0} (driver : Driver D) (request : ℕ) : Type 0 where
  pub busy : D → ℕ
  pub stored : D → List ℕ
  pub waits :
      (r w : ℕ) (p : TransferParams) (d : D) (b : ℕ)
      → busy d ≡ suc b
      → let (t, d') = driver.transfer r w p d in
        (t.ack ≡ ack_wait) × (busy d' ≡ b) × (stored d' ≡ stored d)
  pub writes :
      (w : ℕ) (p : TransferParams) (d : D)
      → busy d ≡ 0
      → let (t, d') = driver.transfer (bit_and request 0x0f) w p d in
        (t.ack ≡ ack_ok) × (stored d' ≡ stored d ++ (w ∷ []))
  pub flushes :
      (p : TransferParams) (d : D)
      → busy d ≡ 0
      → let (t, d') = driver.transfer rdbuff_read 0 p d in (t.ack ≡ ack_ok) × (stored d' ≡ stored d)

-- The first `n` little-endian words of a text.
abbrev pub words_of : ℕ → List ℕ → List ℕ
words_of (suc n) (a ∷ b ∷ c ∷ e ∷ rest) = u32_from_le a b c e ∷ words_of n rest
words_of _ bs = []

module _ {D : Type 0} (driver : Driver D) (params : TransferParams) (request : ℕ)
    (target : IsWritable driver request) where
  retry_write :
      (retries w : ℕ) (d : D)
      → target.busy d ≤ retries
      → let (t, d') = transfer_retry driver params retries request w d in
        (t.ack ≡ ack_ok) × (target.stored d' ≡ target.stored d ++ (w ∷ []))
  unfolding transfer_retry
  retry_write zero w d patient = target.writes w params d (omega arith)
  retry_write (suc retries) w d patient = elim (zero-cases (target.busy d)) [
    | inl ready ↦
        let (ok_ack, after) = target.writes w params d ready in
        let done : ((driver.transfer (bit_and request 0x0f) w params d).0.ack == ack_wait) ≡ false =
          rw (ok_ack) in
        rw (done, transfer_retry) (ok_ack, after)
    | inr (b, busy) ↦
        let (waited, less, same) = target.waits (bit_and request 0x0f) w params d b busy in
        let again : ((driver.transfer (bit_and request 0x0f) w params d).0.ack == ack_wait) ≡ true =
          rw (waited) in
        let (ok_ack, after) =
          retry_write retries w (driver.transfer (bit_and request 0x0f) w params d).1
            (omega (arith, less, busy, patient)) in
        rw (again, transfer_retry) (ok_ack, after ∙ ap (λ s. s ++ (w ∷ [])) same)
  ]

  retry_flush :
      (retries : ℕ) (d : D)
      → target.busy d ≤ retries
      → let (t, d') = transfer_retry driver params retries rdbuff_read 0 d in
        (t.ack ≡ ack_ok) × (target.stored d' ≡ target.stored d)
  unfolding transfer_retry
  retry_flush zero d patient = target.flushes params d (omega arith)
  retry_flush (suc retries) d patient = elim (zero-cases (target.busy d)) [
    | inl ready ↦
        let (ok_ack, after) = target.flushes params d ready in
        let done : ((driver.transfer rdbuff_read 0 params d).0.ack == ack_wait) ≡ false =
          rw (ok_ack) in
        rw (done, transfer_retry) (ok_ack, after)
    | inr (b, busy) ↦
        let (waited, less, same) = target.waits rdbuff_read 0 params d b busy in
        let again : ((driver.transfer rdbuff_read 0 params d).0.ack == ack_wait) ≡ true =
          rw (waited) in
        let (ok_ack, after) =
          retry_flush retries (driver.transfer rdbuff_read 0 params d).1
            (omega (arith, less, busy, patient)) in
        rw (again, transfer_retry) (ok_ack, after ∙ same)
  ]

  module _ (wait_retries : ℕ) (patient : (d : D) → target.busy d ≤ wait_retries) where
    write_words_stored :
        (left : ℕ) (bs : List ℕ) (d : D)
        → 4 * left ≤ length bs
        → let (result, d') = write_words driver params wait_retries request left bs d in
          (result ≡ (left, ack_ok)) × (target.stored d' ≡ target.stored d ++ words_of left bs)
    unfolding write_words
    write_words_stored zero bs d h =
        let (ok_ack, after) = retry_flush wait_retries d (patient d) in
        (ap (λ a. (0, a)) ok_ack, after ∙ sym (append-nil (target.stored d)))
    write_words_stored (suc left) [] d h = absurd (omega arith)
    write_words_stored (suc left) (a ∷ []) d h = absurd (omega arith)
    write_words_stored (suc left) (a ∷ b ∷ []) d h = absurd (omega arith)
    write_words_stored (suc left) (a ∷ b ∷ c ∷ []) d h = absurd (omega arith)
    write_words_stored (suc left) (a ∷ b ∷ c ∷ e ∷ rest) d h =
        let w = u32_from_le a b c e in
        let (ok_ack, after) = retry_write wait_retries w d (patient d) in
        let d' = (transfer_retry driver params wait_retries request w d).1 in
        let good : ((transfer_retry driver params wait_retries request w d).0.ack == ack_ok)
            ≡ true =
          rw (ok_ack) in
        let (counted, all) = write_words_stored left rest d' (omega (arith, h)) in
        let joined : target.stored d' ++ words_of left rest
            ≡ target.stored d ++ (w ∷ words_of left rest) =
          ap (λ s. s ++ words_of left rest) after
          ∙ append_assoc (target.stored d) (w ∷ []) (words_of left rest) in
        rw (good, counted) (refl, all ∙ joined)

    -- If the target takes writes of the request and never answers WAIT more often in a row than the
    -- retries allow, then a block write of `count` words, at least one and fewer than 65536, adds
    -- exactly these words to what the target has stored, and returns their number and OK.
    pub write_block-stored :
        (count : ℕ) (bs : List ℕ) (d : D)
        → length bs ≡ 4 * count
        → 0 < count
        → count < 2 ^ 16
        → let (result, d') = write_block driver params wait_retries request bs d in
          (result ≡ (count, ack_ok)) × (target.stored d' ≡ target.stored d ++ words_of count bs)
    unfolding write_block
    write_block-stored count bs d size pos small =
        let whole : length bs / 4 % 2 ^ 16 ≡ count = omega (arith, size) in
        let some_word : (count == 0) ≡ false = ground arith in
        rw (whole, some_word) (write_words_stored count bs d (omega (arith, size)))
