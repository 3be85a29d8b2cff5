-- ===== src/Firmware/Engine/Futures.antt =====
-- firmware/src/dap.rs: the futures of transfers with retries and of block transfers.
-- A future is a poll on its state; the three loops around `ready!(inner.poll(..))` are one function,
-- whose arms say what a result of the inner future leads to.
pub mod Laws
pub mod Retry
pub mod Words
pub mod Blocks
pub mod Writes
use rustprobe.Common.{
  ℕ, zero, suc, ◌+◌, ◌-◌, ◌*◌, ◌/◌, ◌%◌, ◌^◌, Bool, true, false, not, ◌&&◌, Option, none, some,
  List, [], ◌∷◌, ◌++◌, ltb, ◌==◌, if◌then◌else◌, length, get_or, drop, bit_and, u32_to_le,
  u32_from_le, write_at,
}
use rustprobe.Dap.Swd.{TransferParams, Transfer, apndp, rdbuff_read, ack_ok, ack_wait}
use rustprobe.Firmware.Engine.{
  Bus, PioSwd, Poll, ready, pending, TransferState, new_state, transfer_poll,
}

-- `continue` with the loop's variables, or `return Poll::Ready(..)`.
pub data Next (O R : Type 0) : Type 0 where
  again : O → Next O R
  finish : O → R → Next O R

-- `loop { let t = ready!(inner.poll(..)); .. }`, of which the first argument bounds the rounds of
-- one poll.
unfoldable pub ready_loop :
    {O X D T R : Type 0}
    → (O → X → D → Poll T × X × D)
    → (O → T → Next O R)
    → ℕ
    → O × X
    → D
    → Poll R × (O × X) × D
ready_loop inner decide zero (o, x) d = (pending, (o, x), d)
ready_loop inner decide (suc n) (o, x) d =
    let (p, x', d') = inner o x d in
    elim p [
      | pending ↦ (pending, (o, x'), d')
      | ready t ↦ elim (decide o t) [
        | finish o' r ↦ (ready r, (o', x'), d')
        | again o' ↦ ready_loop inner decide n (o', x') d'
      ]
    ]

-- The executor: it polls until the future is ready, at most as often as the first argument says, and
-- lets the others run between two polls.
unfoldable pub await :
    {S D R : Type 0} → (D → D) → (S → D → Poll R × S × D) → ℕ → S → D → Option (R × S × D)
await others poll zero s d = none
await others poll (suc f) s d =
    let (p, s', d') = poll s d in
    elim p [ ready r ↦ some (r, s', d') | pending ↦ await others poll f s' (others d') ]

-- `RetryState`: the attempts left, and the transfer's state.
abbrev pub RetryState : Type 0
RetryState = ℕ × TransferState

abbrev pub retry_decide : ℕ → ℕ → Transfer → Next ℕ Transfer
retry_decide wait_retries retry t =
    if t.ack == ack_wait && ltb 0 retry then again (retry - 1) else finish wait_retries t

-- The variables of `ReadBlockFuture`: `next` and the bytes stored so far.
pub record Reading : Type 0 where
  pub next : Option ℕ
  pub out : List ℕ

abbrev pub read_decide : ℕ → Reading → Transfer → Next Reading (ℕ × ℕ)
read_decide count o t =
    let done = elim o.next as (λ _. ℕ) [ none ↦ 0 | some i ↦ i ] in
    if not (t.ack == ack_ok) then finish o (done, t.ack) else elim o.next [
      | none ↦ again (record o { next = some 0 })
      | some i ↦
          let stored = o.out ++ u32_to_le t.word in
          if i + 1 == count
          then finish (record o { out = stored }) (count, ack_ok)
          else again (record { next = some (i + 1); out = stored })
    ]

abbrev pub read_request : ℕ → ℕ → Option ℕ → ℕ
read_request request count none = request
read_request request count (some i) =
    if not (bit_and request apndp == 0) && i + 1 == count then rdbuff_read else request

-- The variable of `WriteBlockFuture` is `next`.
abbrev pub write_decide : ℕ → ℕ → Transfer → Next ℕ (ℕ × ℕ)
write_decide count i t =
    if i == count
    then finish i (count, t.ack)
    else if not (t.ack == ack_ok)
    then finish i (i, t.ack)
    else again (i + 1)

abbrev pub word_at : List ℕ → ℕ → ℕ
word_at bs at =
    u32_from_le (get_or bs at 0) (get_or bs (at + 1) 0) (get_or bs (at + 2) 0)
      (get_or bs (at + 3) 0)

abbrev pub start_reading : ℕ → Reading
start_reading request = record {
  next = (if not (bit_and request apndp == 0) then none else some 0);
  out = [];
}

module _ {H : Type 0} (hw : Bus H) (p : TransferParams) (wait_retries : ℕ) where
  -- `RetryState::poll`
  unfoldable pub retry_poll : ℕ → ℕ → RetryState → PioSwd H → Poll Transfer × RetryState × PioSwd H
  retry_poll request word st drv =
      ready_loop (λ retry. transfer_poll hw request word p) (retry_decide wait_retries) (suc st.0)
        st drv

  -- `ReadBlockFuture::poll`
  unfoldable pub read_poll :
      ℕ → ℕ → Reading × RetryState → PioSwd H → Poll (ℕ × ℕ) × (Reading × RetryState) × PioSwd H
  read_poll request count st drv =
      ready_loop (λ o. retry_poll (read_request request count o.next) 0) (read_decide count)
        (count + 2) st drv

  -- `WriteBlockFuture::poll`
  abbrev pub write_inner :
      ℕ → List ℕ → ℕ → ℕ → RetryState → PioSwd H → Poll Transfer × RetryState × PioSwd H
  write_inner request bs count i =
      if i == count then retry_poll rdbuff_read 0 else retry_poll request (word_at bs (i * 4))

  unfoldable pub write_poll :
      ℕ → List ℕ → ℕ → ℕ × RetryState → PioSwd H → Poll (ℕ × ℕ) × (ℕ × RetryState) × PioSwd H
  write_poll request bs count st drv =
      ready_loop (write_inner request bs count) (write_decide count) (count + 1) st drv
