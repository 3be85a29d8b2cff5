-- ===== src/Dap/Framing/Tests.antt =====
-- Runs of the framing, those of the unit tests of dap-async/src/framing.rs among them, and its
-- theorems at concrete requests.
use rustprobe.Common.{ℕ, ◌≤◌, ◌≡◌, refl, List, [], ◌∷◌, length, replicate, leb, if◌then◌else◌}
use rustprobe.Dap.Framing.{
  complete, need_more, unknown, fixed, settle, swj_sequence_end, jtag_configure_end,
  transfer_block_end, transfer_size, entries_end, transfer_end, sequence_size, sequence_end,
  dispatch, request_len,
}
use rustprobe.Dap.Framing.Prefix.{request_len-prefix, request_len_bounds}

run : Unit {0}
unfolding fixed settle swj_sequence_end jtag_configure_end transfer_block_end transfer_size
    entries_end transfer_end sequence_size sequence_end dispatch request_len
run = tt

abbrev block : List ℕ
block = 6 ∷ 0 ∷ 14 ∷ 0 ∷ 0 ∷ replicate 56 0

block_run : request_len block ≡ complete 61
unfolding run
block_run = refl

block_read : request_len (6 ∷ 0 ∷ 200 ∷ 0 ∷ 2 ∷ []) ≡ complete 5
unfolding run
block_read = refl

transfer_match : request_len (5 ∷ 0 ∷ 2 ∷ 2 ∷ 18 ∷ 1 ∷ 2 ∷ 3 ∷ 4 ∷ []) ≡ complete 9
unfolding run
transfer_match = refl

transfer_short : request_len (5 ∷ 0 ∷ 2 ∷ 2 ∷ 18 ∷ 1 ∷ 2 ∷ []) ≡ need_more
unfolding run
transfer_short = refl

vendor_run : request_len (128 ∷ []) ≡ unknown
unfolding run
vendor_run = refl

abbrev start : List ℕ
start = 5 ∷ 0 ∷ 2 ∷ 2 ∷ []

request_len-prefix_example :
    request_len start ≡ (if leb 9 (length start) then complete 9 else need_more)
request_len-prefix_example = request_len-prefix start (18 ∷ 1 ∷ 2 ∷ 3 ∷ 4 ∷ []) 9 transfer_match

request_len_bounds_example : (1 ≤ 61) × (61 ≤ length block)
request_len_bounds_example = request_len_bounds block 61 block_run
