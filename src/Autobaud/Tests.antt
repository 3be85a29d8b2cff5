-- ===== src/Autobaud/Tests.antt =====
-- The counting of pulse widths at a table with one width.
use rustprobe.Common.{
  ℕ, ◌+◌, ◌%◌, ◌^◌, ◌<◌, ◌≡◌, ◌≢◌, ◌↔◌, refl, true, none, some, arith, replicate, length-replicate,
  set,
}
use rustprobe.Autobaud.{
  Entry, Table, empty, hash_tbl_size, hash, probe, insert, get_count, raw_to_cycles,
}
use rustprobe.Autobaud.Probing.{stops}
use rustprobe.Autobaud.Counts.{insert_iff, get_count-insert}

abbrev blank : Table
blank = replicate hash_tbl_size empty

abbrev once : Table
once = set blank (hash 2170) (record { key = 2170; count = 1 })

-- A pulse of 2170 cycles, a bit at 115200 baud and 250 MHz.
cycles_run : raw_to_cycles 0xffff_fbc2 ≡ 2170
unfolding raw_to_cycles
cycles_run = refl

counted_once : insert 2170 blank ≡ some once
unfolding insert probe hash
counted_once = refl

insert_iff_example :
    (insert 2170 blank ≢ none) ↔ ((i : ℕ) × (i < hash_tbl_size) × (stops 2170 blank i ≡ true))
insert_iff_example = insert_iff 2170 blank

get_count-insert_example :
    (n : ℕ) × (get_count 2170 blank ≡ some n) × (get_count 2170 once ≡ some ((n + 1) % 2 ^ 32))
get_count-insert_example =
    get_count-insert 2170 blank (λ e. omega arith)
      (length-replicate {A = Entry} hash_tbl_size empty) counted_once
