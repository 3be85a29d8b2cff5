-- ===== src/Autobaud.antt =====
-- autobaud-estimator/src/lib.rs: the estimation of a baud rate from pulse widths.
-- `u32` arithmetic wraps, as in a release build. `F` and its operations stand for `f32` and libm. The probing of the table
-- has no bound in the source; here it visits every slot once, and `none` says that it found neither
-- the key nor an empty slot, where the source goes round for ever.
pub mod Probing
pub mod Counts
mod Tests
use rustprobe.Common.{
  ℕ, zero, suc, ◌+◌, ◌-◌, ◌*◌, ◌/◌, ◌%◌, ◌^◌, Bool, true, false, not, ◌||◌, Option, none, some,
  List, [], ◌∷◌, ltb, ◌==◌, if◌then◌else◌, get_or, set, replicate, bit_xor,
}

abbrev pub hash_tbl_size : ℕ
hash_tbl_size = 500

unfoldable pub raw_to_cycles : ℕ → ℕ
raw_to_cycles raw = (2 ^ 32 - 1 - raw) * 2 % 2 ^ 32

pub record Entry : Type 0 where
  pub key : ℕ
  pub count : ℕ

-- `Entry::default()`
abbrev pub empty : Entry
empty = record { key = 0; count = 0 }

abbrev pub Table : Type 0
Table = List Entry

abbrev pub slot : Table → ℕ → Entry
slot t idx = get_or t idx empty

unfoldable pub hash : ℕ → ℕ
hash x =
    let y = bit_xor (x / 2 ^ 16) x * 0x45d9f3b % 2 ^ 32 in
    let z = bit_xor (y / 2 ^ 16) y * 0x45d9f3b % 2 ^ 32 in bit_xor (z / 2 ^ 16) z % hash_tbl_size

-- The loop of `insert` and `get_count`, from `idx` on: the slot at which it stops.
unfoldable pub probe : ℕ → ℕ → ℕ → Table → Option ℕ
probe key zero idx t = none
probe key (suc fuel) idx t = elim ((slot t idx).key == 0 || (slot t idx).key == key) [
  | true ↦ some idx
  | false ↦ probe key fuel ((idx + 1) % hash_tbl_size) t
]

-- The entry that `insert` leaves in the slot at which its loop stops.
abbrev pub counted : ℕ → Entry → Entry
counted key e =
    if e.key == 0
    then record { key = key; count = 1 }
    else record e { count = (e.count + 1) % 2 ^ 32 }

unfoldable pub insert : ℕ → Table → Option Table
insert key t = elim (probe key hash_tbl_size (hash key) t) [
  | none ↦ none
  | some idx ↦ some (set t idx (counted key (slot t idx)))
]

-- What `get_count` returns for the slot at which its loop stops.
abbrev pub count_of : Entry → ℕ
count_of e = if e.key == 0 then 0 else e.count

unfoldable pub get_count : ℕ → Table → Option ℕ
get_count key t = elim (probe key hash_tbl_size (hash key) t) [
  | none ↦ none
  | some idx ↦ some (count_of (slot t idx))
]

-- What the estimator uses of `f32` and libm. `literal n` is the literal for `n` thousandths, and
-- `to_u32` is `as u32`.
pub record Float (F : Type 0) : Type 0 where
  pub of_u32 : ℕ → F
  pub literal : ℕ → F
  pub to_u32 : F → ℕ
  pub sub : F → F → F
  pub mul : F → F → F
  pub div : F → F → F
  pub neg : F → F
  pub expf : F → F
  pub roundf : F → F
  pub lt : F → F → Bool

pub record Estimate (F : Type 0) : Type 0 where
  pub rate : ℕ
  pub validity : F

pub record BaudEstimator (F : Type 0) : Type 0 where
  pub clock_hz : ℕ
  pub table : Table
  pub baud : F
  pub min_cycles : ℕ
  pub max_cycles : ℕ
  pub total : ℕ
  pub bit_time_sum : ℕ
  pub bit_time_count : ℕ
  pub outlier_count : ℕ

module _ {F : Type 0} (f : Float F) where
  -- `fminf`
  unfoldable pub fmin : F → F → F
  fmin a b = if f.lt a b then a else b

  -- `BaudEstimator::new`
  unfoldable pub new : ℕ → BaudEstimator F
  new clock_hz = record {
    clock_hz = clock_hz;
    table = replicate hash_tbl_size empty;
    baud = f.of_u32 0;
    min_cycles = 2 ^ 32 - 1;
    max_cycles = 0;
    total = 0;
    bit_time_sum = 0;
    bit_time_count = 0;
    outlier_count = 0;
  }

  unfoldable pub reset : BaudEstimator F → BaudEstimator F
  unfolding new
  reset s = new s.clock_hz

  unfoldable pub baud_changed : F → F → Bool
  baud_changed baud new_baud =
      let hi = f.to_u32 (f.mul baud (f.literal 1005)) in
      let lo = f.to_u32 (f.mul baud (f.literal 995)) in
      let now = f.to_u32 new_baud in ltb hi now || ltb now lo

  -- `push`, from the test on the changed rate on.
  unfoldable pub publish : BaudEstimator F → Option (Estimate F) × BaudEstimator F
  unfolding baud_changed fmin
  publish s =
      let avg_bit_time = f.div (f.of_u32 s.bit_time_sum) (f.of_u32 s.bit_time_count) in
      let new_baud = f.div (f.of_u32 s.clock_hz) avg_bit_time in
      let one = f.of_u32 1 in
      let completeness = f.sub one (f.expf (f.div (f.neg (f.of_u32 s.total)) (f.of_u32 40))) in
      let noise_ratio = f.div (f.of_u32 s.outlier_count) (f.of_u32 s.bit_time_count) in
      let consistency = f.sub one (fmin (f.mul noise_ratio (f.of_u32 2)) one) in
      let validity = f.mul completeness consistency in
      if not (baud_changed s.baud new_baud)
      then (none, s)
      else if f.lt (f.literal 600) validity
      then (
        some (record { rate = f.to_u32 (f.roundf new_baud); validity = validity }),
        record s { baud = new_baud },
      )
      else (none, s)

  -- `push`, for a pulse that is a one-bit period.
  unfoldable pub one_bit : ℕ → BaudEstimator F → BaudEstimator F
  one_bit cycles s = record s {
    bit_time_sum = (s.bit_time_sum + cycles) % 2 ^ 32;
    bit_time_count = (s.bit_time_count + 1) % 2 ^ 32;
    outlier_count =
        if ltb cycles (s.max_cycles / 9) then (s.outlier_count + 1) % 2 ^ 32 else s.outlier_count;
  }

  -- `push`, past the counting of the sample, for the count `seen` of its width.
  unfoldable pub judge : ℕ → ℕ → BaudEstimator F → Option (Estimate F) × BaudEstimator F
  unfolding publish one_bit
  judge cycles seen s =
      if f.lt (f.div (f.of_u32 seen) (f.of_u32 s.total)) (f.literal 50)
      then (none, s)
      else if ltb cycles s.min_cycles
      then (
        none,
        record s { min_cycles = cycles; bit_time_sum = 0; bit_time_count = 0; outlier_count = 0 },
      )
      else if f.lt (f.of_u32 (cycles - s.min_cycles))
          (f.mul (f.of_u32 s.min_cycles) (f.literal 100))
      then publish (one_bit cycles s)
      else (none, s)

  -- The estimator with a sample counted.
  unfoldable pub sampled : ℕ → Table → BaudEstimator F → BaudEstimator F
  sampled cycles t s = record s {
    table = t;
    total = (s.total + 1) % 2 ^ 32;
    max_cycles = if ltb s.max_cycles cycles then cycles else s.max_cycles;
  }

  -- `push`; `none` where the probing does not end.
  unfoldable pub push : ℕ → BaudEstimator F → Option (Option (Estimate F) × BaudEstimator F)
  unfolding raw_to_cycles insert get_count judge sampled
  push raw s =
      let cycles = raw_to_cycles raw in
      elim (insert cycles s.table) [
        | none ↦ none
        | some t ↦ elim (get_count cycles t) [
          | none ↦ none
          | some seen ↦ some (judge cycles seen (sampled cycles t s))
        ]
      ]

  -- `push_batch`, after the publication `last`.
  unfoldable pub push_all :
      Option (Estimate F)
      → List ℕ
      → BaudEstimator F
      → Option (Option (Estimate F) × BaudEstimator F)
  unfolding push
  push_all last [] s = some (last, s)
  push_all last (raw ∷ raws) s = elim (push raw s) [
    | none ↦ none
    | some (none, s') ↦ push_all last raws s'
    | some (some est, s') ↦ push_all (some est) raws s'
  ]

  unfoldable pub push_batch :
      List ℕ → BaudEstimator F → Option (Option (Estimate F) × BaudEstimator F)
  unfolding push_all
  push_batch raws s = push_all none raws s
