-- ===== src/Dap/Framing/Settles.antt =====
-- dap-async/src/framing.rs: the arms of `request_len` that compute a length, on more and more bytes.
use rustprobe.Common.{
  ℕ, zero, suc, ◌+◌, ◌*◌, ◌≤◌, ◌<◌, ◌≡◌, refl, sym, ◌∙◌, inl, inr, Bool, false, Option, none, some,
  List, [], ◌∷◌, ◌++◌, arith, ltb, if◌then◌else◌, length, get_elem?, get_or, length-append,
  Option-cases, Bool-cases, div_ceil_8, ltb-false, ◌==◌, bit_and, u16_from_le,
}
use rustprobe.Dap.Framing.{
  swj_sequence_end, jtag_configure_end, transfer_block_end, entries_end, transfer_end, sequence_end,
  transfer_size, sequence_size,
}

get_elem?-append {ℓ} :
    {A : Type ℓ} (xs ys : List A) (i : ℕ) {v : A}
    → get_elem? xs i ≡ some v
    → get_elem? (xs ++ ys) i ≡ some v
get_elem?-append [] ys i h = cc
get_elem?-append (x ∷ xs) ys zero h = h
get_elem?-append (x ∷ xs) ys (suc i) h = get_elem?-append xs ys i h

get_or-append {ℓ} :
    {A : Type ℓ} (xs ys : List A) (i : ℕ) (d : A)
    → i < length xs
    → get_or (xs ++ ys) i d ≡ get_or xs i d
get_or-append [] ys i d h = absurd (omega arith)
get_or-append (x ∷ xs) ys zero d h = refl
get_or-append (x ∷ xs) ys (suc i) d h = get_or-append xs ys i d (omega arith)

get_elem?-prefix {ℓ} :
    {A : Type ℓ} (xs ys : List A) (i : ℕ) → i < length xs → get_elem? (xs ++ ys) i ≡ get_elem? xs i
get_elem?-prefix [] ys i h = absurd (omega arith)
get_elem?-prefix (x ∷ xs) ys zero h = refl
get_elem?-prefix (x ∷ xs) ys (suc i) h = get_elem?-prefix xs ys i (omega arith)

-- A computed length is not changed by more bytes, and is known once so many bytes are there.
pub record Settles (e : List ℕ → Option ℕ) : Type 0 where
  pub positive : (buf : List ℕ) (n : ℕ) → e buf ≡ some n → 1 ≤ n
  pub grows : (buf more : List ℕ) (n : ℕ) → e buf ≡ some n → e (buf ++ more) ≡ some n
  pub known :
      (buf more : List ℕ) (n : ℕ) → e (buf ++ more) ≡ some n → n ≤ length buf → e buf ≡ some n

-- The loops over transfers and sequences: `size` gives the bytes of one entry, at least one.
module _ (size : ℕ → ℕ) (step : (v : ℕ) → 1 ≤ size v) where
  entries_end-le :
      (count at : ℕ) (buf : List ℕ) (n : ℕ) → entries_end size count at buf ≡ some n → at ≤ n
  unfolding entries_end
  entries_end-le zero at buf n h = ground arith
  entries_end-le (suc count) at buf n h = elim (Option-cases (get_elem? buf at)) [
    | inl z ↦ cc (rw (z, entries_end) at h)
    | inr (v, z) ↦
        omega (arith, entries_end-le count (at + size v) buf n (rw (z, entries_end) at h))
  ]

  entries_grow :
      (count at : ℕ) (buf more : List ℕ) (n : ℕ)
      → entries_end size count at buf ≡ some n
      → entries_end size count at (buf ++ more) ≡ some n
  unfolding entries_end
  entries_grow zero at buf more n h = h
  entries_grow (suc count) at buf more n h = elim (Option-cases (get_elem? buf at)) [
    | inl z ↦ cc (rw (z, entries_end) at h)
    | inr (v, z) ↦
        rw (get_elem?-append buf more at z, entries_end)
          (entries_grow count (at + size v) buf more n (rw (z, entries_end) at h))
  ]

  entries_known :
      (count at : ℕ) (buf more : List ℕ) (n : ℕ)
      → entries_end size count at (buf ++ more) ≡ some n
      → n ≤ length buf
      → entries_end size count at buf ≡ some n
  unfolding entries_end
  entries_known zero at buf more n h le = h
  entries_known (suc count) at buf more n h le = elim (Option-cases (get_elem? (buf ++ more) at)) [
    | inl z ↦ cc (rw (z, entries_end) at h)
    | inr (v, z) ↦
        let h' = rw (z, entries_end) at h in
        let below : at < length buf =
          omega (arith, entries_end-le count (at + size v) (buf ++ more) n h', step v) in
        rw (sym (get_elem?-prefix buf more at below) ∙ z, entries_end)
          (entries_known count (at + size v) buf more n h' le)
  ]

-- An arm that reads the byte at `i` first.
byte-Settles :
    (i : ℕ) (g : ℕ → List ℕ → Option ℕ)
    → ((v : ℕ) → Settles (g v))
    → ((v n : ℕ) (buf : List ℕ) → g v buf ≡ some n → i < n)
    → Settles (λ buf. elim (get_elem? buf i) [ none ↦ none | some v ↦ g v buf ])
byte-Settles i g next beyond = record {
  positive = λ buf n h. elim (Option-cases (get_elem? buf i)) [
    | inl z ↦ cc (rw z at h)
    | inr (v, z) ↦ (next v).positive buf n (rw z at h)
  ];
  grows = λ buf more n h. elim (Option-cases (get_elem? buf i)) [
    | inl z ↦ cc (rw z at h)
    | inr (v, z) ↦ rw (get_elem?-append buf more i z) ((next v).grows buf more n (rw z at h))
  ];
  known = λ buf more n h le. elim (Option-cases (get_elem? (buf ++ more) i)) [
    | inl z ↦ cc (rw z at h)
    | inr (v, z) ↦
        let h' = rw z at h in
        let below : i < length buf = omega (arith, beyond v n (buf ++ more) h') in
        rw (sym (get_elem?-prefix buf more i below) ∙ z) ((next v).known buf more n h' le)
  ];
}

const-Settles : (k : ℕ) → 1 ≤ k → Settles (λ buf. some k)
const-Settles k pos = record {
  positive = λ buf n h. ground arith;
  grows = λ buf more n h. h;
  known = λ buf more n h le. h;
}

entries-Settles :
    (size : ℕ → ℕ) (step : (v : ℕ) → 1 ≤ size v) (count at : ℕ)
    → 1 ≤ at
    → Settles (entries_end size count at)
entries-Settles size step count at pos = record {
  positive = λ buf n h. omega (arith, entries_end-le size step count at buf n h);
  grows = entries_grow size step count at;
  known = entries_known size step count at;
}

transfer_size-pos : (rv : ℕ) → 1 ≤ transfer_size rv
unfolding transfer_size
transfer_size-pos rv = ground arith

sequence_size-pos : (jtag : Bool) (info : ℕ) → 1 ≤ sequence_size jtag info
unfolding sequence_size
sequence_size-pos jtag info = ground arith

pub swj-Settles : Settles swj_sequence_end
unfolding swj_sequence_end
swj-Settles =
    byte-Settles 1 (λ n buf. some (2 + div_ceil_8 (if n == 0 then 256 else n)))
      (λ n. const-Settles _ (omega arith)) (λ v n buf h. ground arith)

pub jtag-Settles : Settles jtag_configure_end
unfolding jtag_configure_end
jtag-Settles =
    byte-Settles 1 (λ n buf. some (2 + n)) (λ n. const-Settles _ (omega arith))
      (λ v n buf h. ground arith)

pub sequence-Settles : (jtag : Bool) → Settles (sequence_end jtag)
unfolding sequence_end
sequence-Settles jtag =
    byte-Settles 1 (λ count. entries_end (sequence_size jtag) count 2)
      (λ count. entries-Settles _ (sequence_size-pos jtag) count 2 (omega arith))
      (λ count n buf h. entries_end-le _ (sequence_size-pos jtag) count 2 buf n h)

-- An arm that waits for `k` bytes first.
header-Settles :
    (k : ℕ) (g : List ℕ → Option ℕ)
    → ((buf : List ℕ) (n : ℕ) → g buf ≡ some n → k ≤ n)
    → ((buf more : List ℕ) (n : ℕ) → k ≤ length buf → g buf ≡ some n → g (buf ++ more) ≡ some n)
    → ((buf more : List ℕ) (n : ℕ)
        → k ≤ length buf
        → g (buf ++ more) ≡ some n
        → n ≤ length buf
        → g buf ≡ some n)
    → 1 ≤ k
    → Settles (λ buf. if ltb (length buf) k then none else g buf)
header-Settles k g beyond grows known pos = record {
  positive = λ buf n h. elim (Bool-cases (ltb (length buf) k)) [
    | inl short ↦ cc (rw short at h)
    | inr long ↦ omega (arith, beyond buf n (rw long at h))
  ];
  grows = λ buf more n h. elim (Bool-cases (ltb (length buf) k)) [
    | inl short ↦ cc (rw short at h)
    | inr long ↦
        let enough : k ≤ length buf = ltb-false _ _ long in
        let still : ltb (length (buf ++ more)) k ≡ false = ground (arith, length-append buf more) in
        rw still (grows buf more n enough (rw long at h))
  ];
  known = λ buf more n h le. elim (Bool-cases (ltb (length (buf ++ more)) k)) [
    | inl short ↦ cc (rw short at h)
    | inr long ↦
        let h' = rw long at h in
        let enough : k ≤ length buf = omega (arith, beyond (buf ++ more) n h') in
        let here : ltb (length buf) k ≡ false = ground arith in
        rw here (known buf more n enough h' le)
  ];
}

pub transfer-Settles : Settles transfer_end
unfolding transfer_end
transfer-Settles =
    let size = transfer_size-pos in
    header-Settles 3 (λ buf. entries_end transfer_size (get_or buf 2 0) 3 buf)
      (λ buf n h. entries_end-le transfer_size size (get_or buf 2 0) 3 buf n h)
      (λ buf more n le h.
        rw (get_or-append buf more 2 0 (omega arith))
          (entries_grow transfer_size size (get_or buf 2 0) 3 buf more n h))
      (λ buf more n le h le'.
        entries_known transfer_size size (get_or buf 2 0) 3 buf more n
          (rw (get_or-append buf more 2 0 (omega arith)) at h) le')
      (omega arith)

abbrev block_len : ℕ → ℕ → ℕ → ℕ
block_len a b rv =
    let write = bit_and rv 0x02 == 0 in 5 + (if write then u16_from_le a b * 4 else 0)

pub block-Settles : Settles transfer_block_end
unfolding transfer_block_end
block-Settles =
    header-Settles 5 (λ buf. some (block_len (get_or buf 2 0) (get_or buf 3 0) (get_or buf 4 0)))
      (λ buf n h. ground arith)
      (λ buf more n le h.
        rw
          (
            get_or-append buf more 2 0 (omega arith),
            get_or-append buf more 3 0 (omega arith),
            get_or-append buf more 4 0 (omega arith),
          )
          h)
      (λ buf more n le h le'.
        rw
          (
            get_or-append buf more 2 0 (omega arith),
            get_or-append buf more 3 0 (omega arith),
            get_or-append buf more 4 0 (omega arith),
          )
          at h)
      (omega arith)
