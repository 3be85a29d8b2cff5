-- ===== src/Dap/Framing/Prefix.antt =====
-- dap-async/src/framing.rs: `request_len` on a request and on its prefixes.
use rustprobe.Common.{
  ℕ, ◌≤◌, ◌<◌, ◌≡◌, refl, inl, inr, Bool, true, false, Option, none, some, List, [], ◌∷◌, ◌++◌,
  arith, leb, if◌then◌else◌, length, length-append, Bool-cases, ◌==◌,
}
use rustprobe.Dap.Command
use rustprobe.Dap.Framing.{
  Framing, complete, need_more, unknown, fixed, settle, swj_sequence_end, jtag_configure_end,
  transfer_block_end, transfer_end, sequence_end, dispatch, request_len,
}
use rustprobe.Dap.Framing.Settles.{
  Settles, swj-Settles, jtag-Settles, sequence-Settles, transfer-Settles, block-Settles,
}

-- What a framed request gives for its prefixes.
record Frames (f : List ℕ → Framing) : Type 0 where
  positive : (buf : List ℕ) (n : ℕ) → f buf ≡ complete n → 1 ≤ n
  within : (buf : List ℕ) (n : ℕ) → f buf ≡ complete n → n ≤ length buf
  known :
      (buf more : List ℕ) (n : ℕ)
      → f (buf ++ more) ≡ complete n
      → n ≤ length buf
      → f buf ≡ complete n
  early :
      (buf more : List ℕ) (n : ℕ)
      → f (buf ++ more) ≡ complete n
      → length buf < n
      → f buf ≡ need_more

fixed-Frames : (n : ℕ) → 1 ≤ n → Frames (fixed n)
unfolding fixed
fixed-Frames n pos = record {
  positive = λ buf m h. ground arith;
  within = λ buf m h. ground arith;
  known = λ buf more m h le. ground (arith, length-append buf more);
  early = λ buf more m h lt. ground (arith, length-append buf more);
}

complete_end :
    (e : Option ℕ) (buf : List ℕ) (n : ℕ)
    → settle e buf ≡ complete n
    → (e ≡ some n) × (n ≤ length buf)
unfolding settle fixed
complete_end none buf n h = cc
complete_end (some m) buf n h = ground arith

settle_end :
    (e : Option ℕ) (buf : List ℕ) (n : ℕ) → e ≡ some n → n ≤ length buf → settle e buf ≡ complete n
unfolding settle fixed
settle_end none buf n h le = cc
settle_end (some m) buf n h le = ground arith

settle_early :
    (e e' : Option ℕ) (buf : List ℕ) (n : ℕ)
    → e' ≡ some n
    → ((m : ℕ) → e ≡ some m → e' ≡ some m)
    → length buf < n
    → settle e buf ≡ need_more
unfolding settle fixed
settle_early none e' buf n h grows lt = refl
settle_early (some m) e' buf n h grows lt = ground (arith, grows m refl)

settle-Frames : (e : List ℕ → Option ℕ) → Settles e → Frames (λ buf. settle (e buf) buf)
settle-Frames e s = record {
  positive = λ buf n h. s.positive buf n (complete_end (e buf) buf n h).0;
  within = λ buf n h. (complete_end (e buf) buf n h).1;
  known = λ buf more n h le.
      settle_end (e buf) buf n (s.known buf more n (complete_end _ (buf ++ more) n h).0 le) le;
  early = λ buf more n h lt.
      settle_early (e buf) (e (buf ++ more)) buf n (complete_end _ (buf ++ more) n h).0
        (λ m. s.grows buf more m) lt;
}

if-Frames :
    (b : Bool) (f g : List ℕ → Framing)
    → Frames f
    → Frames g
    → Frames (λ buf. if b then f buf else g buf)
if-Frames true f g hf hg = record {
  positive = hf.positive;
  within = hf.within;
  known = hf.known;
  early = hf.early;
}
if-Frames false f g hf hg = record {
  positive = hg.positive;
  within = hg.within;
  known = hg.known;
  early = hg.early;
}

unknown-Frames : Frames (λ buf. unknown)
unknown-Frames = record {
  positive = λ buf n h. cc;
  within = λ buf n h. cc;
  known = λ buf more n h le. cc;
  early = λ buf more n h lt. cc;
}

dispatch-Frames : (c : ℕ) → Frames (dispatch c)
unfolding dispatch
dispatch-Frames c =
    let one = fixed-Frames 1 (omega arith) in
    let two = fixed-Frames 2 (omega arith) in
    let three = fixed-Frames 3 (omega arith) in
    let five = fixed-Frames 5 (omega arith) in
    let six = fixed-Frames 6 (omega arith) in
    let seven = fixed-Frames 7 (omega arith) in
    let swj = settle-Frames swj_sequence_end swj-Settles in
    let jtag = settle-Frames jtag_configure_end jtag-Settles in
    let block = settle-Frames transfer_block_end block-Settles in
    let transfer = settle-Frames transfer_end transfer-Settles in
    let is_jtag = c == Command.jtag_sequence in
    let sequence = settle-Frames (sequence_end is_jtag) (sequence-Settles is_jtag) in
    let rest = if-Frames _ _ _ sequence unknown-Frames in
    let rest' = if-Frames _ _ _ block (if-Frames _ _ _ transfer rest) in
    let rest'' = if-Frames _ _ _ seven (if-Frames _ _ _ swj (if-Frames _ _ _ jtag rest')) in
    if-Frames _ _ _ one (
      if-Frames _ _ _ two
        (if-Frames _ _ _ three (if-Frames _ _ _ five (if-Frames _ _ _ six rest''))))

prefix_of :
    (f : List ℕ → Framing) (frames : Frames f) (front back : List ℕ) (n : ℕ)
    → f (front ++ back) ≡ complete n
    → f front ≡ (if leb n (length front) then complete n else need_more)
prefix_of f frames front back n h = elim (Bool-cases (leb n (length front))) [
  | inl there ↦ rw there (frames.known front back n h (ground arith))
  | inr missing ↦ rw missing (frames.early front back n h (ground arith))
]

positive_length : (buf : List ℕ) (n : ℕ) → request_len buf ≡ complete n → 1 ≤ n
unfolding request_len
positive_length [] n h = cc
positive_length (c ∷ buf) n h = (dispatch-Frames c).positive (c ∷ buf) n h

-- If the bytes `front ++ back` hold a complete request of `n` bytes, then `front` alone is answered
-- with the same length as soon as it has `n` bytes, and with "more bytes are needed" before.
pub request_len-prefix :
    (front back : List ℕ) (n : ℕ)
    → request_len (front ++ back) ≡ complete n
    → request_len front ≡ (if leb n (length front) then complete n else need_more)
request_len-prefix [] back n h = unfold request_len in ground (arith, positive_length back n h)
request_len-prefix (c ∷ front) back n h =
    unfold request_len in prefix_of (dispatch c) (dispatch-Frames c) (c ∷ front) back n h

-- A complete request has at least one byte, and all its bytes have been received.
pub request_len_bounds :
    (buf : List ℕ) (n : ℕ) → request_len buf ≡ complete n → (1 ≤ n) × (n ≤ length buf)
unfolding request_len
request_len_bounds [] n h = cc
request_len_bounds (c ∷ buf) n h =
    ((dispatch-Frames c).positive (c ∷ buf) n h, (dispatch-Frames c).within (c ∷ buf) n h)
