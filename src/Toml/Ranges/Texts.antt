-- ===== src/Toml/Ranges/Texts.antt =====
-- probe-config-toml/src/board_toml.rs: the texts of ranges are split and read back.
use rustprobe.Common.{
  ℕ, ◌≤◌, ◌<◌, ◌≡◌, refl, ap, ◌∙◌, inl, inr, true, false, none, some, List, [], ◌∷◌, ◌++◌, arith,
  All, ltb, ok, Bool-cases, ◌==◌, ltb-false,
}
use rustprobe.Toml.Text.{
  Text, is_whitespace, is_empty, trim_start, trim_end, trim, extend_first, split, extend_before,
  split_once, scan, parse_digits, parse_u8, decimal, join,
}
use rustprobe.Toml.Ranges.{parse_pin, parse_range, range_text}

-- The digits and the dash lie between these; the comma and white space do not.
pub record IsPlain (c : ℕ) : Type 0 where
  pub from : 45 ≤ c
  pub to : c ≤ 57

pub record IsDigit (c : ℕ) : Type 0 where
  pub from : 48 ≤ c
  pub to : c ≤ 57

is_whitespace-IsPlain : (c : ℕ) → IsPlain c → is_whitespace c ≡ false
unfolding is_whitespace
is_whitespace-IsPlain c h = ground arith

trim_end-IsPlain : (s : Text) → All IsPlain s → trim_end s ≡ s
unfolding trim_end
trim_end-IsPlain [] h = refl
trim_end-IsPlain (c ∷ s) (hc, h) = rw (is_whitespace-IsPlain c hc, trim_end-IsPlain s h)

pub trim-IsPlain : (s : Text) → All IsPlain s → trim s ≡ s
unfolding trim trim_start
trim-IsPlain [] h = trim_end-IsPlain [] tt
trim-IsPlain (c ∷ s) (hc, h) = rw (is_whitespace-IsPlain c hc) (trim_end-IsPlain (c ∷ s) (hc, h))

comma_ne : (c : ℕ) → IsPlain c → (c == b',') ≡ false
comma_ne c h = ground arith

split-IsPlain : (s : Text) → All IsPlain s → split b',' s ≡ s ∷ []
unfolding split extend_first
split-IsPlain [] h = refl
split-IsPlain (c ∷ s) (hc, h) = rw (comma_ne c hc, split-IsPlain s h)

split_next : (s rest : Text) → All IsPlain s → split b',' (s ++ b',' ∷ rest) ≡ s ∷ split b',' rest
unfolding split extend_first
split_next [] rest h = refl
split_next (c ∷ s) rest (hc, h) = rw (comma_ne c hc, split_next s rest h)

pub split-join :
    (part : Text) (parts : List Text)
    → All IsPlain part
    → All (All IsPlain) parts
    → split b',' (join b',' (part ∷ parts)) ≡ part ∷ parts
unfolding join
split-join part [] h hs = split-IsPlain part h
split-join part (next ∷ parts) h (hn, hs) =
    split_next part (join b',' (next ∷ parts)) h ∙ ap (λ t. part ∷ t) (split-join next parts hn hs)

dash_ne : (c : ℕ) → IsDigit c → (c == b'-') ≡ false
dash_ne c h = ground arith

split_once-none : (s : Text) → All IsDigit s → split_once b'-' s ≡ none
unfolding split_once extend_before
split_once-none [] h = refl
split_once-none (c ∷ s) (hc, h) = rw (dash_ne c hc, split_once-none s h)

split_once-some : (s t : Text) → All IsDigit s → split_once b'-' (s ++ b'-' ∷ t) ≡ some (s, t)
unfolding split_once extend_before
split_once-some [] t h = refl
split_once-some (c ∷ s) t (hc, h) = rw (dash_ne c hc, split_once-some s t h)

decimal-IsDigit : (n : ℕ) → n ≤ 255 → All IsDigit (decimal n)
unfolding decimal
decimal-IsDigit n h = ground arith

parse_u8-decimal : (n : ℕ) → n ≤ 255 → parse_u8 (decimal n) ≡ some n
unfolding parse_u8 parse_digits scan decimal
parse_u8-decimal n h = ground arith

IsDigit-IsPlain : (s : Text) → All IsDigit s → All IsPlain s
IsDigit-IsPlain [] h = tt
IsDigit-IsPlain (c ∷ s) (hc, h) =
    (record { from = omega (arith, hc.from); to = hc.to }, IsDigit-IsPlain s h)

pub parse_pin-decimal : (n : ℕ) → n < 64 → parse_pin (decimal n) ≡ ok n
unfolding parse_pin
parse_pin-decimal n h =
    rw
      (
        trim-IsPlain (decimal n) (IsDigit-IsPlain _ (decimal-IsDigit n (omega arith))),
        parse_u8-decimal n (omega arith),
      )
      (ground arith)

range_text_several :
    (lo hi : ℕ) → ltb lo hi ≡ true → range_text lo hi ≡ decimal lo ++ b'-' ∷ decimal hi
unfolding range_text
range_text_several lo hi h = rw h

range_text_single : (lo hi : ℕ) → ltb lo hi ≡ false → range_text lo hi ≡ decimal lo
unfolding range_text
range_text_single lo hi h = rw h

module _ (lo hi : ℕ) (at : lo < 64) where
  parse_range_several : hi < 64 → parse_range (decimal lo ++ b'-' ∷ decimal hi) ≡ ok (lo, hi)
  unfolding parse_range
  parse_range_several h =
      let e = split_once-some (decimal lo) (decimal hi) (decimal-IsDigit lo (omega arith)) in
      rw (e, parse_range) (rw (parse_pin-decimal lo at, parse_pin-decimal hi h))

  parse_range_single : lo ≡ hi → parse_range (decimal lo) ≡ ok (lo, hi)
  unfolding parse_range
  parse_range_single same =
      let e = split_once-none (decimal lo) (decimal-IsDigit lo (omega arith)) in
      rw (e, parse_range) (rw (parse_pin-decimal lo at) (ap (λ p. ok (lo, p)) same))

-- The text of a range is read back.
pub parse_range-range_text :
    (lo hi : ℕ) → lo ≤ hi → hi < 64 → parse_range (range_text lo hi) ≡ ok (lo, hi)
parse_range-range_text lo hi h bound = elim (Bool-cases (ltb lo hi)) [
  | inl several ↦
      rw (range_text_several lo hi several) (parse_range_several lo hi (omega arith) bound)
  | inr single ↦
      rw (range_text_single lo hi single)
        (parse_range_single lo hi (omega arith) (omega (arith, ltb-false _ _ single)))
]

All-append {ℓ} : (P : ℕ → Type ℓ) (xs ys : List ℕ) → All P xs → All P ys → All P (xs ++ ys)
All-append P [] ys h h' = h'
All-append P (x ∷ xs) ys (hx, h) h' = (hx, All-append P xs ys h h')

decimal-IsPlain : (n : ℕ) → n < 64 → All IsPlain (decimal n)
decimal-IsPlain n h = IsDigit-IsPlain _ (decimal-IsDigit n (omega arith))

pub range_text-IsPlain : (lo hi : ℕ) → lo < 64 → hi < 64 → All IsPlain (range_text lo hi)
unfolding range_text
range_text-IsPlain lo hi h h' = elim (Bool-cases (ltb lo hi)) [
  | inl several ↦ rw several (
      All-append IsPlain (decimal lo) (b'-' ∷ decimal hi) (decimal-IsPlain lo h)
        (record { from = omega arith; to = omega arith }, decimal-IsPlain hi h'))
  | inr single ↦ rw single (decimal-IsPlain lo h)
]

-- A decimal number has a digit.
pub range_text-is_empty : (lo hi : ℕ) → is_empty (range_text lo hi) ≡ false
unfolding is_empty range_text decimal
range_text-is_empty lo hi = ground arith
