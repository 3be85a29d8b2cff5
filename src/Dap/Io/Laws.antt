-- ===== src/Dap/Io/Laws.antt =====
-- dap-async/src/io.rs: responses as bounded sequences of bytes, and the reads of a request.
use mathlib.Core.Path.{subst}
use rustprobe.Common.{
  ℕ, zero, suc, set, ◌+◌, ◌≤◌, ◌≡◌, ◌≢◌, refl, sym, ap, inl, inr, none, some, List, [], ◌∷◌, ◌++◌,
  arith, leb, ltb, length, take, replicate, length-set, length-take, take-append-drop, Bool-cases,
  length-replicate, some_inj, ◌↔◌, ltb-false, length-write_at, take-write_at, set-write_at,
}
use rustprobe.Dap.Io.{Response, new, bytes, put_slice, put_u8, reserve, fill, set_u8}

-- The bytes of the reply so far.
pub written : Response → List ℕ
written r = take r.len r.buf

pub IsValid : Response → Type 0
IsValid r = r.len ≤ length r.buf

abbrev pub capacity : Response → ℕ
capacity r = length r.buf

-- The result of an append: the bytes follow what was written, in the same buffer.
pub record Appends (r : Response) (bs : List ℕ) (r' : Response) : Type 0 where
  pub grown : r'.len ≡ r.len + length bs
  pub same_capacity : capacity r' ≡ capacity r
  pub text : written r' ≡ written r ++ bs

-- When an append succeeds, the written bytes grow by the appended ones, and the buffer keeps its
-- size.
pub put_slice-Appends :
    (bs : List ℕ) (r : Response) {r' : Response} → put_slice bs r ≡ some r' → Appends r bs r'
unfolding put_slice written
put_slice-Appends bs r h = elim (Bool-cases (leb (r.len + length bs) (capacity r))) [
  | inr e ↦ cc (rw e at h)
  | inl e ↦
      let room : r.len + length bs ≤ capacity r = ground arith in
      let run = some_inj (rw e at h) in
      subst (Appends r bs) run (record {
        grown = refl;
        same_capacity = length-write_at r.buf bs r.len room;
        text = take-write_at r.buf bs r.len room;
      })
]

-- An append succeeds exactly when the bytes fit into the buffer behind what was written.
pub put_slice_iff :
    (bs : List ℕ) (r : Response) → (put_slice bs r ≢ none) ↔ (r.len + length bs ≤ capacity r)
unfolding put_slice
put_slice_iff bs r = ((λ h. ground (arith)), (λ h e. ground arith))

pub put_u8-slice : (v : ℕ) (r : Response) → put_u8 v r ≡ put_slice (v ∷ []) r
unfolding put_u8 put_slice
put_u8-slice v r = elim (Bool-cases (ltb r.len (length r.buf))) [
  | inl e ↦ rw (e, set-write_at r.buf r.len v (ground arith)) (ground arith)
  | inr e ↦ rw e (ground arith)
]

pub reserve-slice :
    (n : ℕ) (r : Response) {at : ℕ} {r' : Response}
    → reserve n r ≡ some (at, r')
    → (at ≡ r.len) × (put_slice (replicate n 0) r ≡ some r')
unfolding reserve put_slice
reserve-slice n r h = elim (Bool-cases (leb (r.len + n) (length r.buf))) [
  | inr e ↦ cc (rw e at h)
  | inl e ↦
      let run = some_inj (rw e at h) in
      (
        sym (ap (λ (p : ℕ × Response). p.0) run),
        rw (length-replicate {A = ℕ} n 0, e)
            (rw (length-replicate {A = ℕ} n 0) at (ap (λ (p : ℕ × Response). some p.1) run)),
      )
]

-- Overwriting bytes that are there keeps their number.
pub length-fill :
    (at : ℕ) (bs : List ℕ) (r : Response)
    → at + length bs ≤ capacity r
    → capacity (fill at bs r) ≡ capacity r
unfolding fill
length-fill at bs r h = length-write_at r.buf bs at h

pub length-set_u8 : (at v : ℕ) (r : Response) → capacity (set_u8 at v r) ≡ capacity r
unfolding set_u8
length-set_u8 at v r = length-set r.buf at v

-- A successful read of `n` bytes returns `n` bytes, and these and the rest make up the request.
pub bytes_split :
    (n : ℕ) (req : List ℕ) {bs rest : List ℕ}
    → bytes n req ≡ some (bs, rest)
    → (length bs ≡ n) × (bs ++ rest ≡ req)
unfolding bytes
bytes_split n req h = elim (Bool-cases (ltb (length req) n)) [
  | inl e ↦ cc (rw e at h)
  | inr e ↦
      let run = some_inj (rw e at h) in
      let front = ap (λ (p : List ℕ × List ℕ). p.0) run in
      let back = ap (λ (p : List ℕ × List ℕ). p.1) run in
      rw (← front, ← back)
        (omega (arith, length-take n req, ltb-false _ _ e), take-append-drop n req)
]

take-set : (n : ℕ) (xs : List ℕ) (i v : ℕ) → take n (set xs i v) ≡ set (take n xs) i v
take-set zero xs i v = refl
take-set (suc n) [] i v = refl
take-set (suc n) (x ∷ xs) zero v = refl
take-set (suc n) (x ∷ xs) (suc i) v = ap (λ t. x ∷ t) (take-set n xs i v)

-- Overwriting a byte that is there, or one behind the reply.
pub written-set_u8 : (at v : ℕ) (r : Response) → written (set_u8 at v r) ≡ set (written r) at v
unfolding written set_u8
written-set_u8 at v r = take-set r.len r.buf at v

-- A new reply consists of the command.
pub written-new :
    (buf : List ℕ) (command : ℕ) → 1 ≤ length buf → written (new buf command) ≡ command ∷ []
unfolding written new
written-new [] command h = absurd (omega arith)
written-new (x ∷ buf) command h = refl

-- The written bytes are the front of the buffer.
pub written_lem : (r : Response) → written r ≡ take r.len r.buf
unfolding written
written_lem r = refl
