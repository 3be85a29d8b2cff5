-- ===== src/Dap/Machine/Reaches.antt =====
-- dap-async/src/dap.rs: what the actions of the handlers leave of the reply.
use rustprobe.Common.{
  ℕ, zero, suc, ◌+◌, ◌≤◌, ◌≡◌, refl, sym, ◌∙◌, inl, inr, Bool, true, false, Option, none, some,
  List, [], ◌∷◌, arith, leb, if◌then◌else◌, length, get_elem?, set, replicate, length-set,
  length-replicate, write_at, length-write_at, Bool-cases, some_inj, u16_to_le, u32_to_le,
}
use mathlib.Core.Path.{subst}
use rustprobe.Dap.Io.Laws.{put_slice-Appends, reserve-slice, put_u8-slice}
use rustprobe.Dap.Io.{
  Response, reserve, fill, truncate, set_u8, set_u16, put_slice, put_u8, put_u16, put_u32,
}
use rustprobe.Dap.Machine.{
  Dap, Machine, Action, pure, fail, ◌>>=◌, ◌>>◌, take_req, respond, reserve_req, patch, modify,
  gets, drive,
}

-- A reply to command `c` in a buffer of `size` bytes.
pub record IsReply (c size : ℕ) (r : Response) : Type 0 where
  pub same_size : length r.buf ≡ size
  pub begun : 1 ≤ r.len
  pub bounded : r.len ≤ size
  pub echo : get_elem? r.buf 0 ≡ some c

-- The reply is still one, and the value satisfies `Q`.
abbrev pub Ends :
    (D T : Type 0) (c size : ℕ) {A : Type 0} → (A → Type 0) → Option A × Machine D T → Type 0
Ends D T c size Q (none, s) = IsReply c size s.resp
Ends D T c size Q (some a, s) = IsReply c size s.resp × Q a

-- The action keeps the reply one, however it ends, and its value satisfies `Q`.
pub record Reaches (D T : Type 0) (c size : ℕ) {A : Type 0} (Q : A → Type 0) (m : Action D T A)
    : Type 0 where
  pub ends : (s : Machine D T) → IsReply c size s.resp → Ends D T c size Q (m s)

abbrev pub Any : {A : Type 0} → A → Type 0
Any a = Unit {0}

module _ {D T : Type 0} {c size : ℕ} where
  bind_split :
      {A B : Type 0} {Q : A → Type 0} {R : B → Type 0} (f : A → Action D T B)
      → ((a : A) → Q a → Reaches D T c size R (f a))
      → (o : Option A) (s : Machine D T) → Ends D T c size Q (o, s)
      → Ends D T c size R (elim o [ none ↦ (none, s) | some a ↦ f a s ])
  bind_split f k none s h = h
  bind_split f k (some a) s h = (k a h.1).ends s h.0

  pub bind :
      {A B : Type 0} {Q : A → Type 0} {R : B → Type 0} {m : Action D T A} {f : A → Action D T B}
      → Reaches D T c size Q m
      → ((a : A) → Q a → Reaches D T c size R (f a))
      → Reaches D T c size R (m >>= f)
  unfolding ◌>>=◌
  bind {m = m} {f = f} h k = record { ends = λ s r. bind_split f k (m s).0 (m s).1 (h.ends s r) }

  pub after :
      {A B : Type 0} {Q : A → Type 0} {R : B → Type 0} {m : Action D T A} {k : Action D T B}
      → Reaches D T c size Q m
      → Reaches D T c size R k
      → Reaches D T c size R (m >> k)
  unfolding ◌>>◌
  after h k = bind h (λ a q. k)

  pub pure-Reaches :
      {A : Type 0} {Q : A → Type 0} {a : A} → Q a → Reaches D T c size {A = A} Q (pure a)
  pure-Reaches q = record { ends = λ s r. (r, q) }

  pub fail-Reaches : {A : Type 0} {Q : A → Type 0} → Reaches D T c size {A = A} Q fail
  fail-Reaches = record { ends = λ s r. r }

  pub if-Reaches :
      {A : Type 0} {Q : A → Type 0} {a b : Action D T A} (t : Bool)
      → Reaches D T c size Q a
      → Reaches D T c size Q b
      → Reaches D T c size Q (if t then a else b)
  if-Reaches true ha hb = ha
  if-Reaches false ha hb = hb

  pub gets-Reaches : {A : Type 0} (f : Dap D T → A) → Reaches D T c size Any (gets f)
  unfolding gets
  gets-Reaches f = record { ends = λ s r. (r, tt) }

  pub modify-Reaches : (f : Dap D T → Dap D T) → Reaches D T c size Any (modify f)
  unfolding modify
  modify-Reaches f = record { ends = λ s r. (r, tt) }

  pub drive-Reaches :
      {A : Type 0} {Q : A → Type 0} (f : D → A × D)
      → ((d : D) → Q (f d).0)
      → Reaches D T c size Q (drive f)
  unfolding drive
  drive-Reaches f h = record { ends = λ s r. (r, h s.dap.driver) }

  taken :
      {A : Type 0} (s : Machine D T)
      → IsReply c size s.resp
      → (o : Option (A × List ℕ))
      → Ends D T c size {A = A} Any
          (elim o [ none ↦ (none, s) | some p ↦ (some p.0, record s { req = p.1 }) ])
  taken s r none = r
  taken s r (some p) = (r, tt)

  pub take_req-Reaches :
      {A : Type 0} (read : List ℕ → Option (A × List ℕ)) → Reaches D T c size Any (take_req read)
  unfolding take_req
  take_req-Reaches read = record { ends = λ s r. taken s r (read s.req) }

first_kept :
    {c : ℕ} (buf bs : List ℕ) (at : ℕ)
    → 1 ≤ at
    → get_elem? buf 0 ≡ some c
    → get_elem? (write_at buf at bs) 0 ≡ some c
first_kept [] bs at h e = absurd (ground arith)
first_kept (x ∷ xs) bs zero h e = absurd (omega arith)
first_kept (x ∷ xs) bs (suc at) h e = e

first-set :
    {c : ℕ} (buf : List ℕ) (at v : ℕ)
    → 1 ≤ at
    → get_elem? buf 0 ≡ some c
    → get_elem? (set buf at v) 0 ≡ some c
first-set [] at v h e = e
first-set (x ∷ xs) zero v h e = absurd (omega arith)
first-set (x ∷ xs) (suc at) v h e = e

module _ {c size : ℕ} (r : Response) (h : IsReply c size r) where
  pub fill-IsReply :
      (at : ℕ) (bs : List ℕ) → 1 ≤ at → at + length bs ≤ size → IsReply c size (fill at bs r)
  unfolding fill
  fill-IsReply at bs low fits = record {
    same_size = length-write_at r.buf bs at (omega (arith, h.same_size)) ∙ h.same_size;
    begun = h.begun;
    bounded = h.bounded;
    echo = first_kept r.buf bs at low h.echo;
  }

  pub set_u8-IsReply : (at v : ℕ) → 1 ≤ at → IsReply c size (set_u8 at v r)
  unfolding set_u8
  set_u8-IsReply at v low = record {
    same_size = length-set r.buf at v ∙ h.same_size;
    begun = h.begun;
    bounded = h.bounded;
    echo = first-set r.buf at v low h.echo;
  }

  pub set_u16-IsReply : (at v : ℕ) → 1 ≤ at → at + 2 ≤ size → IsReply c size (set_u16 at v r)
  unfolding set_u16 fill
  set_u16-IsReply at v low fits = fill-IsReply at (u16_to_le v) low fits

  pub truncate-IsReply : (n : ℕ) → 1 ≤ n → IsReply c size (truncate n r)
  unfolding truncate
  truncate-IsReply n low = record {
    same_size = h.same_size;
    begun = omega (arith, h.begun);
    bounded = omega (arith, h.bounded);
    echo = h.echo;
  }

  pub put_slice-IsReply :
      (bs : List ℕ) {r' : Response} → put_slice bs r ≡ some r' → IsReply c size r'
  unfolding put_slice
  put_slice-IsReply bs e = elim (Bool-cases (leb (r.len + length bs) (length r.buf))) [
    | inr full ↦ absurd (ground arith)
    | inl room ↦
        let fits : r.len + length bs ≤ length r.buf = ground arith in
        subst (IsReply c size) (some_inj (rw room at e)) (record {
          same_size = length-write_at r.buf bs r.len fits ∙ h.same_size;
          begun = omega (arith, h.begun);
          bounded = omega (arith, h.same_size);
          echo = first_kept r.buf bs r.len h.begun h.echo;
        })
  ]

-- What the appends have in common: each of them is an append of some bytes.
abbrev pub IsPut : (Response → Option Response) → Type 0
IsPut put = (r : Response) → (bs : List ℕ) × (put r ≡ put_slice bs r)

pub put_slice-IsPut : (bs : List ℕ) → IsPut (put_slice bs)
put_slice-IsPut bs r = (bs, refl)

pub put_u8-IsPut : (v : ℕ) → IsPut (put_u8 v)
put_u8-IsPut v r = (v ∷ [], put_u8-slice v r)

pub put_u16-IsPut : (v : ℕ) → IsPut (put_u16 v)
unfolding put_u16
put_u16-IsPut v r = (u16_to_le v, refl)

pub put_u32-IsPut : (v : ℕ) → IsPut (put_u32 v)
unfolding put_u32
put_u32-IsPut v r = (u32_to_le v, refl)

-- The reserved bytes lie behind the first one, within the buffer.
abbrev pub Reserved : ℕ → ℕ → ℕ → Type 0
Reserved size n at = (1 ≤ at) × (at + n ≤ size)

reserved :
    {c size : ℕ} (r : Response)
    → IsReply c size r
    → (n at : ℕ) (r' : Response) → reserve n r ≡ some (at, r')
    → IsReply c size r' × Reserved size n at
reserved {c = c} {size = size} r h n at r' e =
    let (here, run) = reserve-slice n r e in
    let appended_reply : IsReply c size r' = put_slice-IsReply r h (replicate n 0) run in
    let grown = (put_slice-Appends (replicate n 0) r run).grown in
    (
      appended_reply,
      (
        rw here h.begun,
        omega (arith, appended_reply.bounded, grown, here, length-replicate {A = ℕ} n 0),
      ),
    )

module _ {D T : Type 0} {c size : ℕ} where
  made :
      (s : Machine D T) (n : ℕ)
      → IsReply c size s.resp
      → (o : Option (ℕ × Response))
      → ((at : ℕ) (r : Response) → o ≡ some (at, r) → IsReply c size r × Reserved size n at)
      → Ends D T c size
          (Reserved size n)
          (elim o [ none ↦ (none, s) | some p ↦ (some p.0, record s { resp = p.1 }) ])
  made s n h none k = h
  made s n h (some p) k = k p.0 p.1 refl

  appended :
      (s : Machine D T) (o : Option Response)
      → ((r : Response) → o ≡ some r → IsReply c size r)
      → IsReply c size s.resp
      → Ends D T c size {A = Unit {0}} Any
          (elim o [ none ↦ (none, s) | some r ↦ (some tt, record s { resp = r }) ])
  appended s none k h = h
  appended s (some r) k h = (k r refl, tt)

  pub respond-Reaches :
      {put : Response → Option Response} → IsPut put → Reaches D T c size Any (respond put)
  unfolding respond
  respond-Reaches {put = put} is_put = record {
    ends = λ s h.
        let (bs, same) = is_put s.resp in
        appended s (put s.resp) (λ r e. put_slice-IsReply s.resp h bs (sym same ∙ e)) h;
  }

  pub reserve_req-Reaches : (n : ℕ) → Reaches D T c size (Reserved size n) (reserve_req n)
  unfolding reserve_req
  reserve_req-Reaches n = record {
    ends = λ s h. made s n h (reserve n s.resp) (λ at r e. reserved s.resp h n at r e);
  }

  pub patch-Reaches :
      {f : Response → Response}
      → ((r : Response) → IsReply c size r → IsReply c size (f r))
      → Reaches D T c size Any (patch f)
  unfolding patch
  patch-Reaches k = record { ends = λ s h. (k s.resp h, tt) }
