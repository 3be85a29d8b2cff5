-- ===== src/Dap/Machine/Runs.antt =====
-- dap-async/src/dap.rs: runs of the handlers' actions that end with a value, step by step.
use mathlib.Core.Path.{subst}
use rustprobe.Common.{
  ℕ, ◌+◌, ◌≤◌, ◌≡◌, refl, ap, ◌∙◌, inl, inr, ◌≢◌, Bool, true, false, Option, none, some, List, ◌++◌,
  arith, if◌then◌else◌, replicate, append_assoc, length-append, Option-cases, u32_to_le,
}
use rustprobe.Dap.Io.{Response, put_slice, put_u32, reserve}
use rustprobe.Dap.Io.Laws.{Appends, put_slice-Appends, put_slice_iff, capacity, reserve-slice}
use rustprobe.Dap.Machine.{
  Dap, Machine, Action, pure, ◌>>=◌, ◌>>◌, take_req, respond, reserve_req, patch, modify, gets,
  drive,
}

-- From `s`, the action ends with the value `a` in `s'`.
pub record Runs {D T A : Type 0} (m : Action D T A) (s : Machine D T) (a : A) (s' : Machine D T)
    : Type 0 where
  pub ran : m s ≡ (some a, s')

abbrev pub with_driver : {D T : Type 0} → D → Machine D T → Machine D T
with_driver d s = record s { dap = record s.dap { driver = d } }

module _ {D T : Type 0} where
  pub bind :
      {A B : Type 0} {m : Action D T A} (f : A → Action D T B) {s s' s'' : Machine D T} {a : A}
      {b : B}
      → Runs m s a s'
      → Runs (f a) s' b s''
      → Runs (m >>= f) s b s''
  unfolding ◌>>=◌
  bind {A = A} {B = B} f h k = record {
    ran =
        ap
          (λ (r : Option A × Machine D T). elim r.0 as (λ _. Option B × Machine D T) [
            | none ↦ (none, r.1)
            | some a ↦ f a r.1
          ])
          h.ran
        ∙ k.ran;
  }

  pub after :
      {A B : Type 0} {m : Action D T A} {k : Action D T B} {s s' s'' : Machine D T} {a : A} {b : B}
      → Runs m s a s'
      → Runs k s' b s''
      → Runs (m >> k) s b s''
  unfolding ◌>>◌
  after {k = k} h g = bind (λ _. k) h g

  pub pure-Runs : {A : Type 0} {a : A} {s : Machine D T} → Runs {D = D} {T = T} (pure a) s a s
  pure-Runs = record { ran = refl }

  pub take_req-Runs :
      {A : Type 0} (read : List ℕ → Option (A × List ℕ)) {s : Machine D T} {a : A} {rest : List ℕ}
      → read s.req ≡ some (a, rest)
      → Runs {D = D} {T = T} (take_req read) s a (record s { req = rest })
  unfolding take_req
  take_req-Runs read e = record { ran = rw (take_req, e) }

  pub respond-Runs :
      (put : Response → Option Response) {s : Machine D T} {r : Response}
      → put s.resp ≡ some r
      → Runs {D = D} {T = T} (respond put) s tt (record s { resp = r })
  unfolding respond
  respond-Runs put e = record { ran = rw (respond, e) }

  pub reserve_req-Runs :
      (n : ℕ) {at : ℕ} {s : Machine D T} {r : Response}
      → reserve n s.resp ≡ some (at, r)
      → Runs {D = D} {T = T} (reserve_req n) s at (record s { resp = r })
  unfolding reserve_req
  reserve_req-Runs n e = record { ran = rw (reserve_req, e) }

  pub patch-Runs :
      (f : Response → Response) {s : Machine D T}
      → Runs {D = D} {T = T} (patch f) s tt (record s { resp = f s.resp })
  unfolding patch
  patch-Runs f = record { ran = refl }

  pub modify-Runs :
      (f : Dap D T → Dap D T) {s : Machine D T} → Runs (modify f) s tt (record s { dap = f s.dap })
  unfolding modify
  modify-Runs f = record { ran = refl }

  pub gets-Runs : {A : Type 0} (f : Dap D T → A) {s : Machine D T} → Runs (gets f) s (f s.dap) s
  unfolding gets
  gets-Runs f = record { ran = refl }

  pub drive-Runs :
      {A : Type 0} (f : D → A × D) {s : Machine D T}
      → Runs {D = D} {T = T} (drive f) s (f s.dap.driver).0 (with_driver (f s.dap.driver).1 s)
  unfolding drive
  drive-Runs f = record { ran = refl }

  pub if_true :
      {A : Type 0} {t : Bool} {m : Action D T A} (k : Action D T A) {s s' : Machine D T} {a : A}
      → t ≡ true
      → Runs m s a s'
      → Runs (if t then m else k) s a s'
  if_true k e h = rw e h

  pub if_false :
      {A : Type 0} {t : Bool} (m : Action D T A) {k : Action D T A} {s s' : Machine D T} {a : A}
      → t ≡ false
      → Runs k s a s'
      → Runs (if t then m else k) s a s'
  if_false m e h = rw e h

-- Two appends, one behind the other.
pub append_trans :
    {r r' r'' : Response} {a b : List ℕ}
    → Appends r a r'
    → Appends r' b r''
    → Appends r (a ++ b) r''
append_trans {r = r} {a = a} {b = b} h k = record {
  grown = omega (arith, h.grown, k.grown, length-append a b);
  same_capacity = k.same_capacity ∙ h.same_capacity;
  text = k.text ∙ rw (h.text) (append_assoc _ a b);
}

-- An append of a word where there is room for it.
pub put_u32_fits :
    (w : ℕ) (r : Response)
    → r.len + 4 ≤ capacity r
    → (r' : Response) × (put_u32 w r ≡ some r') × Appends r (u32_to_le w) r'
unfolding put_u32
put_u32_fits w r room = elim (Option-cases (put_slice (u32_to_le w) r)) [
  | inl full ↦ absurd ((put_slice_iff (u32_to_le w) r).1 (omega arith) full)
  | inr (r', e) ↦ (r', e, put_slice-Appends (u32_to_le w) r e)
]

reserve-some : (n : ℕ) (r : Response) → r.len + n ≤ capacity r → reserve n r ≢ none
unfolding reserve
reserve-some n r room full = ground arith

-- A reservation where there is room for it.
pub reserve_fits :
    (n : ℕ) (r : Response)
    → r.len + n ≤ capacity r
    → (r' : Response) × (reserve n r ≡ some (r.len, r')) × Appends r (replicate n 0) r'
reserve_fits n r room = elim (Option-cases (reserve n r)) [
  | inl full ↦ absurd (reserve-some n r room full)
  | inr ((at, r'), e) ↦
      let (here, put) = reserve-slice n r e in
      (
        r',
        subst (λ (k : ℕ). reserve n r ≡ some (k, r')) here e,
        put_slice-Appends (replicate n 0) r put,
      )
]
