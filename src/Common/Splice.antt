-- ===== src/Common/Splice.antt =====
-- Overwriting a run of bytes in a buffer of fixed size.
use Prim.Native.Nat.{ℕ, zero, suc, ◌+◌, ◌≤◌, ◌<◌}
use mathlib.Core.Path.{◌≡◌, refl, ap, ◌∙◌}
use mathlib.Core.List.{List, [], ◌∷◌, ◌++◌, append_assoc}
use native.Mathlib.Numerals.{add-one}
use native.Mathlib.Omega.{arith}
use rustprobe.Common.Lists.{
  length, take, drop, set, length-append, length-take, length-drop, take-append_left,
}

-- The bytes from `at` on are overwritten by `bs`; the callers have checked that they fit.
abbrev pub write_at : List ℕ → ℕ → List ℕ → List ℕ
write_at buf at bs = take at buf ++ (bs ++ drop (at + length bs) buf)

pub length-write_at :
    (buf bs : List ℕ) (at : ℕ)
    → at + length bs ≤ length buf
    → length (write_at buf at bs) ≡ length buf
length-write_at buf bs at h =
    rw (length-append, length-append)
      (omega (arith, length-take at buf, length-drop (at + length bs) buf))

pub take-write_at :
    (buf bs : List ℕ) (at : ℕ)
    → at + length bs ≤ length buf
    → take (at + length bs) (write_at buf at bs) ≡ take at buf ++ bs
take-write_at buf bs at h =
    let front : List ℕ = take at buf ++ bs in
    let e : at + length bs ≡ length front =
      omega (arith, length-append (take at buf) bs, length-take at buf) in
    rw (e, ← append_assoc (take at buf) bs (drop (length front) buf))
      (take-append_left front (drop (length front) buf))

pub set-write_at :
    (buf : List ℕ) (at v : ℕ) → at < length buf → set buf at v ≡ write_at buf at (v ∷ [])
set-write_at [] at v h = absurd (omega arith)
set-write_at (x ∷ xs) zero v h = refl
set-write_at (x ∷ xs) (suc at) v h =
    rw (add-one (suc at)) (ap (λ t. x ∷ t) (set-write_at xs at v (omega arith) ∙ rw (add-one at)))
