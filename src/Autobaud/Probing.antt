-- ===== src/Autobaud/Probing.antt =====
-- autobaud-estimator/src/lib.rs: the slots that the probing of the table visits.
use rustprobe.Common.{
  ℕ, zero, suc, ◌+◌, ◌%◌, ◌<◌, ◌≡◌, sym, ◌∙◌, inl, inr, Bool, true, false, ◌||◌, some, arith, ◌==◌,
  Bool-cases, some_inj,
}
use rustprobe.Autobaud.{Table, hash_tbl_size, slot, probe}

-- The probing for `key` stops at a slot that is empty or holds the key.
abbrev pub stops : ℕ → Table → ℕ → Bool
stops key t idx = (slot t idx).key == 0 || (slot t idx).key == key

pub probe_here :
    (key fuel idx : ℕ) (t : Table) → stops key t idx ≡ true → probe key (suc fuel) idx t ≡ some idx
unfolding probe
probe_here key fuel idx t h = rw (h, probe)

pub probe_next :
    (key fuel idx : ℕ) (t : Table)
    → stops key t idx ≡ false
    → probe key (suc fuel) idx t ≡ probe key fuel ((idx + 1) % hash_tbl_size) t
unfolding probe
probe_next key fuel idx t h = rw (h, probe)

-- A slot at distance `d` is reached.
pub probe_reaches :
    (key fuel idx d : ℕ) (t : Table)
    → d < fuel
    → stops key t ((idx + d) % hash_tbl_size) ≡ true
    → idx < hash_tbl_size
    → (j : ℕ) × (probe key fuel idx t ≡ some j)
probe_reaches key zero idx d t h s lt = absurd (omega arith)
probe_reaches key (suc fuel) idx zero t h s lt =
    let here : (idx + 0) % hash_tbl_size ≡ idx = omega arith in
    (idx, probe_here key fuel idx t (rw here at s))
probe_reaches key (suc fuel) idx (suc d) t h s lt = elim (Bool-cases (stops key t idx)) [
  | inl here ↦ (idx, probe_here key fuel idx t here)
  | inr on ↦
      let idx' = (idx + 1) % hash_tbl_size in
      let same : (idx + suc d) % hash_tbl_size ≡ (idx' + d) % hash_tbl_size = omega arith in
      let (j, found) = probe_reaches key fuel idx' d t (omega arith) (rw same at s) (omega arith) in
      (j, probe_next key fuel idx t on ∙ found)
]

-- The slot at which the probing stops.
pub probe-stops :
    (key fuel idx : ℕ) (t : Table) {j : ℕ}
    → idx < hash_tbl_size
    → probe key fuel idx t ≡ some j
    → (j < hash_tbl_size) × (stops key t j ≡ true)
unfolding probe
probe-stops key zero idx t lt h = absurd (cc)
probe-stops key (suc fuel) idx t lt h = elim (Bool-cases (stops key t idx)) [
  | inl here ↦
      let e : idx ≡ _ = some_inj (sym (probe_here key fuel idx t here) ∙ h) in
      (rw (← e) lt, rw (← e) here)
  | inr on ↦
      probe-stops key fuel ((idx + 1) % hash_tbl_size) t (omega arith)
        (sym (probe_next key fuel idx t on) ∙ h)
]
