-- ===== src/Autobaud/Counts.antt =====
-- autobaud-estimator/src/lib.rs: `insert` and `get_count` on the same key.
use rustprobe.Common.{
  ℕ, zero, suc, ◌+◌, ◌-◌, ◌%◌, ◌^◌, ◌<◌, ◌≡◌, ◌≢◌, ◌↔◌, refl, sym, ap, ◌∙◌, inl, inr, true, false,
  ◌||◌, none, some, [], ◌∷◌, arith, ◌==◌, set, length, Bool-cases, Option-cases, some_inj,
}
use rustprobe.Autobaud.{
  Entry, Table, hash_tbl_size, slot, hash, probe, counted, count_of, insert, get_count,
}
use rustprobe.Autobaud.Probing.{stops, probe_reaches, probe-stops, probe_here, probe_next}

hash-lt : (key : ℕ) → hash key < hash_tbl_size
unfolding hash
hash-lt key = omega arith

probe-ends :
    (key : ℕ) (t : Table) (i : ℕ)
    → i < hash_tbl_size
    → stops key t i ≡ true
    → (j : ℕ) × (probe key hash_tbl_size (hash key) t ≡ some j)
probe-ends key t i lt s =
    let h = hash-lt key in
    let d = (i + hash_tbl_size - hash key) % hash_tbl_size in
    let there : i ≡ (hash key + d) % hash_tbl_size = omega (arith, h, lt) in
    probe_reaches key hash_tbl_size (hash key) d t (omega arith) (rw there at s) h

-- Counting a pulse width ends exactly when some slot of the table is empty or holds that width; if
-- all slots hold other widths, the probing goes round for ever.
pub insert_iff :
    (key : ℕ) (t : Table)
    → (insert key t ≢ none) ↔ ((i : ℕ) × (i < hash_tbl_size) × (stops key t i ≡ true))
unfolding insert
insert_iff key t = (
  (λ h. elim (Option-cases (probe key hash_tbl_size (hash key) t)) [
    | inl e ↦ absurd (h (rw (e, insert)))
    | inr (j, e) ↦
        let (lt, s) = probe-stops key hash_tbl_size (hash key) t (hash-lt key) e in (j, lt, s)
  ]),
  (λ (i, lt, s) e. (let (j, found) = probe-ends key t i lt s in cc (rw (found, insert) at e))),
)

get_or-set : (t : Table) (j : ℕ) (e : Entry) → j < length t → slot (set t j e) j ≡ e
get_or-set [] j e h = absurd (omega arith)
get_or-set (x ∷ t) zero e h = refl
get_or-set (x ∷ t) (suc j) e h = get_or-set t j e (omega arith)

get_or-set_other : (t : Table) (i j : ℕ) (e : Entry) → i ≢ j → slot (set t j e) i ≡ slot t i
get_or-set_other [] i j e h = refl
get_or-set_other (x ∷ t) zero zero e h = absurd (h refl)
get_or-set_other (x ∷ t) zero (suc j) e h = refl
get_or-set_other (x ∷ t) (suc i) zero e h = refl
get_or-set_other (x ∷ t) (suc i) (suc j) e h = get_or-set_other t i j e (λ p. h (ap suc p))

-- The probing stops at the same slot once that slot holds the key.
probe-set :
    (key fuel idx j : ℕ) (t : Table) (e : Entry)
    → e.key ≡ key
    → j < length t
    → probe key fuel idx t ≡ some j
    → probe key fuel idx (set t j e) ≡ some j
unfolding probe
probe-set key zero idx j t e same lt h = absurd cc
probe-set key (suc fuel) idx j t e same lt h = elim (Bool-cases (idx == j)) [
  | inl at ↦
      let at_j : idx ≡ j = ground arith in
      let held : (slot (set t j e) j).key ≡ key = rw (get_or-set t j e lt) same in
      let s : stops key (set t j e) j ≡ true = ground (arith, held) in
      rw at_j (probe_here key fuel j (set t j e) s)
  | inr off ↦
      let keep : slot (set t j e) idx ≡ slot t idx =
        get_or-set_other t idx j e (λ p. ground arith) in
      elim (Bool-cases (stops key t idx)) [
        | inl s ↦
            absurd
              (let p : idx ≡ j = some_inj (sym (probe_here key fuel idx t s) ∙ h) in ground arith)
        | inr on ↦
            let on' : stops key (set t j e) idx ≡ false =
              ap (λ (x : Entry). x.key == 0 || x.key == key) keep ∙ on in
            probe_next key fuel idx (set t j e) on'
            ∙ probe-set key fuel ((idx + 1) % hash_tbl_size) j t e same lt
                (sym (probe_next key fuel idx t on) ∙ h)
      ]
]

count_of-counted :
    (key : ℕ) (e : Entry) → key ≢ 0 → count_of (counted key e) ≡ (count_of e + 1) % 2 ^ 32
count_of-counted key e pos = ground arith

key-counted :
    (key : ℕ) (e : Entry) → (e.key == 0 || e.key == key) ≡ true → (counted key e).key ≡ key
key-counted key e s = ground arith

-- If counting a pulse width other than zero in a table of 500 slots ends, the width's count was
-- `n` for some `n` and is one more afterwards, modulo 2 ^ 32.
pub get_count-insert :
    (key : ℕ) (t : Table) {t' : Table}
    → key ≢ 0
    → length t ≡ hash_tbl_size
    → insert key t ≡ some t'
    → (n : ℕ) × (get_count key t ≡ some n) × (get_count key t' ≡ some ((n + 1) % 2 ^ 32))
unfolding insert get_count
get_count-insert key t pos size h = elim (Option-cases (probe key hash_tbl_size (hash key) t)) [
  | inl e ↦ absurd (cc (rw (e, insert) at h))
  | inr (j, e) ↦
      let (lt, s) = probe-stops key hash_tbl_size (hash key) t (hash-lt key) e in
      let within : j < length t = omega (arith, size) in
      let entry = counted key (slot t j) in
      let run : set t j entry ≡ _ = some_inj (rw (e, insert) at h) in
      let again =
        probe-set key hash_tbl_size (hash key) j t entry (key-counted key (slot t j) s) within e in
      let more : count_of (slot (set t j entry) j) ≡ (count_of (slot t j) + 1) % 2 ^ 32 =
        ap count_of (get_or-set t j entry within) ∙ count_of-counted key (slot t j) pos in
      (count_of (slot t j), rw (e, get_count), rw (← run) (rw (again, get_count) (ap some more)))
]
