-- ===== src/Firmware/Engine/Transcript.antt =====
-- firmware/src/dap.rs: what a step of a plan does on FIFOs that may refuse any word at any time.
use mathlib.Core.Path.{subst}
use rustprobe.Common.{
  ℕ, zero, suc, ◌+◌, ◌-◌, ◌≤◌, ◌<◌, ◌≡◌, refl, sym, ap, ◌∙◌, ◌⊎◌, inl, inr, Bool, true, false,
  Option, none, some, List, [], ◌∷◌, ◌++◌, append_assoc, append-nil, arith, get_or, set,
  if◌then◌else◌, Bool-cases, Option-cases,
}
use rustprobe.Firmware.Engine.{
  Bus, PioSwd, Plan, Cursor, is_pull, try_pulls, try_pushes, step_from, step,
}

-- A word that went through a FIFO.
pub data Word : Type 0 where
  sent received : ℕ → Word

-- `log` is what has gone through the FIFOs: an access moves one word, or it is refused and moves none.
pub record IsFifo {H : Type 0} (hw : Bus H) (log : H → List Word) : Type 0 where
  pub pushed :
      (v : ℕ) (h : H)
      → (hw.try_push v h).0 ≡ true
      → log (hw.try_push v h).1 ≡ log h ++ (sent v ∷ [])
  pub full : (v : ℕ) (h : H) → (hw.try_push v h).0 ≡ false → log (hw.try_push v h).1 ≡ log h
  pub pulled :
      (v : ℕ) (h : H)
      → (hw.try_pull h).0 ≡ some v
      → log (hw.try_pull h).1 ≡ log h ++ (received v ∷ [])
  pub empty : (h : H) → (hw.try_pull h).0 ≡ none → log (hw.try_pull h).1 ≡ log h

abbrev pub after_push : Cursor → Cursor
after_push cur = record cur { idx = cur.idx + 1 }

abbrev pub after_pull : Cursor → ℕ → Cursor
after_pull cur v = record {
  idx = cur.idx + 1;
  n_out = cur.n_out + 1;
  out = set cur.out cur.n_out v;
}

-- The words of the plan's ops from one cursor to another, each once and in order: a push sends its word,
-- and a pull stores the one that it receives.
pub data Performs (plan : Plan) : Cursor → Cursor → List Word → Type 0 where
  nothing : (cur : Cursor) → Performs plan cur cur []
  push_op :
      (cur cur' : Cursor) (words : List Word)
      → is_pull plan cur.idx ≡ false
      → Performs plan (after_push cur) cur' words
      → Performs plan cur cur' (sent (get_or plan.ops cur.idx 0) ∷ words)
  pull_op :
      (cur cur' : Cursor) (v : ℕ) (words : List Word)
      → is_pull plan cur.idx ≡ true
      → Performs plan (after_pull cur v) cur' words
      → Performs plan cur cur' (received v ∷ words)

-- A log behind an access that may have been refused.
abbrev with_sent : Bool → ℕ → List Word → List Word
with_sent ok v l = if ok then l ++ (sent v ∷ []) else l

abbrev with_received : Option ℕ → List Word → List Word
with_received none l = l
with_received (some v) l = l ++ (received v ∷ [])

module _ {H : Type 0} (hw : Bus H) (log : H → List Word) (fifo : IsFifo hw log) where
  try_push-log : (v : ℕ) (h : H) → log (hw.try_push v h).1 ≡ with_sent (hw.try_push v h).0 v (log h)
  try_push-log v h = elim (Bool-cases (hw.try_push v h).0) [
    | inl e ↦ rw e (fifo.pushed v h e)
    | inr e ↦ rw e (fifo.full v h e)
  ]

  try_pull-log : (h : H) → log (hw.try_pull h).1 ≡ with_received (hw.try_pull h).0 (log h)
  try_pull-log h = elim (Option-cases (hw.try_pull h).0) [
    | inl e ↦ rw e (fifo.empty h e)
    | inr (v, e) ↦ rw e (fifo.pulled v h e)
  ]

  try_pushes-log :
      (n v : ℕ) (h : H) → log (try_pushes hw n v h).1 ≡ with_sent (try_pushes hw n v h).0 v (log h)
  unfolding try_pushes
  try_pushes-log zero v h = try_push-log v h
  try_pushes-log (suc n) v h = elim (Bool-cases (hw.try_push v h).0) [
    | inl e ↦ rw (try_pushes, e) (fifo.pushed v h e)
    | inr e ↦
        rw (try_pushes, e)
          (try_pushes-log n v (hw.try_push v h).1
            ∙ ap (with_sent (try_pushes hw n v (hw.try_push v h).1).0 v) (fifo.full v h e))
  ]

  try_pulls-log :
      (n : ℕ) (h : H) → log (try_pulls hw n h).1 ≡ with_received (try_pulls hw n h).0 (log h)
  unfolding try_pulls
  try_pulls-log zero h = try_pull-log h
  try_pulls-log (suc n) h = elim (Option-cases (hw.try_pull h).0) [
    | inr (v, e) ↦ rw (try_pulls, e) (fifo.pulled v h e)
    | inl e ↦
        rw (try_pulls, e)
          (try_pulls-log n (hw.try_pull h).1
            ∙ ap (with_received (try_pulls hw n (hw.try_pull h).1).0) (fifo.empty h e))
  ]

  module _ (plan : Plan) where
    -- How far a run has come: to the end of the plan, or to an op that is refused.
    abbrev pub Ran : Cursor → H → Bool × Cursor × H → Type 0
    Ran cur h (complete, cur', h') =
        (words : List Word) × Performs plan cur cur' words
        × (log h' ≡ log h ++ words)
        × (((complete ≡ true) × (cur'.idx ≡ plan.len))
            ⊎ ((complete ≡ false) × (cur'.idx < plan.len)))

    stopped :
        (cur : Cursor) (h h' : H) → log h' ≡ log h → cur.idx < plan.len → Ran cur h (false, cur, h')
    stopped cur h h' same before =
        ([], nothing cur, same ∙ sym (append-nil (log h)), inr (refl, before))

    went_on :
        (cur cur1 : Cursor) (h h1 : H) (word : Word) (r : Bool × Cursor × H)
        → ((cur' : Cursor) (words : List Word)
            → Performs plan cur1 cur' words
            → Performs plan cur cur' (word ∷ words))
        → log h1 ≡ log h ++ (word ∷ [])
        → Ran cur1 h1 r
        → Ran cur h r
    went_on cur cur1 h h1 word (complete, cur', h') performs grown (words, run, l, ended) = (
      word ∷ words,
      performs cur' words run,
      l ∙ ap (λ t. t ++ words) grown ∙ append_assoc (log h) (word ∷ []) words,
      ended,
    )

    module _ (left spin : ℕ) (cur : Cursor) (h : H) where
      step_pulled :
          (v : ℕ)
          → is_pull plan cur.idx ≡ true
          → (try_pulls hw spin h).0 ≡ some v
          → step_from hw (suc left) spin plan cur h
            ≡ step_from hw left spin plan (after_pull cur v) (try_pulls hw spin h).1
      unfolding step_from
      step_pulled v p e = rw (step_from, p, e) refl

      step_empty :
          is_pull plan cur.idx ≡ true
          → (try_pulls hw spin h).0 ≡ none
          → step_from hw (suc left) spin plan cur h ≡ (false, cur, (try_pulls hw spin h).1)
      unfolding step_from
      step_empty p e = rw (step_from, p, e) refl

      abbrev op : ℕ
      op = get_or plan.ops cur.idx 0

      step_pushed :
          is_pull plan cur.idx ≡ false
          → (try_pushes hw spin op h).0 ≡ true
          → step_from hw (suc left) spin plan cur h
            ≡ step_from hw left spin plan (after_push cur) (try_pushes hw spin op h).1
      unfolding step_from
      step_pushed p e = rw (step_from, p, e) refl

      step_full :
          is_pull plan cur.idx ≡ false
          → (try_pushes hw spin op h).0 ≡ false
          → step_from hw (suc left) spin plan cur h ≡ (false, cur, (try_pushes hw spin op h).1)
      unfolding step_from
      step_full p e = rw (step_from, p, e) refl

    step_from-Ran :
        (left spin : ℕ) (cur : Cursor) (h : H)
        → cur.idx + left ≡ plan.len
        → Ran cur h (step_from hw left spin plan cur h)
    unfolding step_from
    step_from-Ran zero spin cur h e =
        ([], nothing cur, sym (append-nil (log h)), inl (refl, omega (arith, e)))
    step_from-Ran (suc left) spin cur h e = elim (Bool-cases (is_pull plan cur.idx)) [
      | inl p ↦ elim (Option-cases (try_pulls hw spin h).0) [
        | inl out ↦ subst (Ran cur h) (sym (step_empty left spin cur h p out)) (
            stopped cur h _ (try_pulls-log spin h ∙ ap (λ t. with_received t (log h)) out)
              (omega (arith, e)))
        | inr (v, got) ↦ subst (Ran cur h) (sym (step_pulled left spin cur h v p got)) (
            went_on cur (after_pull cur v) h _ (received v) _
              (λ cur' words run. pull_op cur cur' v words p run)
              (try_pulls-log spin h ∙ ap (λ t. with_received t (log h)) got)
              (step_from-Ran left spin (after_pull cur v) _ (omega (arith, e))))
      ]
      | inr p ↦
          let v = get_or plan.ops cur.idx 0 in
          elim (Bool-cases (try_pushes hw spin v h).0) [
            | inl ok ↦ subst (Ran cur h) (sym (step_pushed left spin cur h p ok)) (
                went_on cur (after_push cur) h _ (sent v) _
                  (λ cur' words run. push_op cur cur' words p run)
                  (try_pushes-log spin v h ∙ ap (λ t. with_sent t v (log h)) ok)
                  (step_from-Ran left spin (after_push cur) _ (omega (arith, e))))
            | inr refused ↦ subst (Ran cur h) (sym (step_full left spin cur h p refused)) (
                stopped cur h _ (try_pushes-log spin v h ∙ ap (λ t. with_sent t v (log h)) refused)
                  (omega (arith, e)))
          ]
    ]

-- For FIFOs that may refuse any access at any time, and a cursor that is not behind its plan: a step
-- moves the words of the ops from the cursor to the one that it leaves, each once and in order, and
-- no others; it says that the plan is complete exactly when the cursor it leaves is at the end.
pub step-Performs :
    {H : Type 0} (hw : Bus H) (log : H → List Word) (plan : Plan) (cur : Cursor) (drv : PioSwd H)
    → IsFifo hw log
    → cur.idx ≤ plan.len
    → let (complete, cur', drv') = step hw plan cur drv in
      (words : List Word) × Performs plan cur cur' words
      × (log drv'.bus ≡ log drv.bus ++ words)
      × (((complete ≡ true) × (cur'.idx ≡ plan.len)) ⊎ ((complete ≡ false) × (cur'.idx < plan.len)))
unfolding step
step-Performs hw log plan cur drv fifo before =
    step_from-Ran hw log fifo plan (plan.len - cur.idx) _ cur drv.bus (omega (arith, before))
