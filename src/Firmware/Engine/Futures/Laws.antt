-- ===== src/Firmware/Engine/Futures/Laws.antt =====
-- firmware/src/dap.rs: what the loop over an inner future comes to, however often it is pending.
use rustprobe.Common.{
  ℕ, zero, suc, ◌≤◌, ◌≡◌, refl, sym, ◌⊎◌, inl, inr, Option, some, arith, some_inj,
}
use mathlib.Core.Path.{subst}
use rustprobe.Firmware.Engine.{Poll, ready, pending}
use rustprobe.Firmware.Engine.Futures.{Next, again, finish, ready_loop, await}

Poll-cases : {R : Type 0} (p : Poll R) → (p ≡ pending) ⊎ ((r : R) × (p ≡ ready r))
Poll-cases (ready r) = inr (r, refl)
Poll-cases pending = inl refl

-- Some number of polls is enough, and then this is the result.
pub record Finishes {S D R : Type 0} (others : D → D) (poll : S → D → Poll R × S × D) (s : S)
    (d : D) (r : R) (s' : S) (d' : D) : Type 0 where
  pub polls : ℕ
  pub result : await others poll polls s d ≡ some (r, s', d')

-- The same behind a poll: the result is there, or the next polls have it.
pub record Resumes {S D R : Type 0} (others : D → D) (poll : S → D → Poll R × S × D)
    (now : Poll R × S × D) (r : R) (s' : S) (d' : D) : Type 0 where
  pub polls : ℕ
  pub result :
      (elim now.0 as (λ _. Option (R × S × D)) [
        | ready r ↦ some (r, now.1, now.2)
        | pending ↦ await others poll polls now.1 (others now.2)
      ])
      ≡ some (r, s', d')

module _ {S D R : Type 0} {others : D → D} {poll : S → D → Poll R × S × D} where
  pub finishes_lem :
      {s s' : S} {d d' : D} {r : R}
      → Resumes others poll (poll s d) r s' d'
      → Finishes others poll s d r s' d'
  unfolding await
  finishes_lem h = record { polls = suc h.polls; result = h.result }

  pub pending-Resumes :
      {s s' : S} {d d' : D} {r : R}
      → Finishes others poll s (others d) r s' d'
      → Resumes others poll (pending, s, d) r s' d'
  pending-Resumes h = record { polls = h.polls; result = h.result }

  pub ready-Resumes : {s : S} {d : D} {r : R} → Resumes others poll (ready r, s, d) r s d
  ready-Resumes = record { polls = 0; result = refl }

module _ {O X D T R : Type 0} (others : D → D) (inner : O → X → D → Poll T × X × D)
    (decide : O → T → Next O R) (rounds : O → ℕ) where
  abbrev pub loop_poll : O × X → D → Poll R × (O × X) × D
  loop_poll s d = ready_loop inner decide (rounds s.0) s d

  -- With `k` rounds or more in this poll, the loop comes to the result.
  pub record Leads (k : ℕ) (o : O) (x : X) (d : D) (r : R) (s' : O × X) (d' : D) : Type 0 where
    pub leads :
        (m : ℕ) → k ≤ m → Resumes others loop_poll (ready_loop inner decide m (o, x) d) r s' d'

  pub loop_poll-Finishes :
      {k : ℕ} {o : O} {x : X} {d d' : D} {r : R} {s' : O × X}
      → Leads k o x d r s' d'
      → k ≤ rounds o
      → Finishes others loop_poll (o, x) d r s' d'
  loop_poll-Finishes {o = o} h enough = finishes_lem (h.leads (rounds o) enough)

  pub more_rounds :
      {k k' : ℕ} {o : O} {x : X} {d d' : D} {r : R} {s' : O × X}
      → Leads k o x d r s' d'
      → k ≤ k'
      → Leads k' o x d r s' d'
  more_rounds h low = record { leads = λ m enough. h.leads m (omega arith) }

  -- The inner future is polled until it is ready, in as many polls of the loop as that takes; then
  -- the loop decides.
  module _ (k : ℕ) (o : O) (t : T) (x' : X) (d' : D) (r : R) (s'' : O × X) (d'' : D)
      (enough : suc k ≤ rounds o)
      (then_on : (m : ℕ)
        → k ≤ m
        → Resumes others loop_poll
            (elim (decide o t) [
              | finish o' r ↦ (ready r, (o', x'), d')
              | again o' ↦ ready_loop inner decide m (o', x') d'
            ])
            r
            s''
            d'') where
    after_poll :
        (f m : ℕ) (p : Poll T) (x : X) (d : D)
        → ((x : X) (d : D)
            → await others (inner o) f x d ≡ some (t, x', d')
            → Resumes others loop_poll (loop_poll (o, x) d) r s'' d'')
        → (elim p as (λ _. Option (T × X × D)) [
          | ready t ↦ some (t, x, d)
          | pending ↦ await others (inner o) f x (others d)
        ])
          ≡ some (t, x', d')
        → k ≤ m
        → Resumes others loop_poll
            (elim p as (λ _. Poll R × (O × X) × D) [
              | pending ↦ (pending, (o, x), d)
              | ready t ↦ elim (decide o t) [
                | finish o' r ↦ (ready r, (o', x), d)
                | again o' ↦ ready_loop inner decide m (o', x) d
              ]
            ])
            r
            s''
            d''
    after_poll f m pending x d ih e h = pending-Resumes (finishes_lem (ih x (others d) e))
    after_poll f m (ready u) x d ih e h =
        let same = some_inj e in
        let goal : (v : T × X × D) → Type 0 = λ v.
          Resumes others loop_poll
            (elim (decide o v.0) as (λ _. Poll R × (O × X) × D) [
              | finish o' r ↦ (ready r, (o', v.1), v.2)
              | again o' ↦ ready_loop inner decide m (o', v.1) v.2
            ])
            r s'' d'' in
        subst goal (sym same) (then_on m h)

    inner_lem :
        (f : ℕ) (x : X) (d : D)
        → await others (inner o) f x d ≡ some (t, x', d')
        → (m : ℕ) → suc k ≤ m
        → Resumes others loop_poll (ready_loop inner decide m (o, x) d) r s'' d''
    unfolding await ready_loop
    inner_lem zero x d e m h = absurd (ground arith)
    inner_lem (suc f) x d e zero h = absurd (omega arith)
    inner_lem (suc f) x d e (suc m) h =
        after_poll f m (inner o x d).0 (inner o x d).1 (inner o x d).2
          (λ x1 d1 e1. inner_lem f x1 d1 e1 (rounds o) enough) e (omega arith)

  -- The two ways on: the loop returns, or it goes on with another state.
  pub finish-Leads :
      {o o' : O} {x x' : X} {d d' : D} {t : T} {r : R}
      → Finishes others (inner o) x d t x' d'
      → decide o t ≡ finish o' r
      → 1 ≤ rounds o
      → Leads 1 o x d r (o', x') d'
  finish-Leads {o = o} {o' = o'} {x = x} {x' = x'} {d = d} {d' = d'} {t = t} {r = r} h e enough =
      record {
        leads =
            inner_lem 0 o t x' d' r (o', x') d' enough (λ m _. rw e ready-Resumes) h.polls x d
              h.result;
      }

  pub again-Leads :
      {o o' : O} {x x' : X} {d d' d'' : D} {t : T} {r : R} {s'' : O × X} {k : ℕ}
      → Finishes others (inner o) x d t x' d'
      → decide o t ≡ again o'
      → suc k ≤ rounds o
      → Leads k o' x' d' r s'' d''
      → Leads (suc k) o x d r s'' d''
  again-Leads {o = o} {x = x} {x' = x'} {d = d} {d' = d'} {d'' = d''} {t = t} {r = r} {s'' = s''}
        {k = k} h e enough l =
      record {
        leads =
            inner_lem k o t x' d' r s'' d'' enough (λ m low. rw e (l.leads m low)) h.polls x d
              h.result;
      }
