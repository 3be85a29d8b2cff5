-- ===== src/Dap/Transfers/Steps.antt =====
-- dap-async/src/dap.rs: single steps of DAP_Transfer on a target whose AP reads are posted.
use rustprobe.Common.{ℕ, ◌≡◌, true, false, some, List, ◌==◌, bit_and, bit_or}
use rustprobe.Dap.Io.{Response, put_u32}
use rustprobe.Dap.Swd.{apndp, match_value, timestamp, rdbuff_read, ack_ok, Transfer}
use rustprobe.Dap.Machine.{Probe, Dap, Machine, Action}
use rustprobe.Dap.Machine.Runs.{
  Runs, bind, after, pure-Runs, respond-Runs, gets-Runs, drive-Runs, if_true, if_false,
}
use rustprobe.Dap.Transfers.{
  Progress, Flow, go_on, is_set, proceed, check, xfer, stamp, collect, collect_last,
}

module _ {D T : Type 0} where
  pub proceed_go :
      {m : Action D T Flow} (k : Progress → Action D T Flow) {s s' s'' : Machine D T} {p : Progress}
      {f : Flow}
      → Runs m s (go_on p) s'
      → Runs (k p) s' f s''
      → Runs (proceed m k) s f s''
  proceed_go k h g = bind _ h g

  pub proceed_ok :
      (p : Progress) (ack : ℕ) (k : Progress → Action D T Flow) {s s' : Machine D T} {f : Flow}
      → ack ≡ ack_ok
      → Runs (k (record p { status = ack })) s f s'
      → Runs (proceed (check p ack) k) s f s'
  proceed_ok p ack k e h =
      let good : (ack == ack_ok) ≡ true = rw e in proceed_go k (record { ran = rw good }) h

module _ {D T : Type 0} (probe : Probe D) (dap : Dap D T) where
  -- The machines of a sequence of plain transfers differ in their driver, request and reply.
  abbrev pub machine : D → List ℕ → Response → Machine D T
  machine d req resp = record { dap = record dap { driver = d }; req = req; resp = resp }

  abbrev pub answer : ℕ → ℕ → D → Transfer × D
  answer rv word d = probe.retry dap.params dap.wait_retries rv word d

  pub xfer-Runs :
      (rv word : ℕ) (d : D) (req : List ℕ) (resp : Response)
      → Runs
          (xfer probe rv word)
          (machine d req resp)
          (answer rv word d).0
          (machine (answer rv word d).1 req resp)
  unfolding xfer
  xfer-Runs rv word d req resp = bind _ (gets-Runs _) (bind _ (gets-Runs _) (drive-Runs _))

  pub stamp_none :
      (rv : ℕ) (s : Machine D T) → is_set rv timestamp ≡ false → Runs (stamp probe rv) s tt s
  unfolding stamp
  stamp_none rv s e = bind _ (gets-Runs _) (if_false _ e pure-Runs)

  pub collect_none :
      (rv : ℕ) (p : Progress) (s : Machine D T)
      → p.post_read ≡ false
      → Runs (collect probe rv p) s (go_on p) s
  unfolding collect
  collect_none rv p s e = if_false _ e pure-Runs

  module _ (rv : ℕ) (p : Progress) (d : D) (req : List ℕ) (resp : Response) (r : Response)
      (post : p.post_read ≡ true) where
    pub collect_ap :
        (bit_and rv (bit_or apndp match_value) == apndp) ≡ true
        → is_set rv timestamp ≡ false
        → (answer rv 0 d).0.ack ≡ ack_ok
        → put_u32 (answer rv 0 d).0.word resp ≡ some r
        → Runs
            (collect probe rv p)
            (machine d req resp)
            (go_on (record p { post_read = true; status = (answer rv 0 d).0.ack }))
            (machine (answer rv 0 d).1 req r)
    unfolding collect
    collect_ap plain no_stamp ok_ack put =
        rw (collect, post, plain)
          (bind _ (xfer-Runs rv 0 d req resp) (
            proceed_ok (record p { post_read = true }) _ _ ok_ack
              (after (respond-Runs _ put)
                (after (if_true _ plain (stamp_none rv _ no_stamp)) pure-Runs))))

    pub collect_rdbuff :
        (bit_and rv (bit_or apndp match_value) == apndp) ≡ false
        → (answer rdbuff_read 0 d).0.ack ≡ ack_ok
        → put_u32 (answer rdbuff_read 0 d).0.word resp ≡ some r
        → Runs
            (collect probe rv p)
            (machine d req resp)
            (go_on (record p { post_read = false; status = (answer rdbuff_read 0 d).0.ack }))
            (machine (answer rdbuff_read 0 d).1 req r)
    unfolding collect
    collect_rdbuff plain ok_ack put =
        rw (collect, post, plain)
          (bind _ (xfer-Runs rdbuff_read 0 d req resp) (
            proceed_ok (record p { post_read = false }) _ _ ok_ack
              (after (respond-Runs _ put) (after (if_false _ plain pure-Runs) pure-Runs))))

    pub collect_last_posted :
        (answer rdbuff_read 0 d).0.ack ≡ ack_ok
        → put_u32 (answer rdbuff_read 0 d).0.word resp ≡ some r
        → Runs
            (collect_last probe p)
            (machine d req resp)
            (go_on (record p { post_read = false; status = (answer rdbuff_read 0 d).0.ack }))
            (machine (answer rdbuff_read 0 d).1 req r)
    unfolding collect_last
    collect_last_posted ok_ack put = if_true _ post (
        bind _ (xfer-Runs rdbuff_read 0 d req resp)
          (proceed_ok p _ _ ok_ack (after (respond-Runs _ put) pure-Runs)))

  pub collect_last_none :
      (p : Progress) (s : Machine D T)
      → p.post_read ≡ false
      → Runs (collect_last probe p) s (go_on p) s
  unfolding collect_last
  collect_last_none p s e = if_false _ e pure-Runs
