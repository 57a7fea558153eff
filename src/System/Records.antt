-- ===== src/System/Records.antt =====
-- The cache table while the threads of the server run.
use mathlib.Core.List.{append_assoc}
use http_exercise.Base.{
  Bool-cases, ℕ, ◌≡◌, sym, ap, ◌∙◌, true, [], ◌∷◌, ◌++◌, inl, inr, none, some, ◌==◌,
}
use http_exercise.Base.Int.{ℤ}
use http_exercise.Exec.{Exec, Exec-cases}
use http_exercise.Constants.{fail}
use http_exercise.CStr.{Bytes}
use http_exercise.JobStack.{
  job_stack_push, push_back_admitted, job_stack_pop, job_stack_signal_finish, push_woken, pop_woken,
}
use http_exercise.UtHash.{UtHash}
use http_exercise.BlockTable.{TableElement}
use http_exercise.CacheRecord.{ActionStatus, CacheTable, cache_record_close}
use http_exercise.CacheRecord.Grants.{Grants, Shared}
use http_exercise.CacheRecord.Share.{Released, close-Released}
use http_exercise.Thread.{
  Thread, done, crash, loops, time, get_record, record_name, close_record, push, parked_push,
  push_back, admitted_push_back, pop, parked_pop, signal_finish, print, close_fd, destruct,
}
use http_exercise.Thread.Closes.{Closes}
use http_exercise.Worker.Main.Records.{Any}
use http_exercise.SafeFile.{safe_write}
use http_exercise.System.{stack_of, step}
use http_exercise.System.Calls.{
  Info, Sound, get_record-Sound, record_name-Sound, stack_step, woken_step, through,
  after_call-Sound,
}

module _ (blocks_hash : UtHash TableElement) (hash : UtHash ℕ) (shell : Bytes → Bytes)
    (ttl : ℤ) where
  module _ {A : Type 0} where
    close_record-Sound :
        (pre h g before after : Grants) (s : Info blocks_hash hash shell ttl) (p : ℕ)
        (a : ActionStatus) (t : Thread A) (now later : ℕ)
        → g ≡ before ++ (p, a) ∷ after
        → Closes true Any (before ++ after) t
        → Shared (s.cache_table.records) (pre ++ (g ++ h))
        → Sound blocks_hash hash shell ttl pre h
            (step blocks_hash hash shell ttl now later s (close_record (some p) a t))
    unfolding step
    close_record-Sound pre h g before after s p a t now later e c sh = elim (Exec-cases run) [
      | inl f ↦ rw f tt
      | inr (t', r) ↦ rw r (
        before ++ after,
        c,
        rw (append_assoc before after h, sym (append_assoc pre before (after ++ h)))
            (rw r at released),
      )
    ]
      where
        run : Exec (CacheTable hash shell ttl)
        run = cache_record_close hash shell ttl s.cache_table (some p) a

        split : pre ++ (g ++ h) ≡ (pre ++ before) ++ (p, a) ∷ (after ++ h)
        split =
            ap (λ l. pre ++ (l ++ h)) e
            ∙ ap (λ l. pre ++ l) (append_assoc before ((p, a) ∷ after) h)
            ∙ sym (append_assoc pre before ((p, a) ∷ (after ++ h)))

        released : Released hash shell ttl ((pre ++ before) ++ (after ++ h)) run
        released =
            close-Released hash shell ttl s.cache_table p a (pre ++ before) (after ++ h)
              (rw split at sh)

    no_record :
        (pre h : Grants) (s : Info blocks_hash hash shell ttl) (a : ActionStatus) (t : Thread A)
        (now later : ℕ)
        → Sound blocks_hash hash shell ttl pre h
            (step blocks_hash hash shell ttl now later s (close_record none a t))
    unfolding step cache_record_close
    no_record pre h s a t now later = tt

    -- A step of one thread, whatever the others hold.
    pub step-Sound :
        (pre g h : Grants) (s : Info blocks_hash hash shell ttl) (t : Thread A) (now later : ℕ)
        → Closes true Any g t
        → Shared (s.cache_table.records) (pre ++ (g ++ h))
        → Sound blocks_hash hash shell ttl pre h (step blocks_hash hash shell ttl now later s t)
    unfolding step
    step-Sound pre g h s (done a) now later c sh = (g, c, sh)
    step-Sound pre g h s crash now later c sh = tt
    step-Sound pre g h s loops now later c sh = (g, c, sh)
    step-Sound pre g h s (time k) now later c sh = (g, c now, sh)
    step-Sound pre g h s (get_record url k) now later c sh =
        get_record-Sound blocks_hash hash shell ttl pre g h s sh url k now later c
    step-Sound pre g h s (record_name ptr k) now later c sh =
        record_name-Sound blocks_hash hash shell ttl pre g h s sh ptr k now later c
    step-Sound pre g h s (close_record none a t) now later c sh = no_record pre h s a t now later
    step-Sound pre g h s (close_record (some p) a t) now later (before, after, e, c) sh =
        close_record-Sound pre h g before after s p a t now later e c sh
    step-Sound pre g h s (push q job k) now later (e, c) sh =
        stack_step blocks_hash hash shell ttl pre g h s sh q (λ stack. job_stack_push stack job) k
          (parked_push q job k) (push q job k) c (e, c) (e, c)
    step-Sound pre g h s (parked_push q job k) now later (e, c) sh =
        woken_step blocks_hash hash shell ttl pre g h s sh q (λ stack. stack.not_full.woken == 0)
          push_woken k (parked_push q job k) c (e, c)
    step-Sound pre g h s (push_back q job k) now later (e, c) sh =
        through blocks_hash hash shell ttl pre g h s sh (stack_of blocks_hash hash shell ttl q s) _
          (λ stack. elim (Bool-cases stack.is_finished) [
            | inl f ↦ rw f (g, c fail, sh)
            | inr f ↦ rw f (g, (e, c), sh)
          ])
    step-Sound pre g h s (admitted_push_back q job k) now later (e, c) sh =
        stack_step blocks_hash hash shell ttl pre g h s sh q (λ stack. push_back_admitted stack job)
          k (admitted_push_back q job k) (admitted_push_back q job k) c (e, c) (e, c)
    step-Sound pre g h s (pop q k) now later (e, c) sh =
        stack_step blocks_hash hash shell ttl pre g h s sh q job_stack_pop (λ r. k r.0 r.1)
          (parked_pop q k) (pop q k) (λ r. c r.0 r.1) (e, c) (e, c)
    step-Sound pre g h s (parked_pop q k) now later (e, c) sh =
        woken_step blocks_hash hash shell ttl pre g h s sh q (λ stack. stack.not_empty.woken == 0)
          pop_woken (λ r. k r.0 r.1) (parked_pop q k) (λ r. c r.0 r.1) (e, c)
    step-Sound pre g h s (signal_finish q t) now later c sh =
        through blocks_hash hash shell ttl pre g h s sh (stack_of blocks_hash hash shell ttl q s) _
          (λ stack.
            after_call-Sound blocks_hash hash shell ttl pre g h s sh q (λ status. t) t
              (signal_finish q t) (job_stack_signal_finish stack) (λ status. c) c c)
    step-Sound pre g h s (print text t) now later c sh =
        through blocks_hash hash shell ttl pre g h s sh (safe_write s.std_out (text ++ 0 ∷ [])) _
          (λ file. (g, c, sh))
    step-Sound pre g h s (close_fd fd t) now later c sh = (g, c, sh)
    step-Sound pre g h s (destruct job t) now later (e, c) sh = (g, c, sh)
