-- ===== src/System/Stays.antt =====
-- What all calls keep true of a stack, over the steps of the server.
use mathlib.Core.Path.{subst}
use http_exercise.Base.{
  List, ℕ, ◌≡◌, refl, sym, ◌∙◌, Bool, [], ◌∷◌, inl, inr, none, some, ◌==◌, get_elem?, Bool-cases,
  Option-cases, if◌then◌else◌, ◌++◌,
}
use http_exercise.Exec.{Exec, ok, fault, ◌>>=◌, Exec-cases, ok-injective}
use http_exercise.CStr.{Bytes}
use http_exercise.Base.Int.{ℤ, pos}
use http_exercise.Job.{Job}
use http_exercise.JobStack.{
  Call, returns, waits, blocks, JobStack, job_stack_push, push_back_admitted, job_stack_pop,
  job_stack_signal_finish, push_woken, pop_woken,
}
use http_exercise.UtHash.{UtHash}
use http_exercise.BlockTable.{TableElement}
use http_exercise.CacheRecord.{CacheTable, cache_record_get_or_create, cache_record_close}
use http_exercise.SafeFile.{SafeFile, safe_write}
use http_exercise.Thread.{
  Queue, clients, prefetches, Thread, done, crash, loops, time, get_record, record_name,
  close_record, push, parked_push, push_back, admitted_push_back, pop, parked_pop, signal_finish,
  print, close_fd, destruct,
}
use http_exercise.System.{stack_of, put_stack, after_call, step}
use http_exercise.System.Runs.{Info, Move, Reach, here, there, start, next}
use http_exercise.System.Kept.{Leaves, AllLeave, Preserved}

module _ (blocks_hash : UtHash TableElement) (hash : UtHash ℕ) (shell : Bytes → Bytes) (ttl : ℤ)
    (P : JobStack Job → Type 0) (all_keep : Preserved P) where
  -- a stack that is there and has `P`
  pub record Has (q : Queue) (s : Info blocks_hash hash shell ttl) : Type 0 where
    pub stack : JobStack Job
    pub is : stack_of blocks_hash hash shell ttl q s ≡ ok stack
    pub holds : P stack

  pub same_stack :
      {q : Queue} {s : Info blocks_hash hash shell ttl} {stack : JobStack Job}
      → Has q s
      → stack_of blocks_hash hash shell ttl q s ≡ ok stack
      → P stack
  same_stack l e = subst P (ok-injective (sym l.is ∙ e)) l.holds

  kept :
      (q : Queue) (s : Info blocks_hash hash shell ttl) (table : CacheTable hash shell ttl)
      → Has q s
      → Has q (record s { cache_table = table })
  unfolding stack_of
  kept clients s table l = record { stack = l.stack; is = l.is; holds = l.holds }
  kept prefetches s table l = record { stack = l.stack; is = l.is; holds = l.holds }

  kept_out :
      (q : Queue) (s : Info blocks_hash hash shell ttl) (file : SafeFile)
      → Has q s
      → Has q (record s { std_out = file })
  unfolding stack_of
  kept_out clients s file l = record { stack = l.stack; is = l.is; holds = l.holds }
  kept_out prefetches s file l = record { stack = l.stack; is = l.is; holds = l.holds }

  module _ {A : Type 0} where
    abbrev pub StillHas : Queue → Exec (Info blocks_hash hash shell ttl × Thread A) → Type 0
    StillHas q fault = Unit
    StillHas q (ok (s, t)) = Has q s

    -- A call on one stack, seen from a stack that has `P`.
    after_call-Has :
        {R : Type 0} (q q' : Queue) (s : Info blocks_hash hash shell ttl) (stack : JobStack Job)
        (go : R → Thread A) (parked here' : Thread A) (call : Call (JobStack Job) R)
        → Has q s
        → stack_of blocks_hash hash shell ttl q' s ≡ ok stack
        → (P stack → Leaves P call)
        → Has q (after_call blocks_hash hash shell ttl q' s go parked here' call).0
    unfolding after_call stack_of put_stack
    after_call-Has q q' s stack go parked here' blocks l e f = l
    after_call-Has clients prefetches s stack go parked here' (returns r st) l e f = record {
      stack = l.stack;
      is = l.is;
      holds = l.holds;
    }
    after_call-Has clients prefetches s stack go parked here' (waits st) l e f = record {
      stack = l.stack;
      is = l.is;
      holds = l.holds;
    }
    after_call-Has prefetches clients s stack go parked here' (returns r st) l e f = record {
      stack = l.stack;
      is = l.is;
      holds = l.holds;
    }
    after_call-Has prefetches clients s stack go parked here' (waits st) l e f = record {
      stack = l.stack;
      is = l.is;
      holds = l.holds;
    }
    after_call-Has clients clients s stack go parked here' (returns r st) l e f = record {
      stack = st;
      is = refl;
      holds = f (same_stack l e);
    }
    after_call-Has clients clients s stack go parked here' (waits st) l e f = record {
      stack = st;
      is = refl;
      holds = f (same_stack l e);
    }
    after_call-Has prefetches prefetches s stack go parked here' (returns r st) l e f = record {
      stack = st;
      is = refl;
      holds = f (same_stack l e);
    }
    after_call-Has prefetches prefetches s stack go parked here' (waits st) l e f = record {
      stack = st;
      is = refl;
      holds = f (same_stack l e);
    }

    stack_step :
        {R : Type 0} (q q' : Queue) (s : Info blocks_hash hash shell ttl)
        (call : JobStack Job → Exec (Call (JobStack Job) R)) (go : R → Thread A)
        (parked here' : Thread A)
        → Has q s
        → ((stack : JobStack Job) → P stack → AllLeave P (call stack))
        → StillHas q (
            stack_of blocks_hash hash shell ttl q' s >>= λ stack. call stack >>= λ result.
            ok (after_call blocks_hash hash shell ttl q' s go parked here' result))
    stack_step q q' s call go parked here' l f =
        elim (Exec-cases (stack_of blocks_hash hash shell ttl q' s)) [
          | inl e ↦ rw e tt
          | inr (stack, e) ↦ rw e (elim (Exec-cases (call stack)) [
            | inl c ↦ rw c tt
            | inr (result, c) ↦ rw c (
                after_call-Has q q' s stack go parked here' result l e
                  (λ h. let left = f stack h in rw c at left))
          ])
        ]

    woken_step :
        {R : Type 0} (q q' : Queue) (s : Info blocks_hash hash shell ttl)
        (test : JobStack Job → Bool) (call : JobStack Job → Call (JobStack Job) R)
        (go : R → Thread A) (here' : Thread A)
        → Has q s
        → ((stack : JobStack Job) → P stack → Leaves P (call stack))
        → StillHas q (
            stack_of blocks_hash hash shell ttl q' s >>= λ stack.
            if test stack
            then ok (s, here')
            else ok (after_call blocks_hash hash shell ttl q' s go here' here' (call stack)))
    woken_step q q' s test call go here' l f =
        elim (Exec-cases (stack_of blocks_hash hash shell ttl q' s)) [
          | inl e ↦ rw e tt
          | inr (stack, e) ↦ rw e (elim (Bool-cases (test stack)) [
            | inl b ↦ rw b l
            | inr b ↦ rw b (after_call-Has q q' s stack go here' here' (call stack) l e (f stack))
          ])
        ]

    pub step-StillHas :
        (q : Queue) (s : Info blocks_hash hash shell ttl) (t : Thread A) (now later : ℕ)
        → Has q s
        → StillHas q (step blocks_hash hash shell ttl now later s t)
    unfolding step
    step-StillHas q s (done a) now later l = l
    step-StillHas q s crash now later l = tt
    step-StillHas q s loops now later l = l
    step-StillHas q s (time k) now later l = l
    step-StillHas q s (get_record url k) now later l =
        elim (Exec-cases
          (cache_record_get_or_create hash shell ttl s.cache_table url (pos now) (pos later))) [
            | inl e ↦ rw e tt
            | inr (r, e) ↦ rw e (kept q s _ l)
          ]
    step-StillHas q s (record_name none k) now later l = tt
    step-StillHas q s (record_name (some p) k) now later l =
        elim (Option-cases (get_elem? s.cache_table.records p)) [
          | inl e ↦ rw (e, StillHas) tt
          | inr (r, e) ↦ rw (e, StillHas) l
        ]
    step-StillHas q s (close_record ptr a t) now later l =
        elim (Exec-cases (cache_record_close hash shell ttl s.cache_table ptr a)) [
          | inl e ↦ rw e tt
          | inr (r, e) ↦ rw e (kept q s _ l)
        ]
    step-StillHas q s (push q' job k) now later l =
        stack_step q q' s (λ stack. job_stack_push stack job) k (parked_push q' job k)
          (push q' job k) l (all_keep.on_push job)
    step-StillHas q s (parked_push q' job k) now later l =
        woken_step q q' s (λ stack. stack.not_full.woken == 0) push_woken k (parked_push q' job k) l
          all_keep.on_push_woken
    step-StillHas q s (push_back q' job k) now later l =
        elim (Exec-cases (stack_of blocks_hash hash shell ttl q' s)) [
          | inl e ↦ rw e tt
          | inr (stack, e) ↦
              rw e (elim (Bool-cases stack.is_finished) [ inl f ↦ rw f l | inr f ↦ rw f l ])
        ]
    step-StillHas q s (admitted_push_back q' job k) now later l =
        stack_step q q' s (λ stack. push_back_admitted stack job) k (admitted_push_back q' job k)
          (admitted_push_back q' job k) l (all_keep.on_push_back job)
    step-StillHas q s (pop q' k) now later l =
        stack_step q q' s job_stack_pop (λ r. k r.0 r.1) (parked_pop q' k) (pop q' k) l
          all_keep.on_pop
    step-StillHas q s (parked_pop q' k) now later l =
        woken_step q q' s (λ stack. stack.not_empty.woken == 0) pop_woken (λ r. k r.0 r.1)
          (parked_pop q' k) l all_keep.on_pop_woken
    step-StillHas q s (signal_finish q' t) now later l =
        stack_step q q' s (λ stack. ok (job_stack_signal_finish stack)) (λ status. t) t
          (signal_finish q' t) l all_keep.on_signal_finish
    step-StillHas q s (print text t) now later l =
        elim (Exec-cases (safe_write s.std_out (text ++ 0 ∷ []))) [
          | inl e ↦ rw e tt
          | inr (r, e) ↦ rw e (kept_out q s _ l)
        ]
    step-StillHas q s (close_fd fd t) now later l = l
    step-StillHas q s (destruct job t) now later l = l

    pub Move-Has :
        (q : Queue) {s : Info blocks_hash hash shell ttl} {ts : List (Thread A)}
        {s' : Info blocks_hash hash shell ttl} {ts' : List (Thread A)}
        → Move blocks_hash hash shell ttl s ts s' ts'
        → Has q s
        → Has q s'
    Move-Has q {s} (here {t} now later e) l = rw e at (step-StillHas q s t now later l)
    Move-Has q (there m) l = Move-Has q m l

    pub Reach-Has :
        (q : Queue) (s : Info blocks_hash hash shell ttl) (ts : List (Thread A))
        {s' : Info blocks_hash hash shell ttl} {ts' : List (Thread A)}
        → Reach blocks_hash hash shell ttl s ts s' ts'
        → Has q s
        → Has q s'
    Reach-Has q s ts start l = l
    Reach-Has q s ts (next r m) l = Move-Has q m (Reach-Has q s ts r l)
