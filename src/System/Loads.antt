-- ===== src/System/Loads.antt =====
-- How many jobs of a kind are on the stacks and with the threads.
use http_exercise.Base.{
  ℕ, ◌+◌, ◌≤◌, ◌≡◌, ap, Option, none, some, arith, inl, inr, Bool, Bool-cases, if◌then◌else◌,
}
use http_exercise.Base.Int.{ℤ}
use http_exercise.Exec.{Exec, ok, fault, ◌>>=◌, Exec-cases, ok-injective}
use http_exercise.CStr.{Bytes}
use http_exercise.Job.{Job}
use http_exercise.JobStack.{Call, returns, waits, blocks, JobStack}
use http_exercise.JobStack.Load.{on_stack, Ends, AllEnd}
use http_exercise.UtHash.{UtHash}
use http_exercise.BlockTable.{TableElement}
use http_exercise.Thread.{Queue, clients, prefetches, Thread}
use http_exercise.Thread.Bears.{Bears}
use http_exercise.System.{stack_of, put_stack, after_call}
use http_exercise.System.Runs.{Info}
use http_exercise.System.Represented.{IsRepresented}

module _ (blocks_hash : UtHash TableElement) (hash : UtHash ℕ) (shell : Bytes → Bytes)
    (ttl : ℤ) where
  abbrev pub AllRepresented : Info blocks_hash hash shell ttl → Type 0
  AllRepresented s =
      (q : Queue) (stack : JobStack Job)
      → stack_of blocks_hash hash shell ttl q s ≡ ok stack
      → IsRepresented stack

module _ (blocks_hash : UtHash TableElement) (hash : UtHash ℕ) (shell : Bytes → Bytes) (ttl : ℤ)
    (weight : Job → ℕ) where
  abbrev stack_load : Option (JobStack Job) → ℕ
  stack_load none = 0
  stack_load (some stack) = on_stack weight stack

  -- what is on the two stacks
  abbrev pub load : Info blocks_hash hash shell ttl → ℕ
  load s = stack_load s.client_job_stack + stack_load s.prefetch_job_stack

  there-load :
      (there : Option (JobStack Job)) (stack : JobStack Job)
      → elim there as (λ _. Exec (JobStack Job)) [ none ↦ fault | some found ↦ ok found ] ≡ ok stack
      → stack_load there ≡ on_stack weight stack
  there-load none stack e = absurd (ground arith)
  there-load (some found) stack e = ap (on_stack weight) (ok-injective e)

  put-load :
      (q : Queue) (s : Info blocks_hash hash shell ttl) (stack after : JobStack Job)
      → stack_of blocks_hash hash shell ttl q s ≡ ok stack
      → load (put_stack blocks_hash hash shell ttl q after s) + on_stack weight stack
        ≡ load s + on_stack weight after
  unfolding stack_of put_stack
  put-load clients s stack after e = omega (arith, there-load s.client_job_stack stack e)
  put-load prefetches s stack after e = omega (arith, there-load s.prefetch_job_stack stack e)

  module _ {A : Type 0} where
    -- A step leaves no more on the stacks and with its thread than there was.
    abbrev pub Stepped :
        ℕ
        → Info blocks_hash hash shell ttl
        → Exec (Info blocks_hash hash shell ttl × Thread A)
        → Type 0
    Stepped n s fault = Unit
    Stepped n s (ok (s', t)) = (m : ℕ) × (load s' + m ≤ load s + n) × Bears weight m t

    after_call-Stepped :
        {R : Type 0} (E : ℕ → R → Type 0) (n : ℕ) (q : Queue) (s : Info blocks_hash hash shell ttl)
        (stack : JobStack Job) (go : R → Thread A) (parked here : Thread A)
        (call : Call (JobStack Job) R)
        → stack_of blocks_hash hash shell ttl q s ≡ ok stack
        → Ends weight (on_stack weight) E (on_stack weight stack) call
        → ((r : R) (after : ℕ)
            → E after r
            → (m : ℕ) × (after + m ≤ on_stack weight stack + n) × Bears weight m (go r))
        → Bears weight n parked
        → Bears weight n here
        → Stepped n s (ok (after_call blocks_hash hash shell ttl q s go parked here call))
    unfolding after_call
    after_call-Stepped E n q s stack go parked here (returns r after) e ends f p h =
        let (m, le, b) = f r (on_stack weight after) ends in
        (m, omega (arith, put-load q s stack after e), b)
    after_call-Stepped E n q s stack go parked here (waits after) e ends f p h =
        (n, omega (arith, put-load q s stack after e), p)
    after_call-Stepped E n q s stack go parked here blocks e ends f p h = (n, omega arith, h)

    pub stack_step :
        {R : Type 0} (E : ℕ → ℕ → R → Type 0) (n : ℕ) (q : Queue)
        (s : Info blocks_hash hash shell ttl) (call : JobStack Job → Exec (Call (JobStack Job) R))
        (go : R → Thread A) (parked here : Thread A)
        → ((stack : JobStack Job)
            → stack_of blocks_hash hash shell ttl q s ≡ ok stack
            → AllEnd weight
                (on_stack weight)
                (E (on_stack weight stack))
                (on_stack weight stack)
                (call stack))
        → ((r : R) (before after : ℕ)
            → E before after r
            → (m : ℕ) × (after + m ≤ before + n) × Bears weight m (go r))
        → Bears weight n parked
        → Bears weight n here
        → Stepped n s (
            stack_of blocks_hash hash shell ttl q s >>= λ stack. call stack >>= λ result.
            ok (after_call blocks_hash hash shell ttl q s go parked here result))
    stack_step E n q s call go parked here ends f p h =
        elim (Exec-cases (stack_of blocks_hash hash shell ttl q s)) [
          | inl e ↦ rw e tt
          | inr (stack, e) ↦ rw e (elim (Exec-cases (call stack)) [
            | inl c ↦ rw c tt
            | inr (result, c) ↦ rw c (
                after_call-Stepped (E (on_stack weight stack)) n q s stack go parked here result e
                  (let end = ends stack e in rw c at end)
                  (λ r after. f r (on_stack weight stack) after) p h)
          ])
        ]

    pub woken_step :
        {R : Type 0} (E : ℕ → ℕ → R → Type 0) (n : ℕ) (q : Queue)
        (s : Info blocks_hash hash shell ttl) (test : JobStack Job → Bool)
        (call : JobStack Job → Call (JobStack Job) R) (go : R → Thread A) (here : Thread A)
        → ((stack : JobStack Job)
            → stack_of blocks_hash hash shell ttl q s ≡ ok stack
            → Ends weight
                (on_stack weight)
                (E (on_stack weight stack))
                (on_stack weight stack)
                (call stack))
        → ((r : R) (before after : ℕ)
            → E before after r
            → (m : ℕ) × (after + m ≤ before + n) × Bears weight m (go r))
        → Bears weight n here
        → Stepped n s (
            stack_of blocks_hash hash shell ttl q s >>= λ stack.
            if test stack
            then ok (s, here)
            else ok (after_call blocks_hash hash shell ttl q s go here here (call stack)))
    woken_step E n q s test call go here ends f h =
        elim (Exec-cases (stack_of blocks_hash hash shell ttl q s)) [
          | inl e ↦ rw e tt
          | inr (stack, e) ↦ rw e (elim (Bool-cases (test stack)) [
            | inl b ↦ rw b (n, omega arith, h)
            | inr b ↦ rw b (
                after_call-Stepped (E (on_stack weight stack)) n q s stack go here here (call stack)
                  e (ends stack e) (λ r after. f r (on_stack weight stack) after) h h)
          ])
        ]
