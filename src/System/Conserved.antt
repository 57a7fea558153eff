-- ===== src/System/Conserved.antt =====
-- The number of jobs of a kind, over the steps of the server.
use http_exercise.Base.{
  Bool-cases, ℕ, ◌+◌, ◌≤◌, List, [], ◌∷◌, ◌++◌, Option, none, some, arith, inl, inr, ◌==◌,
  get_elem?, Option-cases,
}
use http_exercise.Base.Int.{ℤ, pos}
use http_exercise.Exec.{Exec, ok, ◌>>=◌, Exec-cases}
use http_exercise.CStr.{Bytes}
use http_exercise.Constants.{Status, success, fail}
use http_exercise.Job.{Job}
use http_exercise.JobStack.{
  job_stack_push, push_back_admitted, job_stack_pop, job_stack_signal_finish, push_woken, pop_woken,
}
use http_exercise.JobStack.Load.{
  Takes, Gives, popped_weight, job_stack_push-Takes, push_back_admitted-Takes, job_stack_pop-Gives,
  job_stack_signal_finish-Ends, push_woken-Takes, pop_woken-Gives,
}
use http_exercise.UtHash.{UtHash}
use http_exercise.BlockTable.{TableElement}
use http_exercise.CacheRecord.{cache_record_get_or_create, cache_record_close, ActionStatus}
use http_exercise.SafeFile.{safe_write}
use http_exercise.Thread.{
  Queue, Thread, done, crash, loops, time, get_record, record_name, close_record, push, parked_push,
  push_back, admitted_push_back, pop, parked_pop, signal_finish, print, close_fd, destruct,
}
use http_exercise.Thread.Bears.{Bears, AllBear, in_hands, in_hands-le}
use http_exercise.System.{stack_of, step}
use http_exercise.System.Runs.{Info, Move, Reach, here, there, start, next}
use http_exercise.System.Stays.{Has, same_stack, Reach-Has}
use http_exercise.System.Loads.{load, AllRepresented, Stepped, stack_step, woken_step}
use http_exercise.System.Represented.{IsRepresented, IsRepresented-Preserved}

module _ (blocks_hash : UtHash TableElement) (hash : UtHash ℕ) (shell : Bytes → Bytes) (ttl : ℤ)
    (weight : Job → ℕ) where
  abbrev loaded : Info blocks_hash hash shell ttl → ℕ
  loaded = load blocks_hash hash shell ttl weight

  abbrev Represented : Info blocks_hash hash shell ttl → Type 0
  Represented = AllRepresented blocks_hash hash shell ttl

  abbrev Has' : Queue → Info blocks_hash hash shell ttl → Type 0
  Has' = Has blocks_hash hash shell ttl IsRepresented IsRepresented-Preserved

  Has-Represented : {s : Info blocks_hash hash shell ttl} → ((q : Queue) → Has' q s) → Represented s
  Has-Represented h q stack e =
      same_stack blocks_hash hash shell ttl IsRepresented IsRepresented-Preserved (h q) e

  module _ {A : Type 0} where
    abbrev Still :
        ℕ
        → Info blocks_hash hash shell ttl
        → Exec (Info blocks_hash hash shell ttl × Thread A)
        → Type 0
    Still = Stepped blocks_hash hash shell ttl weight

    -- what a thread has behind a push
    took :
        (n m : ℕ) (job : Job) (k : Status → Thread A)
        → weight job + m ≤ n
        → Bears weight m (k success)
        → ((status : Status) → Bears weight n (k status))
        → (status : Status) (before after : ℕ) → Takes weight job before after status
        → (m' : ℕ) × (after + m' ≤ before + n) × Bears weight m' (k status)
    took n m job k le b f status before after (inl (e, t)) = (m, omega arith, rw e b)
    took n m job k le b f status before after (inr t) = (n, omega arith, f status)

    -- what a thread has behind a pop
    gave :
        (n : ℕ) (k : Status → Option Job → Thread A)
        → ((status : Status) (job : Option Job)
            → Bears weight (popped_weight weight (status, job) + n) (k status job))
        → (r : Status × Option Job) (before after : ℕ) → Gives weight before after r
        → (m' : ℕ) × (after + m' ≤ before + n) × Bears weight m' (k r.0 r.1)
    gave n k f (status, job) before after g =
        (popped_weight weight (status, job) + n, omega arith, f status job)

    no_record :
        (n : ℕ) (s : Info blocks_hash hash shell ttl) (a : ActionStatus) (t : Thread A)
        → Still n s (
            cache_record_close hash shell ttl s.cache_table none a >>= λ table.
            ok (record s { cache_table = table }, t))
    unfolding cache_record_close
    no_record n s a t = tt

    step-Stepped :
        (n : ℕ) (s : Info blocks_hash hash shell ttl) (t : Thread A) (now later : ℕ)
        → Represented s
        → Bears weight n t
        → Still n s (step blocks_hash hash shell ttl now later s t)
    unfolding step
    step-Stepped n s (done a) now later all b = (n, omega arith, b)
    step-Stepped n s crash now later all b = tt
    step-Stepped n s loops now later all b = (n, omega arith, b)
    step-Stepped n s (time k) now later all b = (n, omega arith, b now)
    step-Stepped n s (get_record url k) now later all b =
        elim (Exec-cases
          (cache_record_get_or_create hash shell ttl s.cache_table url (pos now) (pos later))) [
            | inl e ↦ rw e tt
            | inr (r, e) ↦ rw e (n, omega arith, b r.0 r.1)
          ]
    step-Stepped n s (record_name none k) now later all b = tt
    step-Stepped n s (record_name (some p) k) now later all b =
        elim (Option-cases (get_elem? s.cache_table.records p)) [
          | inl e ↦ rw (e, step) tt
          | inr (r, e) ↦ rw (e, step) (n, omega arith, b r.name)
        ]
    step-Stepped n s (close_record none a t) now later all b = no_record n s a t
    step-Stepped n s (close_record (some p) a t) now later all b =
        elim (Exec-cases (cache_record_close hash shell ttl s.cache_table (some p) a)) [
          | inl e ↦ rw e tt
          | inr (r, e) ↦ rw e (n, omega arith, b)
        ]
    step-Stepped n s (push q job k) now later all (m, le, b, f) =
        stack_step blocks_hash hash shell ttl weight (Takes weight job) n q s
          (λ stack. job_stack_push stack job) k (parked_push q job k) (push q job k)
          (λ stack e. job_stack_push-Takes weight (all q stack e).1 job) (took n m job k le b f)
          (m, le, b, f) (m, le, b, f)
    step-Stepped n s (parked_push q job k) now later all (m, le, b, f) =
        woken_step blocks_hash hash shell ttl weight (Takes weight job) n q s
          (λ stack. stack.not_full.woken == 0) push_woken k (parked_push q job k)
          (λ stack e. push_woken-Takes weight (all q stack e).1 job) (took n m job k le b f)
          (m, le, b, f)
    step-Stepped n s (push_back q job k) now later all (m, le, b, f) =
        elim (Exec-cases (stack_of blocks_hash hash shell ttl q s)) [
          | inl e ↦ rw e tt
          | inr (stack, e) ↦ rw e (elim (Bool-cases stack.is_finished) [
            | inl ended ↦ rw ended (n, omega arith, f fail)
            | inr open_still ↦ rw open_still (n, omega arith, (m, le, b, f))
          ])
        ]
    step-Stepped n s (admitted_push_back q job k) now later all (m, le, b, f) =
        stack_step blocks_hash hash shell ttl weight (Takes weight job) n q s
          (λ stack. push_back_admitted stack job) k (admitted_push_back q job k)
          (admitted_push_back q job k)
          (λ stack e. push_back_admitted-Takes weight (all q stack e).1 job) (took n m job k le b f)
          (m, le, b, f) (m, le, b, f)
    step-Stepped n s (pop q k) now later all b =
        stack_step blocks_hash hash shell ttl weight (Gives weight) n q s job_stack_pop
          (λ r. k r.0 r.1) (parked_pop q k) (pop q k)
          (λ stack e. job_stack_pop-Gives weight (all q stack e).1) (gave n k b) b b
    step-Stepped n s (parked_pop q k) now later all b =
        woken_step blocks_hash hash shell ttl weight (Gives weight) n q s
          (λ stack. stack.not_empty.woken == 0) pop_woken (λ r. k r.0 r.1) (parked_pop q k)
          (λ stack e. pop_woken-Gives weight (all q stack e).1) (gave n k b) b
    step-Stepped n s (signal_finish q t) now later all b =
        stack_step blocks_hash hash shell ttl weight (λ before after (_ : Status). after ≤ before) n
          q s (λ stack. ok (job_stack_signal_finish stack)) (λ status. t) t (signal_finish q t)
          (λ stack e. job_stack_signal_finish-Ends weight (all q stack e).1)
          (λ status before after le. (n, omega arith, b)) b b
    step-Stepped n s (print text t) now later all b =
        elim (Exec-cases (safe_write s.std_out (text ++ 0 ∷ []))) [
          | inl e ↦ rw e tt
          | inr (r, e) ↦ rw e (n, omega arith, b)
        ]
    step-Stepped n s (close_fd fd t) now later all b = (n, omega arith, b)
    step-Stepped n s (destruct job t) now later all (m, le, b) = (m, omega arith, b)

    Move-AllBear :
        {s s' : Info blocks_hash hash shell ttl} {ts ts' : List (Thread A)} (b : ℕ)
        → Represented s
        → Move blocks_hash hash shell ttl s ts s' ts'
        → AllBear weight b ts
        → (b' : ℕ) × (loaded s' + b' ≤ loaded s + b) × AllBear weight b' ts'
    Move-AllBear {s} {s'} b r (here {t} {t'} now later e) (n, m, le, h, all) =
        let stepped : Still n s (ok (s', t')) = rw e at (step-Stepped n s t now later r h) in
        let (n', le', h') = stepped in (n' + m, omega arith, (n', m, omega arith, h', all))
    Move-AllBear b r (there moved) (n, m, le, h, all) =
        let (m', le', all') = Move-AllBear m r moved all in
        (n + m', omega arith, (n, m', omega arith, h, all'))

    Reach-AllBear :
        (b : ℕ) {s₀ : Info blocks_hash hash shell ttl} {ts₀ : List (Thread A)}
        {s : Info blocks_hash hash shell ttl} {ts : List (Thread A)}
        → ((q : Queue) → Has' q s₀)
        → AllBear weight b ts₀
        → Reach blocks_hash hash shell ttl s₀ ts₀ s ts
        → (b' : ℕ) × (loaded s + b' ≤ loaded s₀ + b) × AllBear weight b' ts
    Reach-AllBear b h all start = (b, omega arith, all)
    Reach-AllBear b {s₀} {ts₀} h all (next {s} {ts} reach moved) =
        let (b₁, le₁, all₁) = Reach-AllBear b h all reach in
        let there_still = Has-Represented (λ q.
          Reach-Has blocks_hash hash shell ttl IsRepresented IsRepresented-Preserved q s₀ ts₀ reach
            (h q)) in
        let (b₂, le₂, all₂) = Move-AllBear b₁ there_still moved all₁ in (b₂, omega arith, all₂)

    -- In every run the stacks and the hands of the threads have no more than there was.
    pub jobs_bounded :
        (b : ℕ) {s₀ : Info blocks_hash hash shell ttl} {ts₀ : List (Thread A)}
        {s : Info blocks_hash hash shell ttl} {ts : List (Thread A)}
        → ((q : Queue) → Has' q s₀)
        → AllBear weight b ts₀
        → Reach blocks_hash hash shell ttl s₀ ts₀ s ts
        → loaded s + in_hands weight ts ≤ loaded s₀ + b
    jobs_bounded b {ts} h all reach =
        let (b', le, all') = Reach-AllBear b h all reach in
        omega (arith, in_hands-le weight b' ts all')
