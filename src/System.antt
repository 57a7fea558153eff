-- ===== src/System.antt =====
-- The server as a whole: what its threads share, and the steps of a thread in it. A step is one call
-- on a shared structure, under the mutex of that structure; threads take turns in any order. A
-- thread that is parked goes on when a signal has woken one, and one that finds the mutex of a stack
-- held stays where it is.
pub mod Calls
pub mod Records
pub mod Runs
pub mod Kept
pub mod Held
pub mod Stays
pub mod Hang
pub mod Represented
pub mod Loads
pub mod Conserved
use http_exercise.Base.{
  ℕ, ◌*◌, Bool, true, false, List, [], ◌∷◌, ◌++◌, Option, none, some, ◌==◌, if◌then◌else◌,
  get_elem?,
}
use http_exercise.Base.Int.{ℤ, pos, negsuc}
use http_exercise.Exec.{Exec, ok, fault, ◌>>=◌}
use http_exercise.Constants.{Status, fail}
use http_exercise.CStr.{Bytes}
use http_exercise.Job.{Job}
use http_exercise.JobStack.{
  Call, returns, waits, blocks, JobStack, job_stack_construct, job_stack_destruct, job_stack_push,
  push_back_admitted, job_stack_pop, job_stack_signal_finish, push_woken, pop_woken,
}
use http_exercise.UtHash.{UtHash}
use http_exercise.BlockTable.{TableElement, block_table_create}
use http_exercise.CacheRecord.{
  CacheTable, cache_table_create, cache_record_get_or_create, cache_record_close,
}
use http_exercise.SafeFile.{SafeFile, safe_init, safe_close, safe_write}
use http_exercise.Thread.{
  Queue, clients, prefetches, Thread, done, crash, loops, time, get_record, record_name,
  close_record, push, parked_push, push_back, admitted_push_back, pop, parked_pop, signal_finish,
  print, close_fd, destruct,
}

module _ (blocks_hash : UtHash TableElement) (hash : UtHash ℕ) (shell : Bytes → Bytes)
    (ttl : ℤ) where
  -- `struct resource_info`. A stack is `none` where its pointer is NULL or has been freed. The lock
  -- for getaddrinfo is released on every path, so it is left out.
  pub record ResourceInfo : Type 0 where
    pub thread_id : ℤ
    pub is_client_worker : Bool
    pub block_table : blocks_hash.Table
    pub cache_table : CacheTable hash shell ttl
    pub client_job_stack : Option (JobStack Job)
    pub prefetch_job_stack : Option (JobStack Job)
    pub std_out : SafeFile

  -- The flags say whether the first malloc for each stack succeeds; `stdout` is what has been printed.
  unfoldable pub create_shared_resource : Bool → Bool → Bytes → ℕ → ℕ → ResourceInfo
  create_shared_resource first second stdout job_stack_size reserve_slots = record {
    thread_id = negsuc 0;
    is_client_worker = false;
    client_job_stack = job_stack_construct first job_stack_size reserve_slots;
    prefetch_job_stack = job_stack_construct second (job_stack_size * 4) reserve_slots;
    std_out = safe_init stdout;
    block_table = block_table_create blocks_hash;
    cache_table = cache_table_create hash shell ttl;
  }

  unfoldable pub free_shared_resource : ResourceInfo → Exec ResourceInfo
  free_shared_resource resource = do
    client_job_stack ← job_stack_destruct resource.client_job_stack
    prefetch_job_stack ← job_stack_destruct resource.prefetch_job_stack
    std_out ← safe_close resource.std_out
    ok (record resource {
      client_job_stack = client_job_stack;
      prefetch_job_stack = prefetch_job_stack;
      std_out = std_out;
    })

  unfoldable pub stack_of : Queue → ResourceInfo → Exec (JobStack Job)
  stack_of clients s = elim s.client_job_stack [ none ↦ fault | some stack ↦ ok stack ]
  stack_of prefetches s = elim s.prefetch_job_stack [ none ↦ fault | some stack ↦ ok stack ]

  unfoldable pub put_stack : Queue → JobStack Job → ResourceInfo → ResourceInfo
  put_stack clients stack s = record s { client_job_stack = some stack }
  put_stack prefetches stack s = record s { prefetch_job_stack = some stack }

  module _ {A : Type 0} where
    -- A call on a stack: it returns, or parks its thread, or its thread stays.
    unfoldable pub after_call :
        {R : Type 0}
        → Queue
        → ResourceInfo
        → (R → Thread A)
        → Thread A
        → Thread A
        → Call (JobStack Job) R
        → ResourceInfo × Thread A
    after_call q s go parked here (returns r stack) = (put_stack q stack s, go r)
    after_call q s go parked here (waits stack) = (put_stack q stack s, parked)
    after_call q s go parked here blocks = (s, here)

    -- The step of a thread; `now` and `later` are the readings of the clock in it.
    unfoldable pub step : ℕ → ℕ → ResourceInfo → Thread A → Exec (ResourceInfo × Thread A)
    step now later s (done a) = ok (s, done a)
    step now later s crash = fault
    step now later s loops = ok (s, loops)
    step now later s (time k) = ok (s, k now)
    step now later s (get_record url k) = do
      r ← cache_record_get_or_create hash shell ttl s.cache_table url (pos now) (pos later)
      ok (record s { cache_table = r.2 }, k r.0 r.1)
    step now later s (record_name none k) = fault
    step now later s (record_name (some ptr) k) = elim (get_elem? s.cache_table.records ptr) [
      | none ↦ fault
      | some r ↦ ok (s, k r.name)
    ]
    step now later s (close_record ptr action t) = do
      table ← cache_record_close hash shell ttl s.cache_table ptr action
      ok (record s { cache_table = table }, t)
    step now later s (push q job k) = do
      stack ← stack_of q s
      call ← job_stack_push stack job
      ok (after_call q s k (parked_push q job k) (push q job k) call)
    step now later s (parked_push q job k) = do
      stack ← stack_of q s
      if stack.not_full.woken == 0
          then ok (s, parked_push q job k)
          else ok (after_call q s k (parked_push q job k) (parked_push q job k) (push_woken stack))
    step now later s (push_back q job k) = do
      stack ← stack_of q s
      if stack.is_finished then ok (s, k fail) else ok (s, admitted_push_back q job k)
    step now later s (admitted_push_back q job k) = do
      stack ← stack_of q s
      call ← push_back_admitted stack job
      ok (after_call q s k (admitted_push_back q job k) (admitted_push_back q job k) call)
    step now later s (pop q k) = do
      stack ← stack_of q s
      call ← job_stack_pop stack
      ok (after_call q s (λ r. k r.0 r.1) (parked_pop q k) (pop q k) call)
    step now later s (parked_pop q k) = do
      stack ← stack_of q s
      if stack.not_empty.woken == 0
          then ok (s, parked_pop q k)
          else ok
              (after_call q s (λ r. k r.0 r.1) (parked_pop q k) (parked_pop q k) (pop_woken stack))
    step now later s (signal_finish q t) = do
      stack ← stack_of q s
      ok (after_call q s (λ status. t) t (signal_finish q t) (job_stack_signal_finish stack))
    step now later s (print text t) = do
      file ← safe_write s.std_out (text ++ 0 ∷ [])
      ok (record s { std_out = file }, t)
    step now later s (close_fd fd t) = ok (s, t)
    step now later s (destruct job t) = ok (s, t)
