-- ===== src/JobStack.antt =====
-- thread-safe-job-stack.c: the bounded stack through which the listener and the workers pass jobs.
-- A call runs under the stack's mutex. It returns, or parks its thread in `pthread_cond_wait`, or
-- cannot begin because the mutex is held. The array is a list of slots, `none` where `malloc` left
-- a slot undefined.
pub mod Spec
pub mod Refine
pub mod Pushes
pub mod Pops
pub mod Run
pub mod Inversion
pub mod Occupancy
pub mod Deadlock
pub mod Load
pub mod Order
use http_exercise.Base.{
  ℕ, zero, suc, ◌+◌, ◌-◌, ◌*◌, Bool, true, false, not, ◌&&◌, List, [], ◌∷◌, Option, none, some, ltb,
  leb, ◌==◌, if◌then◌else◌, length, get_elem?, set, replicate,
}
use http_exercise.Exec.{Exec, ok, fault, ◌>>=◌}
use http_exercise.Constants.{Status, finished, success, fail}

-- A `pthread_cond_t`: the threads that wait on it, and those that a signal has woken and that have
-- not yet run on.
pub record Cond : Type 0 where
  pub waiting : ℕ
  pub woken : ℕ

-- `pthread_cond_wait` adds the caller, `pthread_cond_signal` wakes one waiter if there is one, and
-- `pthread_cond_broadcast` wakes all.
unfoldable pub cond_wait : Cond → Cond
cond_wait c = record c { waiting = c.waiting + 1 }

unfoldable pub cond_signal : Cond → Cond
cond_signal c =
    if c.waiting == 0 then c else record c { waiting = c.waiting - 1; woken = c.woken + 1 }

unfoldable pub cond_broadcast : Cond → Cond
cond_broadcast c = record { waiting = 0; woken = c.woken + c.waiting }

-- What a call does with the stack `S` and its result `R`.
pub data Call {ℓ κ} (S : Type ℓ) (R : Type κ) : Type (ℓ ⊔ κ) where
  returns : R → S → Call S R
  waits : S → Call S R
  blocks : Call S R

-- `job_stack_t`, over the type of the pointers that it holds
pub record JobStack {ℓ} (A : Type ℓ) : Type ℓ where
  pub content_base : List (Option A)
  pub top : ℕ
  pub max_job_count : ℕ
  pub reserve_job_count : ℕ
  pub mutex : Bool
  pub not_empty : Cond
  pub not_full : Cond
  pub is_finished : Bool

-- `sizeof(job_t) / sizeof(job_t*)` with 8-byte pointers: 4112 / 8. The source allocates room for
-- that many pointers where one is needed.
abbrev pub pointers_per_job : ℕ
pointers_per_job = 514

abbrev pub fresh_cond : Cond
fresh_cond = record { waiting = 0; woken = 0 }

module _ {ℓ} {A : Type ℓ} where
  -- The flag says whether the first `malloc` succeeds; the source does not test the second.
  unfoldable pub job_stack_construct : Bool → ℕ → ℕ → Option (JobStack A)
  job_stack_construct allocated max_jobs reserve_slots =
      if not allocated
      then none
      else some (record {
        content_base = replicate ((max_jobs + reserve_slots + 1) * pointers_per_job) none;
        top = 0;
        max_job_count = max_jobs;
        reserve_job_count = reserve_slots;
        mutex = false;
        not_empty = fresh_cond;
        not_full = fresh_cond;
        is_finished = false;
      })

  -- `job_stack_destruct` frees the stack: `none` is a pointer that may not be used any more.
  unfoldable pub job_stack_destruct : Option (JobStack A) → Exec (Option (JobStack A))
  job_stack_destruct none = fault
  job_stack_destruct (some stack) = ok none

  -- A read out of bounds, or of a slot that was never written, is undefined.
  unfoldable pub job_stack_get_item : List (Option A) → ℕ → Exec A
  job_stack_get_item content index = elim (get_elem? content index) [
    | some (some item) ↦ ok item
    | _ ↦ fault
  ]

  unfoldable pub job_stack_set_item : List (Option A) → ℕ → A → Exec (List (Option A))
  job_stack_set_item content index item =
      if ltb index (length content) then ok (set content index (some item)) else fault

  -- The early return on a finished stack comes before the unlock.
  unfoldable pub job_stack_push : JobStack A → A → Exec (Call (JobStack A) Status)
  job_stack_push stack ptr_in =
      if stack.mutex
      then ok blocks
      else if stack.is_finished
      then ok (returns finished (record stack { mutex = true }))
      else if leb stack.max_job_count stack.top
      then ok (waits (record stack { not_full = cond_wait stack.not_full }))
      else (do
        content ← job_stack_set_item stack.content_base stack.top ptr_in
        ok (
            returns success (record stack {
              content_base = content;
              top = stack.top + 1;
              not_empty = cond_signal stack.not_empty;
            })))

  -- for (i = top; i > 0; i--) content[i] = content[i - 1];
  unfoldable pub shift_up : List (Option A) → ℕ → Exec (List (Option A))
  shift_up content zero = ok content
  shift_up content (suc i) = do
    item ← job_stack_get_item content i
    moved ← job_stack_set_item content (suc i) item
    shift_up moved i

  -- `job_stack_push_back` behind its read of `finished`, for a thread that has found the stack open.
  -- The read is before the lock, so other threads may run between the two.
  unfoldable pub push_back_admitted : JobStack A → A → Exec (Call (JobStack A) Status)
  push_back_admitted stack ptr_in = if stack.mutex then ok blocks else (do
    moved ← shift_up stack.content_base stack.top
    content ← job_stack_set_item moved 0 ptr_in
    ok (
        returns success (record stack {
          content_base = content;
          top = stack.top + 1;
          not_empty = cond_signal stack.not_empty;
        })))

  -- the whole call, where no other thread runs between the read and the lock
  unfoldable pub job_stack_push_back : JobStack A → A → Exec (Call (JobStack A) Status)
  job_stack_push_back stack ptr_in =
      if stack.is_finished then ok (returns fail stack) else push_back_admitted stack ptr_in

  -- The option is what goes through `ptr_out`.
  unfoldable pub job_stack_pop : JobStack A → Exec (Call (JobStack A) (Status × Option A))
  job_stack_pop stack =
      if stack.mutex
      then ok blocks
      else if stack.top == 0 && not stack.is_finished
      then ok (waits (record stack { not_empty = cond_wait stack.not_empty }))
      else if stack.top == 0
      then ok (returns (finished, none) stack)
      else (do
        item ← job_stack_get_item stack.content_base (stack.top - 1)
        ok (
            returns (success, some item)
              (record stack { top = stack.top - 1; not_full = cond_signal stack.not_full })))

  unfoldable pub job_stack_signal_finish : JobStack A → Call (JobStack A) Status
  job_stack_signal_finish stack =
      if stack.mutex
      then blocks
      else returns success
          (record stack { is_finished = true; not_empty = cond_broadcast stack.not_empty })

  -- The rest of `job_stack_push` and of `job_stack_pop` behind their `pthread_cond_wait`, for a
  -- thread that was woken: the wait takes the mutex again, and the call unlocks it and fails.
  unfoldable pub push_woken : JobStack A → Call (JobStack A) Status
  push_woken stack =
      if stack.mutex
      then blocks
      else returns fail
          (record stack { not_full = record (stack.not_full) { woken = stack.not_full.woken - 1 } })

  unfoldable pub pop_woken : JobStack A → Call (JobStack A) (Status × Option A)
  pop_woken stack =
      if stack.mutex
      then blocks
      else returns (fail, none)
          (record stack {
            not_empty = record (stack.not_empty) { woken = stack.not_empty.woken - 1 };
          })
