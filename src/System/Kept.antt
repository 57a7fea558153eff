-- ===== src/System/Kept.antt =====
-- What each call on a stack keeps true of the stack.
use http_exercise.Exec.{Exec, ok, fault}
use http_exercise.Job.{Job}
use http_exercise.JobStack.{
  Call, returns, waits, blocks, JobStack, job_stack_push, push_back_admitted, job_stack_pop,
  job_stack_signal_finish, push_woken, pop_woken,
}

module _ (P : JobStack Job → Type 0) where
  -- the stack that a call leaves has `P`
  abbrev pub Leaves : {R : Type 0} → Call (JobStack Job) R → Type 0
  Leaves (returns r stack) = P stack
  Leaves (waits stack) = P stack
  Leaves blocks = Unit

  abbrev pub AllLeave : {R : Type 0} → Exec (Call (JobStack Job) R) → Type 0
  AllLeave fault = Unit
  AllLeave (ok call) = Leaves call

  -- No call ends `P`.
  pub record Preserved : Type 0 where
    pub on_push : (job : Job) (s : JobStack Job) → P s → AllLeave (job_stack_push s job)
    pub on_push_back : (job : Job) (s : JobStack Job) → P s → AllLeave (push_back_admitted s job)
    pub on_pop : (s : JobStack Job) → P s → AllLeave (job_stack_pop s)
    pub on_signal_finish : (s : JobStack Job) → P s → Leaves (job_stack_signal_finish s)
    pub on_push_woken : (s : JobStack Job) → P s → Leaves (push_woken s)
    pub on_pop_woken : (s : JobStack Job) → P s → Leaves (pop_woken s)
