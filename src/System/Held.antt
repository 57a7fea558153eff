-- ===== src/System/Held.antt =====
-- The mutex of a stack of the server, while it is held.
use http_exercise.Base.{◌≡◌, true}
use http_exercise.Job.{Job}
use http_exercise.JobStack.{
  JobStack, job_stack_push, push_back_admitted, job_stack_pop, job_stack_signal_finish, push_woken,
  pop_woken,
}
use http_exercise.System.Kept.{Leaves, AllLeave, Preserved}

abbrev pub IsHeld : JobStack Job → Type 0
IsHeld s = s.mutex ≡ true

push-AllLeave : (job : Job) (s : JobStack Job) → IsHeld s → AllLeave IsHeld (job_stack_push s job)
unfolding job_stack_push
push-AllLeave job s h = rw h tt

push_back-AllLeave :
    (job : Job) (s : JobStack Job) → IsHeld s → AllLeave IsHeld (push_back_admitted s job)
unfolding push_back_admitted
push_back-AllLeave job s h = rw h tt

pop-AllLeave : (s : JobStack Job) → IsHeld s → AllLeave IsHeld (job_stack_pop s)
unfolding job_stack_pop
pop-AllLeave s h = rw h tt

signal_finish-Leaves : (s : JobStack Job) → IsHeld s → Leaves IsHeld (job_stack_signal_finish s)
unfolding job_stack_signal_finish
signal_finish-Leaves s h = rw h tt

push_woken-Leaves : (s : JobStack Job) → IsHeld s → Leaves IsHeld (push_woken s)
unfolding push_woken
push_woken-Leaves s h = rw h tt

pop_woken-Leaves : (s : JobStack Job) → IsHeld s → Leaves IsHeld (pop_woken s)
unfolding pop_woken
pop_woken-Leaves s h = rw h tt

pub IsHeld-Preserved : Preserved IsHeld
IsHeld-Preserved = record {
  on_push = push-AllLeave;
  on_push_back = push_back-AllLeave;
  on_pop = pop-AllLeave;
  on_signal_finish = signal_finish-Leaves;
  on_push_woken = push_woken-Leaves;
  on_pop_woken = pop_woken-Leaves;
}
