-- ===== src/System/Represented.antt =====
-- The list of jobs that a stack of the server stands for.
use http_exercise.Exec.{Exec}
use http_exercise.Job.{Job}
use http_exercise.JobStack.{Call, JobStack}
use http_exercise.JobStack.Spec.{Abstract}
use http_exercise.JobStack.Refine.{
  Represents, CallMatches, returned, waited, blocked, Matches, ran, faulted,
}
use http_exercise.JobStack.Pushes.{push_refines, push_back_admitted_refines}
use http_exercise.JobStack.Pops.{
  pop_refines, signal_finish_refines, push_woken_refines, pop_woken_refines,
}
use http_exercise.System.Kept.{Leaves, AllLeave, Preserved}

abbrev pub IsRepresented : JobStack Job → Type 0
IsRepresented s = (a : Abstract Job) × Represents s a

CallMatches-Leaves :
    {R : Type 0} {c : Call (JobStack Job) R} {d : Call (Abstract Job) R}
    → CallMatches R c d
    → Leaves IsRepresented c
CallMatches-Leaves (returned r {s} {a} z) = (a, z)
CallMatches-Leaves (waited {s} {a} z) = (a, z)
CallMatches-Leaves blocked = tt

Matches-AllLeave :
    {R : Type 0} {m : Exec (Call (JobStack Job) R)} {n : Exec (Call (Abstract Job) R)}
    → Matches R m n
    → AllLeave IsRepresented m
Matches-AllLeave (ran c) = CallMatches-Leaves c
Matches-AllLeave faulted = tt

pub IsRepresented-Preserved : Preserved IsRepresented
IsRepresented-Preserved = record {
  on_push = λ job s r. Matches-AllLeave (push_refines r.1 job);
  on_push_back = λ job s r. Matches-AllLeave (push_back_admitted_refines r.1 job);
  on_pop = λ s r. Matches-AllLeave (pop_refines r.1);
  on_signal_finish = λ s r. CallMatches-Leaves (signal_finish_refines r.1);
  on_push_woken = λ s r. CallMatches-Leaves (push_woken_refines r.1);
  on_pop_woken = λ s r. CallMatches-Leaves (pop_woken_refines r.1);
}
