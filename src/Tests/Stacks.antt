-- ===== src/Tests/Stacks.antt =====
-- job-stack-test.c in small: the stack of thread-safe-job-stack.c over numbers for jobs.
use http_exercise.Base.{ℕ, ◌≡◌, refl, true, false, List, [], ◌∷◌, none, some, arith, set}
use mathlib.Core.Option
use http_exercise.Exec.{ok}
use http_exercise.Constants.{finished, success, fail}
use http_exercise.JobStack
use http_exercise.JobStack.{
  JobStack, fresh_cond, job_stack_construct, job_stack_push, job_stack_push_back, job_stack_pop,
  job_stack_signal_finish, job_stack_set_item, job_stack_get_item, shift_up,
}
use http_exercise.JobStack.Spec.{Abstract}
use http_exercise.JobStack.Refine.{Represents}
use http_exercise.JobStack.Run.{
  Op, push, push_back, admit_push_back, push_back_admitted, admitted, pop, signal_finish, status,
  item, waiting, stuck, step, run, spec_run, run_refines,
}
use http_exercise.JobStack.Deadlock.{push_finished_locks}
use http_exercise.JobStack.Order.{push-push_back_drain}

-- two jobs, 8 on top, with a bound of 3
abbrev two_jobs : JobStack ℕ
two_jobs = record {
  content_base = some 7 ∷ some 8 ∷ none ∷ none ∷ none ∷ [];
  top = 2;
  max_job_count = 3;
  reserve_job_count = 1;
  mutex = false;
  not_empty = fresh_cond;
  not_full = fresh_cond;
  is_finished = false;
}

abbrev two_items : Abstract ℕ
two_items = record { items = 8 ∷ 7 ∷ []; room = 5; bound = 3; is_finished = false; locked = false }

two_jobs-Represents : Represents two_jobs two_items
two_jobs-Represents = record {
  holds = (refl, (refl, tt));
  counts = refl;
  room = refl;
  bound = refl;
  ended = refl;
  held = refl;
}

-- The job 5 is pushed to the bottom by a thread that read `finished` before the stack was finished.
abbrev script : List (Op ℕ)
script =
    push 9
    ∷ push 1
    ∷ push_back 6
    ∷ admit_push_back 5
    ∷ pop
    ∷ signal_finish
    ∷ pop
    ∷ pop
    ∷ pop
    ∷ pop
    ∷ push_back_admitted 5
    ∷ pop
    ∷ push 2
    ∷ pop
    ∷ []

run-script :
    run two_jobs script
    ≡ ok (
        status success
        ∷ waiting
        ∷ status success
        ∷ admitted
        ∷ item success (some 9)
        ∷ status success
        ∷ item success (some 8)
        ∷ item success (some 7)
        ∷ item success (some 6)
        ∷ item finished none
        ∷ status success
        ∷ item success (some 5)
        ∷ status finished
        ∷ stuck
        ∷ [])
unfolding run step job_stack_push job_stack_set_item job_stack_push_back shift_up job_stack_get_item
    job_stack_pop job_stack_signal_finish JobStack.push_back_admitted
run-script = refl

run_refines_example : run two_jobs script ≡ spec_run two_items script
run_refines_example = run_refines script two_jobs-Represents

push-push_back_drain_example :
    run two_jobs (push 9 ∷ push_back 6 ∷ pop ∷ pop ∷ pop ∷ pop ∷ [])
    ≡ ok (
        status success
        ∷ status success
        ∷ item success (some 9)
        ∷ item success (some 8)
        ∷ item success (some 7)
        ∷ item success (some 6)
        ∷ [])
push-push_back_drain_example =
    push-push_back_drain 9 6 two_jobs-Represents refl refl (omega arith) (omega arith)

abbrev ended : JobStack ℕ
ended = record two_jobs { is_finished = true }

push_finished_locks_example :
    run ended (push 9 ∷ pop ∷ push_back 1 ∷ signal_finish ∷ [])
    ≡ ok (status finished ∷ stuck ∷ status fail ∷ stuck ∷ [])
push_finished_locks_example =
    push_finished_locks (pop ∷ push_back 1 ∷ signal_finish ∷ []) ended 9 refl refl

-- one consumer, a bound of 1 and one reserve slot: a job is pushed and taken
abbrev built : JobStack ℕ
unfolding job_stack_construct
built = Option.get_or (job_stack_construct true 1 1) two_jobs

abbrev filled : JobStack ℕ
filled = record built { content_base = set built.content_base 0 (some 7); top = 1 }

abbrev taken : JobStack ℕ
taken = record built { content_base = set built.content_base 0 (some 7) }
