-- ===== src/Drivers/StackTest.antt =====
-- job-stack-test.c: threads that pop jobs and put them back until their count is used up. The one
-- stack of the test stands as the client stack.
use http_exercise.Base.{ℕ, zero, suc, ◌+◌, ◌%◌, List, [], ◌∷◌, Option, none, some, if◌then◌else◌}
use http_exercise.Base.Int.{pos}
use http_exercise.Constants.{Status, finished, success}
use http_exercise.CStr.{codes}
use http_exercise.Job.{Job, job_construct}
use http_exercise.Thread.{
  Thread, done, crash, loops, pop, push, push_back, print, destruct, signal_finish, clients,
}
use http_exercise.Worker.Process.{is_fail}

-- what follows a pop; the result of the push is not looked at
unfoldable pub after_test_pop : Thread (Unit {0}) → Status → Option Job → Thread (Unit {0})
after_test_pop again finished job = done tt
after_test_pop again success none = crash
after_test_pop again success (some current_job) = elim current_job.request_tail [
  | zero ↦ destruct current_job (print (codes "finishing\n") again)
  | suc tail ↦
      push_back clients (record current_job { request_tail = tail })
        (λ status. print (codes "popping\n") again)
]
after_test_pop again _ job = again

-- the loop of a thread, for at most so many rounds
unfoldable pub thread_main : ℕ → Thread (Unit {0})
thread_main zero = loops
thread_main (suc rounds) = pop clients (after_test_pop (thread_main rounds))

-- while (ret_status == FAIL), a line for each push
unfoldable pub push_with_output : ℕ → Job → Thread (Unit {0}) → Thread (Unit {0})
push_with_output zero new_job again = loops
push_with_output (suc pushes) new_job again =
    let retry = push_with_output pushes new_job again in
    push clients new_job
      (λ ret_status. print (codes "pushing\n") (if is_fail ret_status then retry else again))

-- The loop over the jobs; `rand` is the value for each of them. `i` is the first descriptor.
unfoldable pub push_all : ℕ → ℕ → List ℕ → Thread (Unit {0}) → Thread (Unit {0})
push_all pushes i [] again = again
push_all pushes i (rand ∷ rands) again =
    push_with_output pushes (record (job_construct (pos (i + 100))) { request_tail = rand % 4 })
      (push_all pushes (suc i) rands again)

-- main from the push of the jobs up to the joins, for as many jobs as there are values of rand
unfoldable pub stack_test_main : ℕ → List ℕ → Thread (Unit {0})
stack_test_main pushes rands = push_all pushes 0 rands (signal_finish clients (done tt))
