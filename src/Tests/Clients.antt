-- ===== src/Tests/Clients.antt =====
-- The slow client over the slow network, and a server at its end.
use http_exercise.Base.{ℕ, ◌≡◌, refl, true, false, List, [], some, get_elem?}
use http_exercise.Base.Int.{pos}
use http_exercise.Exec.{ok}
use http_exercise.Constants.{Status, finished}
use http_exercise.CStr.{codes}
use http_exercise.Job.{Job, job_construct}
use http_exercise.JobStack.{JobStack, fresh_cond}
use http_exercise.SlowClient.{request_pieces, write_pieces}
use http_exercise.SlowClient.Sent.{Wrote, request_text, write_pieces-request}
use http_exercise.System.{ResourceInfo, stack_of, create_shared_resource, step}
use http_exercise.System.Runs.{Reach}
use http_exercise.System.Hang.{prefetch_after_finish_hangs}
use http_exercise.Thread.{Thread, done, push, pop, prefetches}
use http_exercise.Tests.HashTable.{elements}
use http_exercise.Tests.Tables.{pointers, echo_shell}
use http_exercise.Tests.SlowNet.{slow_net, nothing}
use http_exercise.Tests.Disk.{slow_disk}

write_pieces-request_example :
    Wrote slow_net slow_disk (pos 9) (request_text (codes "/a") (codes "host.org")) [] (
      write_pieces slow_net slow_disk
        (pos 9)
        (request_pieces (codes "/a") (codes "host.org"))
        nothing)
write_pieces-request_example =
    write_pieces-request slow_net slow_disk (pos 9) (codes "/a") (codes "host.org") nothing

abbrev empty_stack : JobStack Job
empty_stack = record {
  content_base = [];
  top = 0;
  max_job_count = 128;
  reserve_job_count = 4;
  mutex = false;
  not_empty = fresh_cond;
  not_full = fresh_cond;
  is_finished = true;
}

abbrev closing : ResourceInfo elements pointers echo_shell (pos 10)
closing = record (create_shared_resource elements pointers echo_shell (pos 10) true true [] 32 4) {
  prefetch_job_stack = some empty_stack;
}

closing-stack : stack_of elements pointers echo_shell (pos 10) prefetches closing ≡ ok empty_stack
unfolding stack_of
closing-stack = refl

prefetch_after_finish_hangs_example :
    (s₁ : ResourceInfo elements pointers echo_shell (pos 10)) × (step elements pointers echo_shell
        (pos 10)
        105
        105
        closing
        (push prefetches (job_construct (pos 5)) done)
      ≡ ok (s₁, done finished))
    × ((i : ℕ) (k' : Status → _ → Thread Status) (ts ts' : List (Thread Status))
          (s' : ResourceInfo elements pointers echo_shell (pos 10))
        → Reach elements pointers echo_shell (pos 10) s₁ ts s' ts'
        → get_elem? ts i ≡ some (pop prefetches k')
        → get_elem? ts' i ≡ some (pop prefetches k'))
prefetch_after_finish_hangs_example =
    prefetch_after_finish_hangs elements pointers echo_shell (pos 10) closing empty_stack
      (job_construct (pos 5)) done 105 105 closing-stack refl refl
