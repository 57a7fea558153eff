-- ===== src/JobStack/Deadlock.antt =====
-- What the early return of `job_stack_push` on a finished stack, which skips the unlock, does to
-- every later call.
use http_exercise.Base.{◌≡◌, refl, true, false, List, [], ◌∷◌, map, arith}
use http_exercise.Exec.{ok}
use http_exercise.Constants.{finished, fail}
use http_exercise.JobStack
use http_exercise.JobStack.{
  JobStack, job_stack_push, job_stack_push_back, job_stack_pop, job_stack_signal_finish, push_woken,
  pop_woken,
}
use http_exercise.JobStack.Run.{
  Op, push, push_back, admit_push_back, push_back_admitted, pop, signal_finish, wake_push, wake_pop,
  Reply, status, stuck, step, run,
}

module _ {ℓ} {A : Type ℓ} where
  -- `push_back` looks at `finished` before it takes the mutex; all others stand still, and so does a
  -- `push_back` that has looked already.
  abbrev pub after_finish : Op A → Reply A
  after_finish (push_back _) = status fail
  after_finish (admit_push_back _) = status fail
  after_finish _ = stuck

  step_locked :
      (op : Op A) (s : JobStack A)
      → s.mutex ≡ true
      → s.is_finished ≡ true
      → step s op ≡ ok (after_finish op, s)
  unfolding step job_stack_push job_stack_push_back JobStack.push_back_admitted job_stack_pop
      job_stack_signal_finish push_woken pop_woken
  step_locked (push a) s m f = ground arith
  step_locked (push_back a) s m f = ground arith
  step_locked (admit_push_back a) s m f = ground arith
  step_locked (push_back_admitted a) s m f = ground arith
  step_locked pop s m f = ground arith
  step_locked signal_finish s m f = ground arith
  step_locked wake_push s m f = ground arith
  step_locked wake_pop s m f = ground arith

  run_locked :
      (ops : List (Op A)) (s : JobStack A)
      → s.mutex ≡ true
      → s.is_finished ≡ true
      → run s ops ≡ ok (map after_finish ops)
  unfolding run
  run_locked [] s m f = refl
  run_locked (op ∷ ops) s m f = rw (step_locked op s m f, run_locked ops s m f)

  -- A `job_stack_push` on a finished stack whose mutex is free returns FINISHED, and from then on
  -- every call of every thread stands still, but for `job_stack_push_back`, which
  -- fails unless it has read `finished` before.
  pub push_finished_locks :
      (ops : List (Op A)) (s : JobStack A) (x : A)
      → s.mutex ≡ false
      → s.is_finished ≡ true
      → run s (push x ∷ ops) ≡ ok (status finished ∷ map after_finish ops)
  unfolding run step job_stack_push
  push_finished_locks ops s x m f =
      rw (m, f) (rw (run_locked ops (record s { mutex = true; is_finished = true }) refl refl))
