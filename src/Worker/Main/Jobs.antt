-- ===== src/Worker/Main/Jobs.antt =====
-- What becomes of the jobs that a worker takes from its stack.
use http_exercise.Base.{◌≡◌, refl, false, List, [], ℕ, zero, suc, Bool, Option, none, some}
use http_exercise.Base.Int.{ℤ}
use http_exercise.Exec.{Exec}
use http_exercise.Constants.{Status, finished, success, terminate}
use http_exercise.CStr.{Bytes}
use http_exercise.Job.{Job}
use http_exercise.Net.{Net}
use http_exercise.Outside.{Outside}
use http_exercise.Resolver.{Resolver}
use http_exercise.UtHash.{UtHash}
use http_exercise.BlockTable.{TableElement}
use http_exercise.Parsing.Request.{Fields}
use http_exercise.Thread.{Thread, done, lift, ◌>>=◌}
use http_exercise.Thread.Owns.{Owns, Owns-bind, Keeps, Closes-Owns, put_back, popped}
use http_exercise.Worker.Handle.{handle_valid_request}
use http_exercise.Worker.Handle.Settled.{Handled}
use http_exercise.Worker.Handle.Releases.{handle_valid_request-Closes}
use http_exercise.Worker.Process.{process_job}
use http_exercise.Worker.Process.Outcomes.{Outcome, faults, settled, handled, process_job-Outcome}
use http_exercise.Worker.Main.{after_push_back, dispose, handle, process, after_pop, worker_main}

-- a thread that is done has no job
abbrev pub Nothing : {A : Type 0} → Option ℤ → A → Type 0
Nothing h a = h ≡ none

module _ {A : Type 0} (again : Thread A) (c : Owns Nothing none again) where
  after_push_back-Owns :
      (job : Job) (status : Status)
      → Owns Nothing (put_back job.client_socket_fd status) (after_push_back job again status)
  unfolding after_push_back
  after_push_back-Owns job success = c
  after_push_back-Owns job _ = (refl, c)

  dispose-Owns :
      (job : Job) (status : Status)
      → Owns Nothing (some job.client_socket_fd) (dispose job again status)
  unfolding dispose
  dispose-Owns job terminate = (refl, c)
  dispose-Owns job _ = (refl, after_push_back-Owns job)

module _ (hash : UtHash TableElement) {names : Resolver} (net : Net) (outside : Outside names net)
    (junk_name : Bytes) (junk : ℕ → Bytes) (locals : Fields) (garbage : Option net.File)
    (table : hash.Table) (thread_id : ℤ) (is_client_worker : Bool) where
  open net use {World}

  abbrev handling : ℕ → Job → List names.Address → Bytes → Bytes → World → Thread (Status × World)
  handling = handle hash net outside junk_name junk locals garbage table thread_id is_client_worker

  -- The thread has the job that it has processed.
  abbrev Processed : Option ℤ → Status × Job × World → Type 0
  Processed h r = h ≡ some (r.1).client_socket_fd

  Outcome-Owns :
      (fuel : ℕ) (fd : ℤ) (run : Exec (Thread (Status × Job × World)))
      → Outcome hash names net (handling fuel) fd run
      → Owns Processed (some fd) (lift run >>= λ t. t)
  unfolding handle
  Outcome-Owns fuel fd _ faults = tt
  Outcome-Owns fuel fd _ (settled status job w e s) = rw e refl
  Outcome-Owns fuel fd _ (handled job server path hostname w e) =
      Owns-bind (Keeps (some fd)) Processed (some fd)
        (handle_valid_request net outside junk thread_id fuel garbage job server path hostname w)
        (λ ret. done (terminate, job, ret.1))
        (Closes-Owns (Handled net outside junk thread_id false w []) [] (some fd)
          (handle_valid_request net outside junk thread_id fuel garbage job server path hostname w)
          (handle_valid_request-Closes net outside junk thread_id false [] fuel garbage job server
            path hostname w))
        (λ h' r same. rw (same, e) refl)

  after_pop-Owns :
      (fuel : ℕ) (again : World → Thread World) (w : World)
      → ((w' : World) → Owns Nothing none (again w'))
      → (status : Status) (job : Option Job)
      → Owns Nothing (popped status job) (
          after_pop hash net outside junk_name junk locals garbage table thread_id is_client_worker
            fuel again w status job)
  unfolding after_pop process
  after_pop-Owns fuel again w c finished job = refl
  after_pop-Owns fuel again w c success none = tt
  after_pop-Owns fuel again w c success (some job) = λ now later.
      Owns-bind Processed Nothing (some job.client_socket_fd) (lift (run now later) >>= λ t. t)
        (λ processed. dispose processed.1 (again processed.2) processed.0)
        (Outcome-Owns fuel job.client_socket_fd (run now later) (
          process_job-Outcome hash names net (handling fuel) table junk_name locals now later job
            w))
        (λ h' (processed : Status × Job × World) e.
          rw e (dispose-Owns (again processed.2) (c processed.2) processed.1 processed.0))
    where
      run : ℕ → ℕ → Exec (Thread (Status × Job × World))
      run now later =
          process_job hash names net (handling fuel) table junk_name locals now later job w
  after_pop-Owns fuel again w c _ job = c w

  -- A worker pops a job only when it has none. It destructs the job, or puts it back on a stack that
  -- takes it, once, before it pops the next, and does neither with a job that it does not have. It
  -- pushes only jobs of no connection, on the prefetch stack. When it ends it has no job.
  pub worker_main-Owns :
      (rounds fuel : ℕ) (w : World)
      → Owns Nothing none (
          worker_main hash net outside junk_name junk locals garbage table thread_id
            is_client_worker rounds fuel w)
  unfolding worker_main
  worker_main-Owns zero fuel w = tt
  worker_main-Owns (suc rounds) fuel w =
      (refl, after_pop-Owns fuel _ w (worker_main-Owns rounds fuel))
