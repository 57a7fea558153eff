-- ===== src/Worker/Main/Records.antt =====
-- The records that a worker closes in its life.
use http_exercise.Base.{refl, true, List, ℕ, zero, suc, Bool, Option, none, some}
use http_exercise.Base.Int.{ℤ}
use http_exercise.Exec.{Exec}
use http_exercise.Constants.{Status, finished, success, terminate}
use http_exercise.CStr.{Bytes}
use http_exercise.Job.{Job}
use http_exercise.CacheRecord.Grants.{Grants}
use http_exercise.Net.{Net}
use http_exercise.Outside.{Outside}
use http_exercise.Resolver.{Resolver}
use http_exercise.UtHash.{UtHash}
use http_exercise.BlockTable.{TableElement}
use http_exercise.Parsing.Request.{Fields}
use http_exercise.Thread.{Thread, done, lift, ◌>>=◌}
use http_exercise.Thread.Closes.{Closes, Closes-bind}
use http_exercise.Worker.Handle.Settled.{Handled}
use http_exercise.Worker.Handle.Releases.{handle_valid_request-Closes}
use http_exercise.Worker.Handle.{handle_valid_request}
use http_exercise.Worker.Process.{process_job}
use http_exercise.Worker.Process.Outcomes.{Outcome, faults, settled, handled, process_job-Outcome}
use http_exercise.Worker.Main.{after_push_back, dispose, handle, process, after_pop, worker_main}

-- what a thread may hold when it is done: anything
abbrev pub Any : {A : Type 0} → Grants → A → Type 0
Any g a = Unit

module _ {A : Type 0} (again : Thread A) (g : Grants) (c : Closes true Any g again) where
  after_push_back-Closes :
      (job : Job) (status : Status) → Closes true Any g (after_push_back job again status)
  unfolding after_push_back
  after_push_back-Closes job success = c
  after_push_back-Closes job _ = (refl, c)

  dispose-Closes : (job : Job) (status : Status) → Closes true Any g (dispose job again status)
  unfolding dispose
  dispose-Closes job terminate = (refl, c)
  dispose-Closes job _ = (refl, after_push_back-Closes job)

module _ (hash : UtHash TableElement) {names : Resolver} (net : Net) (outside : Outside names net)
    (junk_name : Bytes) (junk : ℕ → Bytes) (locals : Fields) (garbage : Option net.File)
    (table : hash.Table) (thread_id : ℤ) (is_client_worker : Bool) where
  open net use {World}

  abbrev handling : ℕ → Job → List names.Address → Bytes → Bytes → World → Thread (Status × World)
  handling = handle hash net outside junk_name junk locals garbage table thread_id is_client_worker

  Outcome-Closes :
      (g : Grants) (fuel : ℕ) (fd : ℤ) (run : Exec (Thread (Status × Job × World)))
      → Outcome hash names net (handling fuel) fd run
      → Closes true Any g (lift run >>= λ t. t)
  unfolding handle
  Outcome-Closes g fuel fd _ faults = tt
  Outcome-Closes g fuel fd _ (settled status job w e s) = tt
  Outcome-Closes g fuel fd _ (handled job server path hostname w e) =
      Closes-bind true (Handled net outside junk thread_id true w g) Any g
        (handle_valid_request net outside junk thread_id fuel garbage job server path hostname w)
        (λ ret. done (terminate, job, ret.1))
        (handle_valid_request-Closes net outside junk thread_id true g fuel garbage job server path
          hostname w)
        (λ g' r s. tt)

  after_pop-Closes :
      (g : Grants) (fuel : ℕ) (again : World → Thread World) (w : World)
      → ((g' : Grants) (w' : World) → Closes true Any g' (again w'))
      → (status : Status) (job : Option Job)
      → Closes true Any g (
          after_pop hash net outside junk_name junk locals garbage table thread_id is_client_worker
            fuel again w status job)
  unfolding after_pop process
  after_pop-Closes g fuel again w c finished job = tt
  after_pop-Closes g fuel again w c success none = tt
  after_pop-Closes g fuel again w c success (some job) = λ now later.
      Closes-bind true Any Any g (lift (run now later) >>= λ t. t)
        (λ processed. dispose processed.1 (again processed.2) processed.0)
        (Outcome-Closes g fuel job.client_socket_fd (run now later) (
          process_job-Outcome hash names net (handling fuel) table junk_name locals now later job
            w))
        (λ g' (processed : Status × Job × World) _.
          dispose-Closes (again processed.2) g' (c g' processed.2) processed.1 processed.0)
    where
      run : ℕ → ℕ → Exec (Thread (Status × Job × World))
      run now later =
          process_job hash names net (handling fuel) table junk_name locals now later job w
  after_pop-Closes g fuel again w c _ job = c g w

  -- A worker closes only records that it was granted, as what it was granted, and each grant once,
  -- in all the jobs that it takes from its stack and whatever other threads, the network and the
  -- clients do.
  pub worker_main-Closes :
      (rounds fuel : ℕ) (g : Grants) (w : World)
      → Closes true Any g (
          worker_main hash net outside junk_name junk locals garbage table thread_id
            is_client_worker rounds fuel w)
  unfolding worker_main
  worker_main-Closes zero fuel g w = tt
  worker_main-Closes (suc rounds) fuel g w =
      (refl, after_pop-Closes g fuel _ w (worker_main-Closes rounds fuel))
