-- ===== src/Worker/Main.antt =====
-- `worker_main`: the loop of a worker thread over the jobs of its stack.
pub mod Records
pub mod Jobs
use http_exercise.Base.{ℕ, zero, suc, Bool, true, false, List, Option, none, some}
use http_exercise.Base.Int.{ℤ}
use http_exercise.Constants.{Status, finished, success, terminate}
use http_exercise.CStr.{Bytes}
use http_exercise.Job.{Job}
use http_exercise.Net.{Net}
use http_exercise.Outside.{Outside}
use http_exercise.Resolver.{Resolver}
use http_exercise.UtHash.{UtHash}
use http_exercise.BlockTable.{TableElement}
use http_exercise.Parsing.Request.{Fields}
use http_exercise.Thread.{
  Queue, clients, prefetches, Thread, done, crash, loops, time, pop, push_back, destruct, lift,
  ◌>>=◌,
}
use http_exercise.Worker.Handle.{handle_valid_request}
use http_exercise.Worker.Process.{process_job}

-- A job that is put back goes onto the client stack, whichever worker had it.
unfoldable pub after_push_back : {A : Type 0} → Job → Thread A → Status → Thread A
after_push_back current_job again success = again
after_push_back current_job again _ = destruct current_job again

unfoldable pub dispose : {A : Type 0} → Job → Thread A → Status → Thread A
dispose current_job again terminate = destruct current_job again
dispose current_job again _ = push_back clients current_job (after_push_back current_job again)

abbrev pub own_queue : Bool → Queue
own_queue true = clients
own_queue false = prefetches

-- `locals`, `junk` and `garbage` are what local variables hold that the code does not set. `table` is
-- the block table, which does not change while workers run.
module _ (hash : UtHash TableElement) {names : Resolver} (net : Net) (outside : Outside names net)
    (junk_name : Bytes) (junk : ℕ → Bytes) (locals : Fields) (garbage : Option net.File)
    (table : hash.Table) (thread_id : ℤ) (is_client_worker : Bool) where
  open net use {World}

  -- `fuel` bounds the loops that relay one response
  unfoldable pub handle :
      ℕ → Job → List names.Address → Bytes → Bytes → World → Thread (Status × World)
  handle fuel = handle_valid_request net outside junk thread_id fuel garbage

  unfoldable pub process : ℕ → ℕ → ℕ → Job → World → Thread (Status × Job × World)
  process fuel now later job w =
      lift (process_job hash names net (handle fuel) table junk_name locals now later job w)
      >>= λ run. run

  -- what follows a pop, with `again` for the next round
  unfoldable pub after_pop : ℕ → (World → Thread World) → World → Status → Option Job → Thread World
  after_pop fuel again w finished job = done w
  after_pop fuel again w success none = crash
  after_pop fuel again w success (some job) = time (λ now. time (λ later. do
    processed ← process fuel now later job w
    dispose processed.1 (again processed.2) processed.0))
  after_pop fuel again w _ job = again w

  -- The loop ends when the stack is finished; the first argument counts the rounds of the model.
  unfoldable pub worker_main : ℕ → ℕ → World → Thread World
  worker_main zero fuel w = loops
  worker_main (suc rounds) fuel w =
      pop (own_queue is_client_worker) (after_pop fuel (worker_main rounds fuel) w)
