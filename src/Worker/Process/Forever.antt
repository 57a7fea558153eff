-- ===== src/Worker/Process/Forever.antt =====
-- The job that the listener makes where accept has failed.
use http_exercise.Base.{
  Bool, ◌∷◌, ℕ, suc, ◌+◌, ◌-◌, ◌<◌, ◌≡◌, refl, ap, ◌∙◌, true, false, List, [], ◌++◌, none, arith,
  length, replicate,
}
use http_exercise.Base.Int.{ℤ, pos, negsuc}
use http_exercise.Exec.{ok}
use http_exercise.Constants.{Status, enqueue, fail, job_request_buffer_size}
use http_exercise.CStr.{Bytes, strchr}
use http_exercise.CStr.Scan.{strchr-none}
use http_exercise.Job.{Job, job_construct, job_clear_buffer}
use http_exercise.Net.{Net}
use http_exercise.Resolver.{Resolver}
use http_exercise.UtHash.{UtHash}
use http_exercise.BlockTable.{TableElement}
use http_exercise.Parsing.Request.{Fields, parse_request_string}
use http_exercise.Thread.{Thread, done, push, clients}
use http_exercise.Server.Main.{accept_loop, push_until_taken}
use http_exercise.Worker.Send.{no_socket}
use http_exercise.Worker.Process.{is_expired, read_request, process_job}
use http_exercise.Worker.Process.Pieces.{HasText, job_construct-HasText}

-- A job without a complete line.
parse_unfinished :
    (job : Job) (text : Bytes) (locals : Fields)
    → HasText job text
    → length text < job_request_buffer_size
    → parse_request_string job.request locals ≡ ok (fail, job.request, locals)
unfolding parse_request_string
parse_unfinished job text locals t h =
    let left : job_request_buffer_size + 1 - length text
        ≡ suc (job_request_buffer_size - length text) =
      omega (arith, h) in
    let absent : strchr job.request 0 b'\n' ≡ ok none =
      ap (λ l. strchr l 0 b'\n') t.held
      ∙ ap (λ n. strchr (text ++ replicate n 0) 0 b'\n') left
      ∙ strchr-none b'\n' [] text (replicate (job_request_buffer_size - length text) 0)
          (omega arith) t.unfinished t.no_nul in
    rw absent refl

module _ (hash : UtHash TableElement) (names : Resolver) (net : Net)
    (handle : Job
      → List names.Address
      → Bytes
      → Bytes
      → net.World
      → Thread (Status × net.World)) where
  unclaimed :
      (job : Job) (table : hash.Table) (junk : Bytes) (locals : Fields) (now later : ℕ)
      (w : net.World)
      → HasText job []
      → no_socket job.client_socket_fd ≡ true
      → is_expired job now ≡ false
      → process_job hash names net handle table junk locals now later job w
        ≡ ok (done (enqueue, job, w))
  unfolding process_job read_request
  unclaimed job table junk locals now later w t s fresh =
      rw (fresh, s, parse_unfinished job [] locals t (omega arith), t.tail) refl

  fresh_job : (now : ℕ) → is_expired (job_construct (negsuc 0)) now ≡ false
  unfolding is_expired job_construct job_clear_buffer
  fresh_job now = refl

  no_client : no_socket (job_construct (negsuc 0)).client_socket_fd ≡ true
  unfolding job_construct job_clear_buffer
  no_client = refl

  pushes_failed :
      {A : Type 0} (pushes : ℕ) (signal : Bool) (accepts : List (ℤ × Bool)) (again : Thread A)
      → (k : Status → Thread A) × (accept_loop
            (suc pushes)
            (pos 0)
            ((negsuc 0, signal) ∷ accepts)
            again
          ≡ push clients (job_construct (negsuc 0)) k)
  unfolding accept_loop push_until_taken
  pushes_failed pushes signal accepts again = (_, refl)

  -- Where accept fails and returns -1, the next that the listener does is to push a job with that
  -- descriptor on the client stack. That job never expires: whenever a worker processes it, it
  -- neither reads nor sends, and is to be put back as it was.
  pub failed_accept_forever :
      {A : Type 0} (pushes : ℕ) (signal : Bool) (accepts : List (ℤ × Bool)) (again : Thread A)
      → (job : Job) × (k : Status → Thread A) × (accept_loop
            (suc pushes)
            (pos 0)
            ((negsuc 0, signal) ∷ accepts)
            again
          ≡ push clients job k)
        × ((table : hash.Table) (junk : Bytes) (locals : Fields) (now later : ℕ) (w : net.World)
            → process_job hash names net handle table junk locals now later job w
              ≡ ok (done (enqueue, job, w)))
  failed_accept_forever pushes signal accepts again =
      let (k, pushed) = pushes_failed pushes signal accepts again in
      (
        job_construct (negsuc 0),
        k,
        pushed,
        λ table junk locals now later w.
            unclaimed (job_construct (negsuc 0)) table junk locals now later w
              (job_construct-HasText (negsuc 0)) no_client (fresh_job now),
      )
