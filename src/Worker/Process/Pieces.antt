-- ===== src/Worker/Process/Pieces.antt =====
-- A request line that arrives in pieces is gathered in its job.
use mathlib.Core.List.{append_assoc}
use http_exercise.Base.{
  ℕ, suc, ◌+◌, ◌-◌, ◌^◌, ◌%◌, ◌<◌, ◌≡◌, refl, sym, ap, ◌∙◌, false, List, [], ◌∷◌, ◌++◌, none, some,
  arith, ◌==◌, length, length-append, length-replicate, replicate, take-length-append,
  drop-length-append, drop-replicate,
}
use http_exercise.Base.Int.{ℤ}
use http_exercise.Exec.{ok}
use http_exercise.Constants.{Status, enqueue, fail, keep_alive_timeout, job_request_buffer_size}
use http_exercise.CStr.{Bytes, strchr, overwrite}
use http_exercise.CStr.Scan.{Lacks, Lacks-append, strchr-none}
use http_exercise.CStr.Copy.{overwrite-drop}
use http_exercise.Job.{Job, job_construct, job_clear_buffer}
use http_exercise.Net.{Net}
use http_exercise.Resolver.{Resolver}
use http_exercise.UtHash.{UtHash}
use http_exercise.BlockTable.{TableElement}
use http_exercise.Parsing.Request.{Fields, parse_request_string}
use http_exercise.Thread.{Thread, done}
use http_exercise.Worker.Send.{no_socket}
use http_exercise.Worker.Process.{is_expired, add_bytes, read_request, process_job}

-- The job has read the bytes `text`, part of a line, and its buffer holds NULs behind them.
pub record HasText (job : Job) (text : Bytes) : Type 0 where
  pub held : job.request ≡ text ++ replicate (job_request_buffer_size + 1 - length text) 0
  pub tail : job.request_tail ≡ length text
  pub unfinished : Lacks b'\n' text
  pub no_nul : Lacks 0 text

-- A new job has read nothing.
pub job_construct-HasText : (fd : ℤ) → HasText (job_construct fd) []
unfolding job_construct job_clear_buffer
job_construct-HasText fd = record { held = refl; tail = refl; unfinished = tt; no_nul = tt }

module _ (job : Job) (text : Bytes) (b : ℕ) (more : Bytes) (t : HasText job text)
    (line : Lacks b'\n' (b ∷ more)) (z : Lacks 0 (b ∷ more))
    (fits : length text + length (b ∷ more) < job_request_buffer_size - 1) where
  abbrev bytes : Bytes
  bytes = b ∷ more

  abbrev left : ℕ
  left = job_request_buffer_size + 1 - length (text ++ bytes)

  -- the job behind the piece
  abbrev pub grown : ℕ → Job
  grown now = record job {
    request = (text ++ bytes) ++ replicate left 0;
    request_tail = length text + length bytes;
    expiration_time = (now + keep_alive_timeout) % 2 ^ 32;
  }

  grown-HasText : (now : ℕ) → HasText (grown now) (text ++ bytes)
  grown-HasText now = record {
    held = refl;
    tail = sym (length-append text bytes);
    unfinished = Lacks-append b'\n' text bytes t.unfinished line;
    no_nul = Lacks-append 0 text bytes t.no_nul z;
  }

  filled :
      overwrite (replicate (job_request_buffer_size + 1 - length text) 0) bytes
      ≡ ok (bytes ++ replicate left 0)
  filled =
      overwrite-drop zeros bytes (omega (arith, fits, zeros-length))
      ∙ ap (λ l. ok (bytes ++ l))
          (drop-replicate (length bytes) (job_request_buffer_size + 1 - length text) 0
              (omega (arith, fits))
            ∙ ap (λ n. replicate n 0) (omega (arith, length-append text bytes)))
    where
      zeros : Bytes
      zeros = replicate (job_request_buffer_size + 1 - length text) 0

      zeros-length : length zeros ≡ job_request_buffer_size + 1 - length text
      zeros-length = length-replicate {A = ℕ} (job_request_buffer_size + 1 - length text) 0

  bytes_added : (now : ℕ) → add_bytes job bytes now ≡ ok (grown now)
  unfolding add_bytes
  bytes_added now =
      rw
        (
          t.held,
          t.tail,
          drop-length-append text (replicate (job_request_buffer_size + 1 - length text) 0),
          filled,
          take-length-append text (replicate (job_request_buffer_size + 1 - length text) 0),
          sym (append_assoc text bytes (replicate left 0)),
        )
        refl

  line_absent : (now : ℕ) → strchr (grown now).request 0 b'\n' ≡ ok none
  line_absent now =
      ap (λ n. strchr ((text ++ bytes) ++ replicate n 0) 0 b'\n') some_left
      ∙ strchr-none b'\n' [] (text ++ bytes) (replicate (left - 1) 0) (omega arith)
          (grown-HasText now).unfinished (grown-HasText now).no_nul
    where
      some_left : left ≡ suc (left - 1)
      some_left = omega (arith, fits, length-append text bytes)

  no_line :
      (now : ℕ) (locals : Fields)
      → parse_request_string (grown now).request locals ≡ ok (fail, (grown now).request, locals)
  unfolding parse_request_string
  no_line now locals = rw (line_absent now) refl

  module _ (hash : UtHash TableElement) (names : Resolver) (net : Net)
      (handle : Job
        → List names.Address
        → Bytes
        → Bytes
        → net.World
        → Thread (Status × net.World)) where
    open hash use {Table}
    open net use {World, recv}

    put_back :
        (table : Table) (junk : Bytes) (locals : Fields) (now : ℕ) (w : World)
        → read_request hash names net handle table junk locals (grown now) w
          ≡ ok (done (enqueue, grown now, w))
    unfolding read_request
    put_back table junk locals now w =
        let not_full : (length text + length bytes == job_request_buffer_size - 1) ≡ false =
          ground arith in
        rw (no_line now locals, not_full) refl

    -- A worker that receives a piece of a request line, with no end of line and within the buffer, puts
    -- the job back with the piece behind what it had read before, and gives it ten more seconds.
    -- Nothing is sent.
    pub process_job-piece :
        (table : Table) (junk : Bytes) (locals : Fields) (now later : ℕ) (w : World)
        → is_expired job now ≡ false
        → no_socket job.client_socket_fd ≡ false
        → (recv job.client_socket_fd (job_request_buffer_size - job.request_tail) w).0 ≡ some bytes
        → (process_job hash names net handle table junk locals now later job w
            ≡ ok (
                done (
                  enqueue,
                  grown later,
                  (recv job.client_socket_fd (job_request_buffer_size - job.request_tail) w).1,
                )))
          × HasText (grown later) (text ++ bytes)
    unfolding process_job
    process_job-piece table junk locals now later w fresh client got = (
      rw (fresh, client, got, bytes_added later) (put_back table junk locals later _),
      grown-HasText later,
    )
