-- ===== src/Worker/Process/Outcomes.antt =====
-- The ways in which `process_job` may end.
use http_exercise.Base.{
  ℕ, ◌+◌, ◌-◌, ◌≡◌, refl, List, [], ◌∷◌, ◌⊎◌, inl, inr, Bool, true, false, not, ◌&&◌, ◌==◌,
  Option-cases, if◌then◌else◌, take, drop, length, ◌++◌, ◌^◌, ◌%◌, Option,
}
use http_exercise.Base.Int.{ℤ, pos}
use http_exercise.Exec.{Exec, ok, fault, ◌>>=◌, Exec-cases}
use http_exercise.Constants.{
  Status, terminate, enqueue, keep_alive_timeout, job_request_buffer_size,
}
use http_exercise.CStr.{Bytes, overwrite}
use http_exercise.Job.{Job}
use http_exercise.Net.{Net}
use http_exercise.Resolver.{Resolver}
use http_exercise.UtHash.{UtHash}
use http_exercise.BlockTable.{TableElement}
use http_exercise.Parsing.{malformed}
use http_exercise.Parsing.Request.{Fields, Parsed, parse_request_string}
use http_exercise.Thread
use http_exercise.Thread.{Thread, done}
use http_exercise.Worker.{HostStatus}
use http_exercise.Worker.Resolve.{resolve_host}
use http_exercise.Worker.Send.{no_socket, try_send_in_chunks}
use http_exercise.Worker.Process.{
  empty_response, is_refused, is_ok, is_fail, is_expired, version_line, refusal_line, closing_line,
  add_line, add_bytes, answer_request, read_request, process_job,
}

module _ (hash : UtHash TableElement) (names : Resolver) (net : Net)
    (handle : Job
      → List names.Address
      → Bytes
      → Bytes
      → net.World
      → Thread (Status × net.World)) where
  open hash use {Table}
  open net use {World, recv}

  -- A job with the descriptor `fd` is over, or goes back onto the stack, or has a request that is
  -- handled and is over then. The job keeps its descriptor.
  pub data Outcome (fd : ℤ) : Exec (Thread (Status × Job × World)) → Type 0 where
    faults : Outcome fd fault
    settled :
        (status : Status) (job : Job) (w : World)
        → job.client_socket_fd ≡ fd
        → (status ≡ terminate) ⊎ (status ≡ enqueue)
        → Outcome fd (ok (done (status, job, w)))
    handled :
        (job : Job) (server : List names.Address) (path hostname : Bytes) (w : World)
        → job.client_socket_fd ≡ fd
        → Outcome fd (
            ok (
              Thread.◌>>=◌
                (handle job server path hostname w)
                (λ ret. done (terminate, job, ret.1))))

  after_step :
      {A : Type 0} (fd : ℤ) (run : Exec A) (rest : A → Exec (Thread (Status × Job × World)))
      → ((a : A) → Outcome fd (rest a))
      → Outcome fd (run >>= rest)
  after_step fd fault rest f = faults
  after_step fd (ok a) rest f = f a

  chosen :
      (fd : ℤ) (b : Bool) (x y : Exec (Thread (Status × Job × World)))
      → Outcome fd x
      → Outcome fd y
      → Outcome fd (if b then x else y)
  chosen fd true x y p q = p
  chosen fd false x y p q = q

  answer_request-Outcome :
      (table : Table) (junk : Bytes) (job : Job) (fields : Fields) (w : World)
      → Outcome job.client_socket_fd (answer_request hash names net handle table junk job fields w)
  unfolding answer_request
  answer_request-Outcome table junk job fields w =
      after_step _ (add_line empty_response 0 (version_line fields.version)) _
        (λ (first : Bytes × ℕ).
          chosen _ (is_refused fields.version) _ _
            (after_step _ (try_send_in_chunks net job.client_socket_fd first.0 (pos first.1) w) _
              (λ (sent : Status × World). settled terminate job sent.1 refl (inl refl)))
            (after_step _ (resolve_host hash names table junk fields.hostname) _
              (λ (server : HostStatus × List names.Address).
                chosen _ (fields.is_get && is_ok server.0) _ _
                  (handled job server.1 fields.path fields.hostname w refl)
                  (after_step _ (add_line first.0 first.1 (refusal_line fields.is_get server.0)) _
                    (λ (second : Bytes × ℕ).
                      after_step _
                        (add_line second.0 second.1 (closing_line fields.proxy_keep_alive)) _
                        (λ (third : Bytes × ℕ).
                          after_step _
                            (try_send_in_chunks net job.client_socket_fd third.0 (pos third.1) w) _
                            (λ (sent : Status × World).
                              settled terminate job sent.1 refl (inl refl))))))))

  read_request-Outcome :
      (table : Table) (junk : Bytes) (locals : Fields) (job : Job) (w : World)
      → Outcome job.client_socket_fd (read_request hash names net handle table junk locals job w)
  unfolding read_request
  read_request-Outcome table junk locals job w =
      after_step _ (parse_request_string job.request locals) _ (λ (parsed : Parsed).
        chosen _ (is_fail parsed.0 && not (job.request_tail == job_request_buffer_size - 1)) _ _
          (settled enqueue (record job { request = parsed.1 }) w refl (inr refl))
          (chosen _ (is_fail parsed.0) _ _
            (answer_request-Outcome table junk (record job { request = parsed.1 })
              (record parsed.2 { version = malformed }) w)
            (answer_request-Outcome table junk (record job { request = parsed.1 }) parsed.2 w)))

  -- The job that is read keeps the descriptor.
  read_on :
      (table : Table) (junk : Bytes) (locals : Fields) (now : ℕ) (job : Job) (bytes : Bytes)
      (w : World)
      → Outcome job.client_socket_fd (
          add_bytes job bytes now >>= λ read.
          read_request hash names net handle table junk locals read w)
  unfolding add_bytes
  read_on table junk locals now job bytes w =
      elim (Exec-cases (overwrite (drop job.request_tail job.request) bytes)) [
        | inl f ↦ rw f faults
        | inr (rest, e) ↦ rw e (
            read_request-Outcome table junk locals
              (record job {
                request = take job.request_tail job.request ++ rest;
                request_tail = job.request_tail + length bytes;
                expiration_time = (now + keep_alive_timeout) % 2 ^ 32;
              })
              w)
      ]

  -- Whatever the job, the system and the block table are, `process_job` returns TERMINATE or
  -- ENQUEUE, or handles a request and returns TERMINATE then, unless its behaviour is undefined or
  -- the handling does not end. The job keeps its descriptor.
  pub process_job-Outcome :
      (table : Table) (junk : Bytes) (locals : Fields) (now later : ℕ) (job : Job) (w : World)
      → Outcome job.client_socket_fd
          (process_job hash names net handle table junk locals now later job w)
  unfolding process_job
  process_job-Outcome table junk locals now later job w =
      chosen _ (is_expired job now) _ _ (settled terminate job w refl (inl refl)) (
        chosen _ (no_socket job.client_socket_fd) _ _ (read_request-Outcome table junk locals job w)
          (elim (Option-cases received.0) [
            | inl e ↦ rw e (settled enqueue job received.1 refl (inr refl))
            | inr ([], e) ↦ rw e (settled terminate job received.1 refl (inl refl))
            | inr (b ∷ more, e) ↦ rw e (read_on table junk locals later job (b ∷ more) received.1)
          ]))
    where
      received : Option Bytes × World
      received = recv job.client_socket_fd (job_request_buffer_size - job.request_tail) w
