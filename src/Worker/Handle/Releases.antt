-- ===== src/Worker/Handle/Releases.antt =====
-- The records that a worker holds when it has handled a request.
use http_exercise.Base.{
  ℕ, List, [], ◌∷◌, Option, none, some, Bool, Bool-cases, Option-cases, inl, inr, ◌+◌, replicate,
}
use http_exercise.Base.Int.{ℤ}
use http_exercise.Exec.{Exec-cases}
use http_exercise.Constants.{Status, success, fail, job_request_buffer_size}
use http_exercise.CStr.{Bytes, strchr}
use http_exercise.Job.{Job}
use http_exercise.CacheRecord.{ActionStatus, unavailable, should_read, should_write}
use http_exercise.CacheRecord.Grants.{Grants}
use http_exercise.Net.{Net}
use http_exercise.Resolver.{Resolver}
use http_exercise.Outside.{Outside}
use http_exercise.Thread.Closes.{granted, Closes}
use http_exercise.Worker.Send.{no_socket}
use http_exercise.Worker.Format.{server_request, cache_file_path, url_buffer}
use http_exercise.Worker.Handle.{
  send_file, serve_file, after_request, after_file, fetch, answer_valid_request, report_lookup,
  handle_valid_request,
}
use http_exercise.Worker.Handle.Settled.{
  Handled, failed, MayStay, closed_granted, dispatched, computed, looped, after_request-Closes,
}

module _ {names : Resolver} (net : Net) (outside : Outside names net) (junk : ℕ → Bytes)
    (thread_id : ℤ) (jobs : Bool) (w₀ : net.World) where
  open net use {World, File}
  open outside use {open_read, open_write}

  fetch-Closes :
      (g : Grants) (fuel : ℕ) (job : Job) (server : List names.Address) (path hostname : Bytes)
      (action : ActionStatus) (ptr : Option ℕ) (file : Option File) (w : World)
      → MayStay net outside junk thread_id jobs w₀ action
      → Closes jobs
          (Handled net outside junk thread_id jobs w₀ g)
          (granted action ptr g)
          (fetch net outside junk thread_id fuel job server path hostname action ptr file w)
  unfolding fetch
  fetch-Closes g fuel job [] path hostname action ptr file w stay = tt
  fetch-Closes g fuel job (address ∷ _) path hostname action ptr file w stay =
      elim (Bool-cases (outside.connect (outside.socket w).0 address (outside.socket w).1).0) [
        | inr refused ↦ rw refused (failed net outside junk thread_id jobs w₀ g action ptr stay)
        | inl connected ↦ rw connected (
            computed net outside junk thread_id jobs w₀ g (granted action ptr g)
              (server_request path hostname) _
              (λ (request : Bytes × ℕ).
                computed net outside junk thread_id jobs w₀ g (granted action ptr g) _
                  (λ sent.
                    after_request net outside junk thread_id fuel job hostname action ptr file
                      (outside.socket w).0 sent.0 sent.1)
                  (λ (sent : Status × World).
                    after_request-Closes net outside junk thread_id jobs w₀ g fuel job hostname
                      action ptr file _ sent.0 sent.1 stay)))
      ]

  after_file-Closes :
      (g : Grants) (job : Job) (hostname : Bytes) (ptr : Option ℕ) (file : File) (status : Status)
      (w : World)
      → Closes jobs
          (Handled net outside junk thread_id jobs w₀ g)
          (granted should_read ptr g)
          (after_file net outside junk thread_id job hostname ptr file status w)
  unfolding after_file
  after_file-Closes g job hostname ptr file fail w =
      closed_granted net outside junk thread_id jobs w₀ g should_read ptr _
  after_file-Closes g job hostname ptr file _ w =
      dispatched net outside junk thread_id jobs w₀ g should_read ptr hostname file w _

  serve_file-Closes :
      (g : Grants) (fuel : ℕ) (job : Job) (hostname : Bytes) (ptr : Option ℕ) (file : File)
      (w : World)
      → Closes jobs
          (Handled net outside junk thread_id jobs w₀ g)
          (granted should_read ptr g)
          (serve_file net outside junk thread_id fuel job hostname ptr file w)
  unfolding serve_file
  serve_file-Closes g fuel job hostname ptr file w =
      looped net outside junk thread_id jobs w₀ g (granted should_read ptr g)
        (send_file net outside junk thread_id fuel job.client_socket_fd file
          (replicate (job_request_buffer_size + 1) 0) w)
        (λ r. after_file net outside junk thread_id job hostname ptr file r.0 r.1)
        (λ (r : Status × World). after_file-Closes g job hostname ptr file r.0 r.1)

  answer_valid_request-Closes :
      (g : Grants) (fuel : ℕ) (garbage : Option File) (job : Job) (server : List names.Address)
      (path hostname : Bytes) (action : ActionStatus) (ptr : Option ℕ)
      → Closes jobs (Handled net outside junk thread_id jobs w₀ g) (granted action ptr g) (
          answer_valid_request net outside junk thread_id fuel garbage job server path hostname
            action ptr w₀)
  unfolding answer_valid_request
  answer_valid_request-Closes g fuel garbage job server path hostname unavailable ptr =
      elim (Bool-cases (no_socket job.client_socket_fd)) [
        | inl s ↦
            rw s (closed_granted net outside junk thread_id jobs w₀ g unavailable ptr (success, w₀))
        | inr s ↦ rw s (fetch-Closes g fuel job server path hostname unavailable ptr garbage w₀ tt)
      ]
  answer_valid_request-Closes g fuel garbage job server path hostname should_write ptr = λ name.
      computed net outside junk thread_id jobs w₀ g (granted should_write ptr g)
        (cache_file_path name) _
        (λ (file_path : Bytes).
          fetch-Closes g fuel job server path hostname should_write ptr (open_write file_path w₀).0
            (open_write file_path w₀).1 tt)
  answer_valid_request-Closes g fuel garbage job server path hostname should_read ptr =
      elim (Bool-cases (no_socket job.client_socket_fd)) [
        | inl s ↦
            rw s (closed_granted net outside junk thread_id jobs w₀ g should_read ptr (success, w₀))
        | inr s ↦ rw s (λ name. elim (Exec-cases (cache_file_path name)) [
          | inl bad ↦ rw bad tt
          | inr (file_path, named) ↦ rw named (elim (Option-cases (open_read file_path w₀).0) [
            | inl missing ↦ rw missing (
                fetch-Closes g fuel job server path hostname should_read ptr none
                  (open_read file_path w₀).1 (name, file_path, named, missing))
            | inr (file, e) ↦
                rw e (serve_file-Closes g fuel job hostname ptr file (open_read file_path w₀).1)
          ])
        ])
      ]

  report_lookup-Closes :
      (g : Grants) (fuel : ℕ) (garbage : Option File) (job : Job) (server : List names.Address)
      (path hostname : Bytes) (action : ActionStatus) (ptr : Option ℕ)
      → Closes jobs (Handled net outside junk thread_id jobs w₀ g) (granted action ptr g) (
          report_lookup net outside junk thread_id fuel garbage job server path hostname w₀ action
            ptr)
  unfolding report_lookup
  report_lookup-Closes g fuel garbage job server path hostname action ptr =
      answer_valid_request-Closes g fuel garbage job server path hostname action ptr

module _ {names : Resolver} (net : Net) (outside : Outside names net) (junk : ℕ → Bytes)
    (thread_id : ℤ) (jobs : Bool) where
  open net use {World, File}

  -- Whatever the network does and whatever answers it gets, a worker that handles a request closes
  -- only a record that it was granted for the request, as what it was granted, and once. If it
  -- returns SUCCESS it has closed a record that it was to write. A record that it was to read stays
  -- open only if the cache file of a name could not be opened in the world that the worker began with.
  pub handle_valid_request-Closes :
      (g : Grants) (fuel : ℕ) (garbage : Option File) (job : Job) (server : List names.Address)
      (path hostname : Bytes) (w : World)
      → Closes jobs
          (Handled net outside junk thread_id jobs w g)
          g
          (handle_valid_request net outside junk thread_id fuel garbage job server path hostname w)
  unfolding handle_valid_request
  handle_valid_request-Closes g fuel garbage job server path hostname w =
      elim (Exec-cases (strchr path 0 b'?')) [
        | inl f ↦ rw f tt
        | inr (none, e) ↦ rw e (
            computed net outside junk thread_id jobs w g g (url_buffer hostname path) _
              (λ (url : Bytes). λ action ptr.
                report_lookup-Closes net outside junk thread_id jobs w g fuel garbage job server
                  path hostname action ptr))
        | inr (some q, e) ↦ rw e (
            report_lookup-Closes net outside junk thread_id jobs w g fuel garbage job server path
              hostname unavailable none)
      ]
