-- ===== src/Worker/Handle.antt =====
-- `handle_valid_request`: a request is answered from the cache or from its server.
pub mod Settled
pub mod Releases
pub mod Unmoved
pub mod Hit
pub mod Stuck
use http_exercise.Base.{
  ℕ, zero, suc, ◌+◌, ◌/◌, ◌%◌, Bool, true, false, not, ◌&&◌, List, [], ◌∷◌, ◌++◌, Option, none,
  some, ltb, ◌==◌, if◌then◌else◌, length, replicate,
}
use http_exercise.Base.Int.{ℤ, pos, negsuc}
use http_exercise.Exec.{Exec, ok, fault}
use http_exercise.Exec
use http_exercise.Constants.{
  Status, success, fail, job_request_buffer_size, max_name_length, max_url_size,
}
use http_exercise.CStr.{Bytes, codes, cstr, strchr, overwrite, store}
use http_exercise.Job.{Job}
use http_exercise.CacheRecord.{ActionStatus, unavailable, should_read, should_write}
use http_exercise.Net.{Net}
use http_exercise.Resolver.{Resolver}
use http_exercise.Outside.{Outside}
use http_exercise.Thread.{
  Thread, done, crash, get_record, record_name, close_record, push, print, close_fd, prefetches,
  lift, lift_loop, ◌>>=◌,
}
use http_exercise.Worker.Format.{
  print_digits, print_int, output_line, hit_or_miss, sprintf, url_buffer, cache_file_path,
  server_request,
}
use http_exercise.Worker.Send.{no_socket, try_send_in_chunks}
use http_exercise.Worker.Relay.{relay_response}
use http_exercise.Worker.Prefetch.{dispatch_prefetch_jobs}

-- A worker pushes each job; what the push returns is not looked at.
unfoldable pub push_jobs : List Job → Thread (Unit {0})
push_jobs [] = done tt
push_jobs (job ∷ jobs) = push prefetches job (λ status. push_jobs jobs)

module _ {names : Resolver} (net : Net) (outside : Outside names net) (junk : ℕ → Bytes)
    (thread_id : ℤ) where
  open net use {World, File}
  open outside use {open_read, open_write, fread, fclose, text, socket, connect}

  -- `dispatch_prefetch_jobs` on an open file. The search for links touches nothing that threads
  -- share, so all links are found before the first is pushed. The buffer for a link is written
  -- before it is read, so that NULs stand for what it held.
  unfoldable pub dispatch_file : Bytes → File → World → Thread (Unit {0})
  dispatch_file hostname cached_response w = do
    jobs ← lift (
        dispatch_prefetch_jobs junk hostname
          (record { content = text cached_response w; position = 0 })
          (replicate (max_url_size + 1) 0))
    push_jobs jobs

  -- The loop over the chunks of a cached file. `none` is fuel run out.
  unfoldable pub send_file : ℕ → ℤ → File → Bytes → World → Exec (Option (Status × World))
  send_file zero fd cache_file response_buffer w = ok none
  send_file (suc fuel) fd cache_file response_buffer w =
      let (chunk, w₁) = fread cache_file job_request_buffer_size w in
      Exec.◌>>=◌ (overwrite response_buffer chunk) (λ filled.
        Exec.◌>>=◌ (store filled (length chunk) 0) (λ ended.
          if length chunk == 0
          then ok (some (success, w₁))
          else Exec.◌>>=◌ (try_send_in_chunks net fd ended (pos (length chunk)) w₁) (λ sent.
            elim sent.0 [
              | fail ↦ ok (some (fail, sent.1))
              | _ ↦ send_file fuel fd cache_file ended sent.1
            ])))

  -- what follows the loop of a cache hit
  unfoldable pub after_file :
      Job → Bytes → Option ℕ → File → Status → World → Thread (Status × World)
  after_file current_job hostname cache_record cache_file fail w =
      print
        (output_line thread_id current_job.client_socket_fd (codes "sending to client failed\n"))
        (close_record cache_record should_read (done (fail, fclose cache_file w)))
  after_file current_job hostname cache_record cache_file _ w = do
    pushed ← dispatch_file hostname cache_file w
    close_record cache_record should_read (done (success, fclose cache_file w))

  -- A cache hit whose file is open.
  unfoldable pub serve_file : ℕ → Job → Bytes → Option ℕ → File → World → Thread (Status × World)
  serve_file fuel current_job hostname cache_record cache_file w = do
    sent ← lift_loop (
        send_file fuel current_job.client_socket_fd cache_file
          (replicate (job_request_buffer_size + 1) 0) w)
    after_file current_job hostname cache_record cache_file sent.0 sent.1

  -- fclose for a file that may be NULL
  unfoldable pub close_if_open : Option File → World → World
  close_if_open none w = w
  close_if_open (some file) w = fclose file w

  -- What is left when a response has been relayed. Only the client that writes the record has a file
  -- to close, and fclose of NULL is a crash.
  unfoldable pub finish_write :
      Job → Bytes → ActionStatus → Option ℕ → Option File → World → Thread (Status × World)
  finish_write current_job hostname should_write cache_record (some file) w =
      if no_socket current_job.client_socket_fd
      then close_record cache_record should_write (done (success, fclose file w))
      else (do
        pushed ← dispatch_file hostname file w
        close_record cache_record should_write (done (success, fclose file w)))
  finish_write current_job hostname should_write cache_record none w = crash
  finish_write current_job hostname _ cache_record cache_file w = done (success, w)

  -- what follows the relay of a response
  unfoldable pub after_relay :
      Job
      → Bytes
      → ActionStatus
      → Option ℕ
      → Option File
      → ℤ
      → Status
      → World
      → Thread (Status × World)
  after_relay current_job hostname action cache_record cache_file server_socket_fd fail w =
      print
        (output_line thread_id current_job.client_socket_fd (codes "sending to client failed\n"))
        (done (fail, w))
  after_relay current_job hostname action cache_record cache_file server_socket_fd _ w =
      if no_socket current_job.client_socket_fd
      then close_fd server_socket_fd
          (finish_write current_job hostname action cache_record cache_file w)
      else print
          (output_line thread_id current_job.client_socket_fd
            (codes "response relayed to client\n"))
          (close_fd server_socket_fd
            (finish_write current_job hostname action cache_record cache_file w))

  -- what follows the request to the server
  unfoldable pub after_request :
      ℕ
      → Job
      → Bytes
      → ActionStatus
      → Option ℕ
      → Option File
      → ℤ
      → Status
      → World
      → Thread (Status × World)
  after_request fuel current_job hostname action cache_record cache_file server_socket_fd fail w =
      print
        (output_line thread_id current_job.client_socket_fd (codes "sending to server failed\n"))
        (done (fail, close_if_open cache_file w))
  after_request fuel current_job hostname action cache_record cache_file server_socket_fd _ w = do
    relayed ←
        lift_loop
          (relay_response net current_job.client_socket_fd server_socket_fd cache_file fuel w)
    after_relay current_job hostname action cache_record cache_file server_socket_fd relayed.0
        relayed.1

  -- From the socket to the server on. On the paths that fail nobody closes the record or the socket.
  unfoldable pub fetch :
      ℕ
      → Job
      → List names.Address
      → Bytes
      → Bytes
      → ActionStatus
      → Option ℕ
      → Option File
      → World
      → Thread (Status × World)
  fetch fuel current_job [] path hostname action cache_record cache_file w = crash
  fetch fuel current_job (server_address ∷ _) path hostname action cache_record cache_file w =
      let (server_socket_fd, w₁) = socket w in
      let (connected, w₂) = connect server_socket_fd server_address w₁ in
      if not connected then done (fail, close_if_open cache_file w₂) else (do
        request ← lift (server_request path hostname)
        sent ← lift (try_send_in_chunks net server_socket_fd request.0 (pos request.1) w₂)
        after_request fuel current_job hostname action cache_record cache_file server_socket_fd
            sent.0 sent.1)

  -- What comes after the lookup. `garbage` is what the local variable `cache_file` held.
  unfoldable pub answer_valid_request :
      ℕ
      → Option File
      → Job
      → List names.Address
      → Bytes
      → Bytes
      → ActionStatus
      → Option ℕ
      → World
      → Thread (Status × World)
  answer_valid_request fuel garbage current_job server path hostname should_read cache_record w =
      if no_socket current_job.client_socket_fd
      then close_record cache_record should_read (done (success, w))
      else record_name cache_record (λ name. do
        file_path ← lift (cache_file_path name)
        let (cache_file, w₁) = open_read file_path w
        elim cache_file [
          | some file ↦ serve_file fuel current_job hostname cache_record file w₁
          | none ↦ fetch fuel current_job server path hostname should_read cache_record none w₁
        ])
  answer_valid_request fuel garbage current_job server path hostname should_write cache_record w =
      record_name cache_record (λ name. do
        file_path ← lift (cache_file_path name)
        let (cache_file, w₁) = open_write file_path w
        fetch fuel current_job server path hostname should_write cache_record cache_file w₁)
  answer_valid_request fuel garbage current_job server path hostname unavailable cache_record w =
      if no_socket current_job.client_socket_fd
      then close_record cache_record unavailable (done (success, w))
      else fetch fuel current_job server path hostname unavailable cache_record garbage w

  -- the line that says how the lookup went, and the rest
  unfoldable pub report_lookup :
      ℕ
      → Option File
      → Job
      → List names.Address
      → Bytes
      → Bytes
      → World
      → ActionStatus
      → Option ℕ
      → Thread (Status × World)
  report_lookup fuel garbage current_job server path hostname w action cache_record =
      print (output_line thread_id current_job.client_socket_fd (hit_or_miss action))
        (answer_valid_request fuel garbage current_job server path hostname action cache_record w)

  unfoldable pub handle_valid_request :
      ℕ → Option File → Job → List names.Address → Bytes → Bytes → World → Thread (Status × World)
  handle_valid_request fuel garbage current_job server path hostname w = do
    url_question_mark ← lift (strchr path 0 b'?')
    elim url_question_mark [
      | none ↦ (do
        url ← lift (url_buffer hostname path)
        get_record url (report_lookup fuel garbage current_job server path hostname w))
      | some _ ↦ report_lookup fuel garbage current_job server path hostname w unavailable none
    ]
