-- ===== src/Worker/Process.antt =====
-- `process_job`, over what `handle_valid_request` does with a request that may be fetched. Up to
-- that call it computes for itself, and what is left to do is a `Thread`.
pub mod Pieces
pub mod Refused
pub mod Outcomes
pub mod Forever
use http_exercise.Base.{
  ℕ, zero, suc, ◌+◌, ◌-◌, ◌%◌, ◌^◌, Bool, true, false, not, ◌&&◌, List, [], ◌∷◌, ◌++◌, Option, none,
  some, ltb, ◌==◌, if◌then◌else◌, length, take, drop, replicate,
}
use http_exercise.Base.Int.{ℤ, pos}
use http_exercise.Exec.{Exec, ok, fault, ◌>>=◌}
use http_exercise.Constants.{
  Status, success, fail, terminate, enqueue, job_request_buffer_size, max_name_length, max_url_size,
  keep_alive_timeout,
}
use http_exercise.CStr.{Bytes, codes, overwrite}
use http_exercise.Job.{Job}
use http_exercise.Net.{Net}
use http_exercise.Resolver.{Resolver}
use http_exercise.UtHash.{UtHash}
use http_exercise.BlockTable.{TableElement}
use http_exercise.Parsing.{HttpVersion, malformed, not_supported, dot_zero, dot_one}
use http_exercise.Parsing.Request.{Fields, parse_request_string}
use http_exercise.Thread
use http_exercise.Thread.{Thread, done}
use http_exercise.Worker.{HostStatus, host_ok, host_error, not_found, blocked}
use http_exercise.Worker.Resolve.{resolve_host}
use http_exercise.Worker.Send.{no_socket, copy_into_buffer, try_send_in_chunks}

-- `response_buffer` at the start of `process_job`
unfoldable pub empty_response : Bytes
empty_response = replicate (job_request_buffer_size + 1) 0

-- A job whose time is over. The time is an `unsigned int`.
unfoldable pub is_expired : Job → ℕ → Bool
is_expired job now = not (job.expiration_time == 0) && ltb job.expiration_time (now % 2 ^ 32)

-- what recv adds to the request of a job, and its new time
unfoldable pub add_bytes : Job → Bytes → ℕ → Exec Job
add_bytes job bytes now = do
  rest ← overwrite (drop job.request_tail job.request) bytes
  ok (record job {
    request = take job.request_tail job.request ++ rest;
    request_tail = job.request_tail + length bytes;
    expiration_time = (now + keep_alive_timeout) % 2 ^ 32;
  })

-- the first words of a response
abbrev pub version_line : HttpVersion → Bytes
version_line malformed = codes "HTTP/1.1 400 Bad Request\r\n"
version_line not_supported = codes "HTTP/1.1 505 HTTP Version Not Supported\r\n"
version_line dot_zero = codes "HTTP/1.0 "
version_line dot_one = codes "HTTP/1.1 "

-- the rest of the first line where the request is not fetched
abbrev pub refusal_line : Bool → HostStatus → Bytes
refusal_line false status = codes "405 Method Not Allowed\r\n"
refusal_line true blocked = codes "403 Forbidden\r\n"
refusal_line true not_found = codes "404 Not Found\r\n"
refusal_line true _ = []

abbrev pub is_ok : HostStatus → Bool
is_ok host_ok = true
is_ok _ = false

abbrev pub closing_line : Bool → Bytes
closing_line true = codes "Proxy-Connection: close\r\n\r\n"
closing_line false = []

-- only a version that is not supported is refused before the host is looked up
abbrev pub is_refused : HttpVersion → Bool
is_refused malformed = true
is_refused not_supported = true
is_refused dot_zero = false
is_refused dot_one = false

abbrev pub is_fail : Status → Bool
is_fail fail = true
is_fail _ = false

-- a line of the response, if there is one
unfoldable pub add_line : Bytes → ℕ → Bytes → Exec (Bytes × ℕ)
add_line response_buffer response_tail [] = ok (response_buffer, response_tail)
add_line response_buffer response_tail (c ∷ line) =
    copy_into_buffer response_buffer response_tail ((c ∷ line) ++ 0 ∷ [])

module _ (hash : UtHash TableElement) (names : Resolver) (net : Net)
    (handle : Job
      → List names.Address
      → Bytes
      → Bytes
      → net.World
      → Thread (Status × net.World)) where
  open hash use {Table}
  open net use {World, recv}

  -- From the first line of the response on. `junk` is what the local buffer of `resolve_host` held.
  unfoldable pub answer_request :
      Table → Bytes → Job → Fields → World → Exec (Thread (Status × Job × World))
  answer_request table junk job fields w = do
    first ← add_line empty_response 0 (version_line fields.version)
    if is_refused fields.version
        then (do
          sent ← try_send_in_chunks net job.client_socket_fd first.0 (pos (first.1)) w
          ok (done (terminate, job, sent.1)))
        else (do
          server ← resolve_host hash names table junk fields.hostname
          if fields.is_get && is_ok (server.0)
              then (do
                let handled = handle job (server.1) fields.path fields.hostname w
                ok (Thread.◌>>=◌ handled (λ ret. done (terminate, job, ret.1))))
              else (do
                second ← add_line first.0 first.1 (refusal_line fields.is_get (server.0))
                third ← add_line second.0 second.1 (closing_line fields.proxy_keep_alive)
                sent ← try_send_in_chunks net job.client_socket_fd third.0 (pos (third.1)) w
                ok (done (terminate, job, sent.1))))

  -- A job with the bytes that it has. A request with no complete line is put back, unless it fills
  -- the buffer.
  unfoldable pub read_request :
      Table → Bytes → Fields → Job → World → Exec (Thread (Status × Job × World))
  read_request table junk locals job w = do
    parsed ← parse_request_string job.request locals
    let read = record job { request = parsed.1 }
    if is_fail (parsed.0) && not (job.request_tail == job_request_buffer_size - 1)
        then ok (done (enqueue, read, w))
        else if is_fail (parsed.0)
        then answer_request table junk read (record (parsed.2) { version = malformed }) w
        else answer_request table junk read (parsed.2) w

  -- `locals` are the local variables before the request is parsed. `now` and `later` are what the
  -- two calls of `time` return.
  unfoldable pub process_job :
      Table → Bytes → Fields → ℕ → ℕ → Job → World → Exec (Thread (Status × Job × World))
  process_job table junk locals now later job w =
      if is_expired job now
      then ok (done (terminate, job, w))
      else if no_socket job.client_socket_fd
      then read_request table junk locals job w
      else (let (got, w₁) =
            recv job.client_socket_fd (job_request_buffer_size - job.request_tail) w in
          elim got [
            | none ↦ ok (done (enqueue, job, w₁))
            | some [] ↦ ok (done (terminate, job, w₁))
            | some (b ∷ more) ↦ (do
              read ← add_bytes job (b ∷ more) later
              read_request table junk locals read w₁)
          ])
