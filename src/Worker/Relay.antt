-- ===== src/Worker/Relay.antt =====
-- The part of `handle_valid_request` that relays a response: what the server sends goes to the
-- client, and into the cache file if there is one.
pub mod Relayed
pub mod Silent
use http_exercise.Base.{
  ◌^◌, Bool, ltb, ℕ, zero, suc, ◌+◌, List, Option, none, some, if◌then◌else◌, length, replicate,
}
use http_exercise.Base.Int.{ℤ, pos, negsuc, ◌+ℤ◌, ◌-ℤ◌, ltb_ℤ}
use http_exercise.Exec.{Exec, ok, fault, ◌>>=◌}
use http_exercise.Constants.{Status, success, fail, job_request_buffer_size}
use http_exercise.CStr.{Bytes, overwrite}
use http_exercise.Net.{Net}
use http_exercise.Parsing.Response.{parse_response_header}
use http_exercise.Worker.Send.{cache_and_send}

-- `bytes_read`, the value of recv
abbrev pub bytes_read : Option Bytes → ℤ
bytes_read none = negsuc 0
bytes_read (some bytes) = pos (length bytes)

-- the buffer behind a recv: what comes in lies over its start
unfoldable pub recv_into : Bytes → Option Bytes → Exec Bytes
recv_into buffer none = ok buffer
recv_into buffer (some bytes) = overwrite buffer bytes

-- the values of a C int
abbrev pub is_int : ℤ → Bool
is_int (pos n) = ltb n (2 ^ 31)
is_int (negsuc n) = ltb n (2 ^ 31)

-- a sum of ints: an overflow is undefined
unfoldable pub add_int : ℤ → ℤ → Exec ℤ
add_int a b = if is_int (a +ℤ b) then ok (a +ℤ b) else fault

module _ (net : Net) (client_socket server_socket : ℤ) (cache_file : Option net.File) where
  open net use {World, recv}

  -- The loop until the content is complete, or the client has gone. `none` is fuel run out: a server
  -- that stops early leaves the loop without end.
  unfoldable pub relay_loop : ℕ → Bytes → ℤ → ℤ → World → Exec (Option World)
  relay_loop zero buffer content_length content_read w = ok none
  relay_loop (suc fuel) buffer content_length content_read w =
      if ltb_ℤ content_read content_length
      then (let (got, w₁) = recv server_socket job_request_buffer_size w in
          do
            response_buffer ← recv_into buffer got
            read ← add_int content_read (bytes_read got)
            sent ← cache_and_send net client_socket cache_file response_buffer (bytes_read got) w₁
            elim sent.0 [
              | fail ↦ ok (some (sent.1))
              | _ ↦ relay_loop fuel response_buffer content_length read sent.1
            ])
      else ok (some w)

  unfoldable pub after_first : ℕ → Bytes → ℤ → ℤ × ℤ → World → Exec (Option (Status × World))
  after_first fuel buffer read (header_length, content_length) w = do
    whole ← add_int header_length content_length
    if ltb_ℤ read whole
        then (do
          end ← relay_loop fuel buffer content_length (read -ℤ header_length) w
          ok (elim end [ none ↦ none | some w₁ ↦ some (success, w₁) ]))
        else ok (some (success, w))

  -- From the first recv to the end of the relay.
  unfoldable pub relay_response : ℕ → World → Exec (Option (Status × World))
  relay_response fuel w =
      let (got, w₁) = recv server_socket job_request_buffer_size w in
      do
        response_buffer ← recv_into (replicate (job_request_buffer_size + 1) 0) got
        lengths ← parse_response_header response_buffer
        sent ← cache_and_send net client_socket cache_file response_buffer (bytes_read got) w₁
        elim sent.0 [
          | fail ↦ ok (some (fail, sent.1))
          | _ ↦ after_first fuel response_buffer (bytes_read got) lengths sent.1
        ]
