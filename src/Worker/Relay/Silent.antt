-- ===== src/Worker/Relay/Silent.antt =====
-- The relay of a response whose server has closed the connection too early.
use http_exercise.Base.{
  ℕ, zero, suc, ◌≡◌, refl, true, [], inl, inr, Option, none, some, arith, Bool-cases,
}
use http_exercise.Base.Int.{ℤ, pos, ltb_ℤ}
use http_exercise.Exec.{ok}
use http_exercise.Constants.{success, job_request_buffer_size}
use http_exercise.CStr.{Bytes, overwrite}
use http_exercise.Net.{Net}
use http_exercise.Worker.Send.{
  no_socket, cache_and_send, cache_file_write, try_send_in_chunks, send_chunks,
}
use http_exercise.Worker.Send.Sent.{slice_lem}
use http_exercise.Worker.Relay.{recv_into, relay_loop, is_int, add_int}
use http_exercise.Worker.Relay.Relayed.{add_zero}

add_int_zero : (read : ℤ) → is_int read ≡ true → add_int read (pos 0) ≡ ok read
unfolding add_int
add_int_zero read e = rw (add_zero read, e) refl

try_send_nothing :
    (net : Net) (client : ℤ) (buffer : Bytes) (w : net.World)
    → try_send_in_chunks net client buffer (pos 0) w ≡ ok (success, w)
unfolding try_send_in_chunks send_chunks
try_send_nothing net client buffer w = elim (Bool-cases (no_socket client)) [
  | inl s ↦ rw s refl
  | inr s ↦ rw s refl
]

-- nothing is received, so nothing is passed on to the client
pass_on_nothing :
    (net : Net) (client : ℤ) (file : Option net.File) (buffer : Bytes) (w : net.World)
    → (w' : net.World) × (cache_and_send net client file buffer (pos 0) w ≡ ok (success, w'))
unfolding cache_and_send cache_file_write
pass_on_nothing net client none buffer w = (w, try_send_nothing net client buffer w)
pass_on_nothing net client (some file) buffer w = (
  net.fwrite file [] w,
  rw (slice_lem buffer 0 0 (omega arith))
      (try_send_nothing net client buffer (net.fwrite file [] w)),
)

-- With a server that has closed the connection, so that each recv returns no bytes, before the
-- content was complete, the relay to a client, from a count that is an int on, with a cache file or without, never ends: no amount of
-- fuel is enough.
pub relay_loop_silent :
    (net : Net) (client server : ℤ) (file : Option net.File) (fuel : ℕ) (buffer : Bytes)
    (cl read : ℤ) (w : net.World)
    → ((w : net.World) → net.recv server job_request_buffer_size w ≡ (some [], w))
    → ltb_ℤ read cl ≡ true
    → is_int read ≡ true
    → relay_loop net client server file fuel buffer cl read w ≡ ok none
unfolding relay_loop recv_into overwrite
relay_loop_silent net client server file zero buffer cl read w silent more int = refl
relay_loop_silent net client server file (suc fuel) buffer cl read w silent more int =
    let (w', passed) = pass_on_nothing net client file buffer w in
    let same : add_int read (pos 0) ≡ ok read = add_int_zero read int in
    rw (more, silent w, same, passed, relay_loop)
      (relay_loop_silent net client server file fuel buffer cl read w' silent more int)
