-- ===== src/Worker/Send.antt =====
-- `try_send_in_chunks`, `cache_and_send` and `copy_into_buffer`: how a worker passes bytes on.
pub mod Sent
use http_exercise.Base.{
  ℕ, zero, suc, ◌+◌, ◌-◌, Bool, true, false, List, [], ◌∷◌, ◌++◌, Option, none, some, leb, ◌==◌,
  if◌then◌else◌, length, take, drop,
}
use http_exercise.Base.Int.{ℤ, pos, negsuc, pos_part, ltb_ℤ}
use http_exercise.Exec.{Exec, ok, fault, ◌>>=◌}
use http_exercise.Constants.{Status, success, fail}
use http_exercise.CStr.{Bytes, cstr, overwrite}
use http_exercise.Net.{Net}

-- the `n` bytes of a buffer from offset `i` on, as a call reads them
unfoldable pub slice : Bytes → ℕ → ℕ → Exec Bytes
slice buffer i n = if leb (i + n) (length buffer) then ok (take n (drop i buffer)) else fault

-- `strcpy(target + target_tail, content)`, and the new tail
unfoldable pub copy_into_buffer : Bytes → ℕ → Bytes → Exec (Bytes × ℕ)
copy_into_buffer target target_tail content = do
  s ← cstr content
  rest ← overwrite (drop target_tail target) (s ++ 0 ∷ [])
  ok (take target_tail target ++ rest, target_tail + length s)

abbrev pub no_socket : ℤ → Bool
no_socket (pos n) = false
no_socket (negsuc n) = n == 0

module _ (net : Net) where
  open net use {World, File, peek, send, fwrite}

  -- The loop of `try_send_in_chunks`. A round sends a byte or more, so `length` is fuel enough
  -- (Sent shows it). A peek of no bytes is a client that has closed.
  unfoldable pub send_chunks : ℕ → ℤ → Bytes → ℕ → ℤ → World → Exec (Status × World)
  send_chunks zero fd buffer bytes_sent length w = fault
  send_chunks (suc fuel) fd buffer bytes_sent length w =
      if ltb_ℤ (pos bytes_sent) length
      then (let (there, w₁) = peek fd w in
          elim there [
            | some zero ↦ ok (fail, w₁)
            | _ ↦ (do
              chunk ← slice buffer bytes_sent (pos_part length - bytes_sent)
              let (ret_status, w₂) = send fd chunk w₁
              elim ret_status [
                | none ↦ ok (fail, w₂)
                | some n ↦ send_chunks fuel fd buffer (bytes_sent + n) length w₂
              ])
          ])
      else ok (success, w)

  unfoldable pub try_send_in_chunks : ℤ → Bytes → ℤ → World → Exec (Status × World)
  try_send_in_chunks socket_fd buffer length w =
      if no_socket socket_fd
      then ok (success, w)
      else send_chunks (suc (pos_part length)) socket_fd buffer 0 length w

  -- A negative length is a huge one for fwrite.
  unfoldable pub cache_file_write : Option File → Bytes → ℤ → World → Exec World
  cache_file_write none buffer length w = ok w
  cache_file_write (some file) buffer (negsuc n) w = fault
  cache_file_write (some file) buffer (pos n) w = do
    bytes ← slice buffer 0 n
    ok (fwrite file bytes w)

  unfoldable pub cache_and_send : ℤ → Option File → Bytes → ℤ → World → Exec (Status × World)
  cache_and_send client_socket cache_file buffer length w = do
    w₁ ← cache_file_write cache_file buffer length w
    try_send_in_chunks client_socket buffer length w₁
