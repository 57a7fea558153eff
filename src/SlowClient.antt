-- ===== src/SlowClient.antt =====
-- slow-client.c: a client that sends its request piece by piece, with a pause behind each piece.
pub mod Sent
use http_exercise.Base.{
  ℕ, zero, suc, ◌+◌, ◌%◌, ◌^◌, Bool, true, false, not, ◌||◌, List, [], ◌∷◌, ◌++◌, Option, none,
  some, leb, ltb, ◌==◌, if◌then◌else◌, length, drop,
}
use http_exercise.Base.Int.{ℤ, pos, negsuc, ltb_ℤ}
use http_exercise.Exec.{Exec, ok, fault, ◌>>=◌}
use http_exercise.CStr.{Bytes, codes, cstr}
use http_exercise.CStr.Atoi.{atoi}
use http_exercise.Net.{Net}
use http_exercise.Outside.{Outside}
use http_exercise.Resolver.{Resolver}

-- the pieces of the request, in order
unfoldable pub request_pieces : Bytes → Bytes → List Bytes
request_pieces path host =
    codes "GET "
    ∷ path
    ∷ codes " HTTP/1.1\r\n"
    ∷ codes "Host: "
    ∷ host
    ∷ codes "\r\n"
    ∷ codes "Connection: Close\r\n"
    ∷ codes "\r\n"
    ∷ []

abbrev pub is_negative : ℤ → Bool
is_negative (pos n) = false
is_negative (negsuc n) = true

module _ {names : Resolver} (net : Net) (outside : Outside names net) where
  open net use {World, send, recv}
  open outside use {socket, connect}

  -- A part of the program goes on, or `fatal` ends the program with exit code 1.
  pub data Ended (A : Type 0) : Type 0 where
    goes_on : A → Ended A
    fatal : World → Ended A

  -- The loop of `writestr`, for what is left of the string. A write takes a byte or more, so the
  -- length is fuel enough (Sent shows it).
  unfoldable pub write_loop : ℕ → ℤ → Bytes → World → Exec (Ended World)
  write_loop zero sock str w = fault
  write_loop (suc fuel) sock [] w = ok (goes_on w)
  write_loop (suc fuel) sock (c ∷ str) w =
      let (written, w₁) = send sock (c ∷ str) w in
      elim written [ none ↦ ok (fatal w₁) | some i ↦ write_loop fuel sock (drop i (c ∷ str)) w₁ ]

  unfoldable pub writestr : ℤ → Bytes → World → Exec (Ended World)
  writestr sock str w = write_loop (suc (length str)) sock str w

  -- one call of `writestr` for each piece
  unfoldable pub write_pieces : ℤ → List Bytes → World → Exec (Ended World)
  write_pieces sock [] w = ok (goes_on w)
  write_pieces sock (piece ∷ pieces) w = do
    written ← writestr sock piece w
    elim written [ fatal w₁ ↦ ok (fatal w₁) | goes_on w₁ ↦ write_pieces sock pieces w₁ ]

  -- The loop that dumps the reply, a byte in a round. `none` is fuel run out.
  unfoldable pub dump_reply : ℕ → ℤ → Bytes → World → Option (Bytes × World)
  dump_reply zero sock out w = none
  dump_reply (suc fuel) sock out w =
      let (got, w₁) = recv sock 1 w in
      elim got [ some (ch ∷ []) ↦ dump_reply fuel sock (out ++ ch ∷ []) w₁ | _ ↦ some (out, w₁) ]

  -- `main` up to the request: the arguments, the host and its address, the port, the connection.
  -- `gethostbyname` is the library's.
  unfoldable pub open_connection :
      (Bytes → Option names.Address) → List Bytes → World → Exec (Ended (ℤ × Bytes × Bytes × World))
  open_connection gethostbyname (program ∷ host_arg ∷ port_arg ∷ path_arg ∷ []) w = do
    path ← cstr path_arg
    host ← cstr host_arg
    port ← atoi port_arg
    elim (gethostbyname host) [
      | none ↦ ok (fatal w)
      | some address ↦
          if length path == 0 || (ltb_ℤ port (pos 1) || ltb_ℤ (pos 65535) port)
          then ok (fatal w)
          else (let (sock, w₁) = socket w in
              if is_negative sock
              then ok (fatal w₁)
              else (let (connected, w₂) = connect sock address w₁ in
                  if connected then ok (goes_on (sock, path, host, w₂)) else ok (fatal w₂)))
    ]
  open_connection gethostbyname argv w = ok (fatal w)

  -- The exit code, what has been dumped, and the world behind the program; `none` is fuel run out.
  unfoldable pub slow_client :
      ℕ → (Bytes → Option names.Address) → List Bytes → World → Exec (Option (ℕ × Bytes × World))
  slow_client fuel gethostbyname argv w = do
    opened ← open_connection gethostbyname argv w
    elim opened [
      | fatal w₁ ↦ ok (some (1, [], w₁))
      | goes_on (sock, path, host, w₁) ↦ (do
        written ← write_pieces sock (request_pieces path host) w₁
        elim written [
          | fatal w₂ ↦ ok (some (1, [], w₂))
          | goes_on w₂ ↦ ok (elim (dump_reply fuel sock [] w₂) [
            | none ↦ none
            | some end ↦ some (0, end.0, end.1)
          ])
        ])
    ]
