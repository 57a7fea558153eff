-- ===== src/Experiment.antt =====
-- simple-client-experiment.c and test-client-experiment.c: clients that send one request and print
-- the first piece of what comes back. What they print is left out; connect is not tested for failure.
pub mod Overflow
use http_exercise.Base.{
  ℕ, ◌+◌, Bool, true, false, List, [], ◌∷◌, ◌++◌, Option, none, some, if◌then◌else◌, length,
  replicate,
}
use http_exercise.Base.Int.{ℤ}
use http_exercise.Exec.{Exec, ok, fault, ◌>>=◌}
use http_exercise.CStr.{Bytes, codes, cstr, overwrite, store}
use http_exercise.Net.{Net}
use http_exercise.Outside.{Outside}
use http_exercise.Resolver.{Resolver}
use http_exercise.Worker.Send.{no_socket}

abbrev pub max_buffer_size : ℕ
max_buffer_size = 1024

-- the local buffer, cleared
unfoldable pub cleared_buffer : Bytes
cleared_buffer = replicate max_buffer_size 0

-- REQUEST of the simple client
abbrev pub fixed_request : Bytes
fixed_request =
    codes
      "GET / HTTP/1.1\r\nHost: foo.prinmath.com\r\nAccept: */*\r\nUser-Agent: DavidsAutomation\r\n\r\n"

-- The text that sprintf writes into the buffer of the other client; it must fit with its NUL.
unfoldable pub argument_request : Bytes → Exec Bytes
argument_request path_arg = do
  path ← cstr path_arg
  buffer ←
      overwrite cleared_buffer ((codes "GET " ++ (path ++ codes " HTTP/1.1\r\n\r\n")) ++ 0 ∷ [])
  cstr buffer

module _ {names : Resolver} (net : Net) (outside : Outside names net) where
  open net use {World, send, recv}
  open outside use {socket, connect}

  -- From the send on: the exit code and the world. The NUL goes behind what recv has put into the
  -- buffer.
  unfoldable pub exchange : ℤ → Bytes → World → Exec (ℕ × World)
  exchange socket_fd request w =
      let (sent, w₁) = send socket_fd request w in
      elim sent [
        | none ↦ ok (1, w₁)
        | some _ ↦
            let (got, w₂) = recv socket_fd max_buffer_size w₁ in
            elim got [
              | none ↦ ok (1, w₂)
              | some bytes ↦ (do
                filled ← overwrite cleared_buffer bytes
                ended ← store filled (length bytes) 0
                ok (0, w₂))
            ]
      ]

  -- a socket, the address of a host, and a connection to it, whose failure is not noticed
  unfoldable pub reach_server : Option (List names.Address) → World → Exec (Option ℤ × World)
  reach_server found w =
      let (socket_fd, w₁) = socket w in
      if no_socket socket_fd then ok (none, w₁) else (elim found [
        | none ↦ ok (none, w₁)
        | some [] ↦ fault
        | some (server_address ∷ _) ↦ ok (some socket_fd, (connect socket_fd server_address w₁).1)
      ])

  unfoldable pub simple_client : World → Exec (ℕ × World)
  simple_client w = do
    reached ← reach_server (names.lookup (codes "foo.prinmath.com") (codes "http")) w
    elim reached.0 [
      | none ↦ ok (1, reached.1)
      | some socket_fd ↦ exchange socket_fd fixed_request reached.1
    ]

  unfoldable pub test_client : List Bytes → World → Exec (ℕ × World)
  test_client (program ∷ name_arg ∷ port_arg ∷ path_arg ∷ []) w = do
    name ← cstr name_arg
    port ← cstr port_arg
    reached ← reach_server (names.lookup name port) w
    elim reached.0 [
      | none ↦ ok (1, reached.1)
      | some socket_fd ↦ (do
        request ← argument_request path_arg
        exchange socket_fd request reached.1)
    ]
  test_client argv w = ok (1, w)
