-- ===== src/Net.antt =====
-- The system calls of a worker: sockets and files, over a state `World` of everything outside. A
-- call returns `none` for -1. `sent`, `received` and `written` are what has gone out through a
-- socket, come in through it, and gone into a file, as the world keeps it.
use http_exercise.Base.{ℕ, ◌≤◌, ◌<◌, ◌≡◌, ◌≢◌, [], ◌++◌, Option, none, some, length, take}
use http_exercise.Base.Int.{ℤ}
use http_exercise.CStr.{Bytes}

pub record Net : Type 1 where
  pub World : Type 0
  pub File : Type 0
  -- recv with MSG_PEEK | MSG_DONTWAIT
  pub peek : ℤ → World → Option ℕ × World
  pub send : ℤ → Bytes → World → Option ℕ × World
  -- recv of at most so many bytes, none at the end of the stream
  pub recv : ℤ → ℕ → World → Option Bytes × World
  pub fwrite : File → Bytes → World → World
  pub sent : ℤ → World → Bytes
  pub written : File → World → Bytes
  pub received : ℤ → World → Bytes
  pub peek-sent : (fd : ℤ) (w : World) → sent fd ((peek fd w).1) ≡ sent fd w
  pub peek-written : (fd : ℤ) (f : File) (w : World) → written f ((peek fd w).1) ≡ written f w
  pub send-written :
      (fd : ℤ) (bytes : Bytes) (f : File) (w : World)
      → written f ((send fd bytes w).1) ≡ written f w
  pub peek-received : (fd s : ℤ) (w : World) → received s ((peek fd w).1) ≡ received s w
  pub send-received :
      (fd : ℤ) (bytes : Bytes) (s : ℤ) (w : World) → received s ((send fd bytes w).1) ≡ received s w
  pub fwrite-received :
      (f : File) (bytes : Bytes) (s : ℤ) (w : World) → received s (fwrite f bytes w) ≡ received s w
  pub recv-sent : (fd s : ℤ) (n : ℕ) (w : World) → sent s ((recv fd n w).1) ≡ sent s w
  pub recv-written :
      (fd : ℤ) (n : ℕ) (f : File) (w : World) → written f ((recv fd n w).1) ≡ written f w
  pub recv_some :
      (fd : ℤ) (n : ℕ) (w : World) {bytes : Bytes}
      → (recv fd n w).0 ≡ some bytes
      → (length bytes ≤ n) × (received fd ((recv fd n w).1) ≡ received fd w ++ bytes)
  -- send fails and sends nothing, or takes some bytes from the front
  pub send_none :
      (fd : ℤ) (bytes : Bytes) (w : World)
      → (send fd bytes w).0 ≡ none
      → sent fd ((send fd bytes w).1) ≡ sent fd w
  pub send_some :
      (fd : ℤ) (bytes : Bytes) (w : World) {n : ℕ}
      → bytes ≢ []
      → (send fd bytes w).0 ≡ some n
      → (0 < n) × (n ≤ length bytes) × (sent fd ((send fd bytes w).1) ≡ sent fd w ++ take n bytes)
  -- the disk has room
  pub fwrite-written :
      (f : File) (bytes : Bytes) (w : World) → written f (fwrite f bytes w) ≡ written f w ++ bytes
  pub fwrite-sent :
      (f : File) (bytes : Bytes) (fd : ℤ) (w : World) → sent fd (fwrite f bytes w) ≡ sent fd w
