-- ===== src/Outside.antt =====
-- The files and connections that `handle_valid_request` opens, over the world of `Net`. A call
-- returns `none` for NULL. `stored` is what the disk holds under a name and `unread` what fread has
-- left of a file.
use http_exercise.Base.{ℕ, ◌≡◌, Bool, Option, some, take, drop}
use http_exercise.Base.Int.{ℤ}
use http_exercise.CStr.{Bytes}
use http_exercise.Net.{Net}
use http_exercise.Resolver.{Resolver}

pub record Outside (names : Resolver) (net : Net) : Type 1 where
  -- fopen for "r" and for "w+"
  pub open_read : Bytes → net.World → Option net.File × net.World
  pub open_write : Bytes → net.World → Option net.File × net.World
  pub fread : net.File → ℕ → net.World → Bytes × net.World
  pub fclose : net.File → net.World → net.World
  -- the whole of a file, as fseek to its start and fread find it
  pub text : net.File → net.World → Bytes
  pub socket : net.World → ℤ × net.World
  -- true where connect does not fail
  pub connect : ℤ → names.Address → net.World → Bool × net.World
  pub stored : Bytes → net.World → Bytes
  pub unread : net.File → net.World → Bytes
  pub open_read-unread :
      (path : Bytes) (w : net.World) {file : net.File}
      → (open_read path w).0 ≡ some file
      → unread file ((open_read path w).1) ≡ stored path w
  pub open_read-sent :
      (path : Bytes) (fd : ℤ) (w : net.World) → net.sent fd ((open_read path w).1) ≡ net.sent fd w
  pub fread-bytes :
      (file : net.File) (n : ℕ) (w : net.World) → (fread file n w).0 ≡ take n (unread file w)
  pub fread-unread :
      (file : net.File) (n : ℕ) (w : net.World)
      → unread file ((fread file n w).1) ≡ drop n (unread file w)
  pub fread-sent :
      (file : net.File) (n : ℕ) (fd : ℤ) (w : net.World)
      → net.sent fd ((fread file n w).1) ≡ net.sent fd w
  pub fclose-sent :
      (file : net.File) (fd : ℤ) (w : net.World) → net.sent fd (fclose file w) ≡ net.sent fd w
  pub peek-unread :
      (fd : ℤ) (file : net.File) (w : net.World) → unread file ((net.peek fd w).1) ≡ unread file w
  pub send-unread :
      (fd : ℤ) (bytes : Bytes) (file : net.File) (w : net.World)
      → unread file ((net.send fd bytes w).1) ≡ unread file w
