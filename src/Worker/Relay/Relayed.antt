-- ===== src/Worker/Relay/Relayed.antt =====
-- What has been relayed when the loop ends.
use http_exercise.Base.{ℕ, ◌+◌, ◌-◌, ◌≡◌, false, ◌++◌, Option, some, arith, ◌⊎◌, length, take}
use http_exercise.Base.Int.{ℤ, pos, negsuc, pos_part, neg_part, ◌+ℤ◌, ltb_ℤ}
use http_exercise.Exec.{Exec, ok}
use http_exercise.Constants.{fail}
use http_exercise.CStr.{Bytes}
use http_exercise.Net.{Net}
use http_exercise.Worker.Send.{no_socket, cache_and_send}

-- nothing added
pub add_zero : (read : ℤ) → read +ℤ pos 0 ≡ read
unfolding ◌+ℤ◌
add_zero (pos n) = ground arith
add_zero (negsuc n) = ground arith

module _ (net : Net) (client server : ℤ) (file : net.File) (there : no_socket client ≡ false) where
  open net use {World, recv, sent, written, received, recv-sent, recv-written, recv_some}

  -- The loop ends when the content is complete, and then the client has got all that came in, or when
  -- the send of the last chunk fails.
  abbrev pub Ended : ℤ → ℤ → Bytes → ℕ → World → Type 0
  Ended cl read bytes count after =
      (ltb_ℤ (read +ℤ pos (length bytes)) cl ≡ false) × (count ≡ length bytes)
      ⊎ (buffer : Bytes) × (n : ℕ) × (w : World) × (cache_and_send net client (some file) buffer
            (pos n) w
          ≡ ok (fail, after))

  -- A loop that began with the world `w` and `read` bytes of the content has ended. What has come in
  -- from the server since has gone into the file, and its first `count` bytes to the client.
  pub record Relayed (cl read : ℤ) (w : World) (run : Exec (Option World)) : Type 0 where
    pub after : World
    pub bytes : Bytes
    pub returns : run ≡ ok (some after)
    pub came : received server after ≡ received server w ++ bytes
    pub count : ℕ
    pub gone : sent client after ≡ sent client w ++ take count bytes
    pub stored : written file after ≡ written file w ++ bytes
    pub ended : Ended cl read bytes count after

  -- how far the content is from complete
  abbrev pub missing : ℤ → ℤ → ℕ
  missing content_length content_read =
      pos_part content_length
      + neg_part content_read
      - (pos_part content_read + neg_part content_length)
