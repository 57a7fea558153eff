-- ===== src/Worker/Format.antt =====
-- The texts that `handle_valid_request` writes into its buffers.
use http_exercise.Base.{
  ℕ, zero, suc, ◌+◌, ◌/◌, ◌%◌, [], ◌∷◌, ◌++◌, ltb, if◌then◌else◌, length, replicate,
}
use http_exercise.Base.Int.{ℤ, pos, negsuc}
use http_exercise.Exec.{Exec, ok, fault}
use http_exercise.Exec
use http_exercise.Constants.{job_request_buffer_size, max_name_length}
use http_exercise.CStr.{Bytes, codes, cstr, overwrite}
use http_exercise.CacheRecord.{ActionStatus, should_read}

-- "%d" of printf
unfoldable pub print_digits : ℕ → ℕ → Bytes
print_digits zero n = []
print_digits (suc fuel) n =
    let rest = print_digits fuel (n / 10) in
    if ltb n 10 then (b'0' + n) ∷ [] else rest ++ (b'0' + n % 10) ∷ []

unfoldable pub print_int : ℤ → Bytes
print_int (pos n) = print_digits (suc n) n
print_int (negsuc n) = b'-' ∷ print_digits (suc (suc n)) (suc n)

-- "<%d> socket:%d " and the rest of a line
unfoldable pub output_line : ℤ → ℤ → Bytes → Bytes
output_line thread_id fd text =
    codes "<"
    ++ (print_int thread_id ++ (codes "> socket:" ++ (print_int fd ++ (codes " " ++ text))))

abbrev pub hit_or_miss : ActionStatus → Bytes
hit_or_miss should_read = codes "cache: hit\n"
hit_or_miss _ = codes "cache: miss\n"

-- a text that sprintf writes into a buffer of NULs
unfoldable pub sprintf : ℕ → Bytes → Exec Bytes
sprintf size text = overwrite (replicate size 0) (text ++ 0 ∷ [])

-- the buffer that `cache_record_get_or_create` gets: the host name and the path behind it
unfoldable pub url_buffer : Bytes → Bytes → Exec Bytes
url_buffer hostname path =
    Exec.◌>>=◌ (cstr hostname) (λ host.
      Exec.◌>>=◌ (cstr path) (λ rest. sprintf (job_request_buffer_size + 1) (host ++ rest)))

-- the name of the file of a record
unfoldable pub cache_file_path : Bytes → Exec Bytes
cache_file_path name = Exec.◌>>=◌ (sprintf (max_name_length + 1) (codes "./cache/" ++ name)) cstr

-- the buffer with the request that the server gets, and its length
unfoldable pub server_request : Bytes → Bytes → Exec (Bytes × ℕ)
server_request path hostname = Exec.◌>>=◌ (cstr path) (λ target. Exec.◌>>=◌ (cstr hostname) (λ host.
    let text =
      codes "GET "
      ++ (target
          ++ (codes " HTTP/1.1\r\nHost: "
              ++ (host ++ codes "\r\nConnection: close\r\nProxy-Connection: close\r\n\r\n"))) in
    Exec.◌>>=◌ (sprintf (job_request_buffer_size + 1) text) (λ buffer. ok (buffer, length text))))
