-- ===== src/Parsing/Response.antt =====
-- `parse_response_header`: the length of a response's header and of its content, or -1 for each
-- that is not found.
pub mod Lengths
use http_exercise.Base.{
  ℕ, zero, suc, ◌+◌, Bool, true, false, ◌&&◌, Option, none, some, ◌==◌, if◌then◌else◌, length, drop,
}
use http_exercise.Base.Int.{ℤ, pos, negsuc}
use http_exercise.Exec.{Exec, ok, fault, ◌>>=◌}
use http_exercise.CStr.{Bytes, codes, strchr, strrchr}
use http_exercise.CStr.Atoi.{atoi}
use http_exercise.Parsing.{matches_command, matches_command_case_insensitive}

-- The value of the header at `divider_a`.
unfoldable pub content_length_at : Bytes → ℕ → Exec ℤ
content_length_at buf divider_a = do
  space ← strchr buf divider_a b' '
  elim space [ none ↦ fault | some s ↦ atoi (drop s buf) ]

-- The loop over the headers. The length of the buffer is fuel enough, as for `parse_headers`.
unfoldable pub find_content_length : ℕ → Bytes → ℕ → Exec ℤ
find_content_length zero buf divider_a = fault
find_content_length (suc fuel) buf divider_a = do
  end ← strchr buf divider_a b'\n'
  elim end [
    | none ↦ ok (negsuc 0)
    | some divider_b ↦ (do
      hit ← matches_command_case_insensitive buf divider_a (codes "Content-length: ")
      if hit then content_length_at buf divider_a else find_content_length fuel buf (divider_b + 1))
  ]

-- The search for the double line end, from `divider_a` on.
unfoldable pub find_double_end : ℕ → Bytes → ℕ → Exec ℤ
find_double_end zero buf divider_a = fault
find_double_end (suc fuel) buf divider_a = do
  return_at ← strchr buf divider_a b'\r'
  elim return_at [
    | none ↦ ok (negsuc 0)
    | some r ↦ (do
      hit ← matches_command buf r (codes "\r\n\r\n")
      if hit then ok (pos (r + 4)) else find_double_end fuel buf (r + 1))
  ]

abbrev pub is_minus_one : ℤ → Bool
is_minus_one (pos n) = false
is_minus_one (negsuc n) = n == 0

-- the header length and the content length
unfoldable pub parse_response_header : Bytes → Exec (ℤ × ℤ)
parse_response_header buf = do
  content_length ← find_content_length (suc (length buf)) buf 0
  if is_minus_one content_length
      then (do
        last ← strrchr buf 0 b'\n'
        elim last [ none ↦ fault | some b ↦ ok (pos (b + 1), content_length) ])
      else (do
        header_length ← find_double_end (suc (length buf)) buf 0
        ok (header_length, content_length))
