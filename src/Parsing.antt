-- ===== src/Parsing.antt =====
-- parsing.c and parsing.h: reading requests, response headers and links out of text buffers.
pub mod Request
pub mod Response
pub mod Href
use http_exercise.Base.{ℕ, Bool, drop}
use http_exercise.Exec.{Exec}
use http_exercise.CStr.{Bytes, starts_with, starts_with_case_insensitive}

-- `enum http_version`
pub data HttpVersion : Type 0 where
  malformed not_supported dot_zero dot_one : HttpVersion

-- `matches_command(buf + i, command)`; the command is a literal without its NUL
unfoldable pub matches_command : Bytes → ℕ → Bytes → Exec Bool
matches_command buf i command = starts_with (drop i buf) command

unfoldable pub matches_command_case_insensitive : Bytes → ℕ → Bytes → Exec Bool
matches_command_case_insensitive buf i command = starts_with_case_insensitive (drop i buf) command
