-- ===== src/Parsing/Href.antt =====
-- `find_href`: the next link of a text file.
pub mod Link
use http_exercise.Base.{
  ℕ, zero, suc, ◌+◌, ◌-◌, Bool, Option, none, some, ◌==◌, if◌then◌else◌, length, take, drop,
}
use http_exercise.Exec.{Exec, ok, fault, ◌>>=◌}
use http_exercise.Constants.{Status, success, fail, finished, max_url_size}
use http_exercise.CStr.{Bytes, codes, strchr, store, strncpy, overwrite, size_diff}
use http_exercise.Parsing.{matches_command}

-- a file that is open for reading: its bytes and the position in them
pub record TextFile : Type 0 where
  pub content : Bytes
  pub position : ℕ

-- What a buffer holds from some offset on: nothing, a link with no end, or a link and the offset of
-- its closing quote. The first number is the offset of "href=".
pub data Found : Type 0 where
  no_link : Found
  open_link : ℕ → Found
  link : ℕ → ℕ → Found

-- The search for "href=" in one buffer. A round goes on by a byte or more, so the length of the
-- buffer is fuel enough.
unfoldable pub find_in_buffer : ℕ → Bytes → ℕ → Exec Found
find_in_buffer zero file_buffer at = fault
find_in_buffer (suc fuel) file_buffer at = do
  found_h ← strchr file_buffer at b'h'
  elim found_h [
    | none ↦ ok no_link
    | some h ↦ (do
      hit ← matches_command file_buffer h (codes "href=")
      closing_quote ← if hit then strchr file_buffer (h + 6) b'"' else ok none
      if hit
          then ok (elim closing_quote [ none ↦ open_link h | some q ↦ link h q ])
          else find_in_buffer fuel file_buffer (h + 1))
  ]

-- The link goes into the output buffer and the file back to the closing quote.
unfoldable pub take_link :
    Found → ℕ → Bytes → TextFile → Bytes → Exec (Option (Status × TextFile × Bytes))
take_link no_link bytes_read file_buffer text_file output_buffer = ok none
take_link (open_link h) bytes_read file_buffer text_file output_buffer =
    ok (some (fail, text_file, output_buffer))
take_link (link h q) bytes_read file_buffer text_file output_buffer = do
  copied ← strncpy output_buffer file_buffer (h + 6) (size_diff q (h + 6))
  ended ← store copied (q - h - 6) 0
  ok (some (success, record text_file { position = text_file.position + q - bytes_read }, ended))

-- The loop over the chunks of the file: the buffer keeps what an earlier chunk has left in it. A
-- chunk has a byte or more, so the length of the file is fuel enough.
unfoldable pub find_in_file : ℕ → Bytes → TextFile → Bytes → Exec (Status × TextFile × Bytes)
find_in_file zero file_buffer text_file output_buffer = fault
find_in_file (suc fuel) file_buffer text_file output_buffer =
    let chunk = take max_url_size (drop text_file.position text_file.content) in
    let read = record text_file { position = text_file.position + length chunk } in
    if length chunk == 0 then ok (finished, text_file, output_buffer) else (do
      filled ← overwrite file_buffer chunk
      found ← find_in_buffer (suc (length filled)) filled 0
      done ← take_link found (length chunk) filled read output_buffer
      elim done [ none ↦ find_in_file fuel filled read output_buffer | some result ↦ ok result ])

-- `junk` is what the local buffer held before.
unfoldable pub find_href : Bytes → TextFile → Bytes → Exec (Status × TextFile × Bytes)
find_href junk text_file output_buffer =
    find_in_file (suc (length text_file.content)) junk text_file output_buffer
