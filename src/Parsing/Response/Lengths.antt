-- ===== src/Parsing/Response/Lengths.antt =====
-- The lengths that `parse_response_header` finds.
use mathlib.Core.List.{append_assoc}
use http_exercise.Base.{
  ℕ, suc, ◌+◌, ◌^◌, ◌<◌, ◌≡◌, refl, sym, ap, ◌∙◌, true, false, [], ◌∷◌, ◌++◌, none, some, arith,
  length, length-append, drop, drop_at,
}
use http_exercise.Base.Int.{pos}
use http_exercise.Exec.{ok, fault}
use http_exercise.CStr.{Bytes, codes, strchr, strrchr, starts_with, starts_with_case_insensitive}
use http_exercise.CStr.Atoi.{AreDigits, decimal, atoi-decimal}
use http_exercise.CStr.Scan.{Lacks, Lacks-append, strchr_at, strchr-none, rscan_stays}
use http_exercise.Parsing.{matches_command, matches_command_case_insensitive}
use http_exercise.Parsing.Response.{
  content_length_at, find_content_length, find_double_end, parse_response_header,
}

-- what can stand in a status line
pub record IsLine (text : Bytes) : Type 0 where
  pub no_nul : Lacks 0 text
  pub no_return : Lacks b'\r' text
  pub no_newline : Lacks b'\n' text

Lacks_digits : (c : ℕ) (ds : Bytes) → c < b'0' → AreDigits ds → Lacks c ds
Lacks_digits c [] h a = tt
Lacks_digits c (d ∷ ds) h a = (omega arith, Lacks_digits c ds h a.2)

-- one round of each loop
content_miss :
    (f : ℕ) (buf : Bytes) (i b j : ℕ)
    → strchr buf i b'\n' ≡ ok (some b)
    → matches_command_case_insensitive buf i (codes "Content-length: ") ≡ ok false
    → b + 1 ≡ j
    → find_content_length (suc f) buf i ≡ find_content_length f buf j
unfolding find_content_length
content_miss f buf i b j e miss next = rw (e, miss, next, find_content_length) refl

content_hit :
    (f : ℕ) (buf : Bytes) (i b : ℕ)
    → strchr buf i b'\n' ≡ ok (some b)
    → matches_command_case_insensitive buf i (codes "Content-length: ") ≡ ok true
    → find_content_length (suc f) buf i ≡ content_length_at buf i
unfolding find_content_length
content_hit f buf i b e hit = rw (e, hit) refl

module _ (text : Bytes) (t : IsLine text) (d : ℕ) (ds : Bytes) (a : AreDigits (d ∷ ds))
    (tail : Bytes) where
  abbrev status_line : Bytes
  status_line = codes "HTTP/" ++ text

  abbrev field_name : Bytes
  field_name = codes "Content-Length:"

  abbrev from_number : Bytes
  from_number = b' ' ∷ d ∷ (ds ++ (codes "\r\n\r\n" ++ tail))

  -- a response up to its content, and the content behind it
  abbrev pub response : Bytes
  response = status_line ++ b'\r' ∷ b'\n' ∷ (field_name ++ from_number)

  abbrev pub header_size : ℕ
  header_size = length text + length ds + 28

  first_lines : response ≡ (status_line ++ b'\r' ∷ b'\n' ∷ []) ++ (field_name ++ from_number)
  first_lines = sym (append_assoc status_line (b'\r' ∷ b'\n' ∷ []) (field_name ++ from_number))

  line-length : length (status_line ++ b'\r' ∷ b'\n' ∷ []) ≡ length text + 7
  line-length = omega (arith, length-append status_line (b'\r' ∷ b'\n' ∷ []))

  line_lacks : (c : ℕ) → Lacks c (codes "HTTP/") → Lacks c text → Lacks c status_line
  line_lacks c h k = Lacks-append c (codes "HTTP/") text h k

  number_lacks : (c : ℕ) → c < b' ' → Lacks c (b' ' ∷ d ∷ ds)
  number_lacks c h = (omega arith, Lacks_digits c (d ∷ ds) (omega arith) a)

  first_newline : strchr response 0 b'\n' ≡ ok (some (length text + 6))
  first_newline =
      strchr_at b'\n' 0 (length text + 6) [] (status_line ++ b'\r' ∷ []) (field_name ++ from_number)
        (sym (append_assoc status_line (b'\r' ∷ []) _)) refl
        (omega (arith, length-append text (b'\r' ∷ [])))
        (Lacks-append b'\n' status_line (b'\r' ∷ []) (line_lacks b'\n' (omega arith) t.no_newline)
          (omega arith))
        (Lacks-append 0 status_line (b'\r' ∷ []) (line_lacks 0 (omega arith) t.no_nul)
          (omega arith))

  header_lacks :
      (c : ℕ)
      → c < b' '
      → Lacks c field_name
      → Lacks c (b'\r' ∷ [])
      → Lacks c (field_name ++ b' ' ∷ d ∷ (ds ++ b'\r' ∷ []))
  header_lacks c h k r =
      Lacks-append c field_name (b' ' ∷ d ∷ (ds ++ b'\r' ∷ [])) k
        (Lacks-append c (b' ' ∷ d ∷ ds) (b'\r' ∷ []) (number_lacks c h) r)

  header_found : strchr response (length text + 7) b'\n' ≡ ok (some (length text + length ds + 25))
  header_found =
      strchr_at b'\n' (length text + 7) (length text + length ds + 25)
        (status_line ++ b'\r' ∷ b'\n' ∷ []) (field_name ++ b' ' ∷ d ∷ (ds ++ b'\r' ∷ []))
        (codes "\r\n" ++ tail)
        (first_lines
          ∙ ap (λ l. (status_line ++ b'\r' ∷ b'\n' ∷ []) ++ (field_name ++ b' ' ∷ d ∷ l))
              (sym (append_assoc ds (b'\r' ∷ []) _)))
        (sym line-length) (omega (arith, line-length, length-append ds (b'\r' ∷ [])))
        (header_lacks b'\n' (omega arith) (omega arith) (omega arith))
        (header_lacks 0 (omega arith) (omega arith) (omega arith))

  space_found : strchr response (length text + 7) b' ' ≡ ok (some (length text + 22))
  space_found =
      strchr_at b' ' (length text + 7) (length text + 22) (status_line ++ b'\r' ∷ b'\n' ∷ [])
        field_name (d ∷ (ds ++ (codes "\r\n\r\n" ++ tail))) first_lines (sym line-length)
        (omega (arith, line-length)) (omega arith) (omega arith)

  number_at : drop (length text + 22) response ≡ from_number
  number_at =
      drop_at (length text + 22) ((status_line ++ b'\r' ∷ b'\n' ∷ []) ++ field_name) from_number
        (first_lines
          ∙ sym (append_assoc (status_line ++ b'\r' ∷ b'\n' ∷ []) field_name from_number))
        (omega (arith, line-length, length-append (status_line ++ b'\r' ∷ b'\n' ∷ []) field_name))

  first_return : strchr response 0 b'\r' ≡ ok (some (length text + 5))
  first_return =
      strchr_at b'\r' 0 (length text + 5) [] status_line (b'\n' ∷ (field_name ++ from_number)) refl
        refl (omega arith) (line_lacks b'\r' (omega arith) t.no_return)
        (line_lacks 0 (omega arith) t.no_nul)

  second_return : strchr response (length text + 6) b'\r' ≡ ok (some (length text + length ds + 24))
  second_return =
      strchr_at b'\r' (length text + 6) (length text + length ds + 24) (status_line ++ b'\r' ∷ [])
        (b'\n' ∷ (field_name ++ b' ' ∷ d ∷ ds)) (codes "\n\r\n" ++ tail)
        (sym (append_assoc status_line (b'\r' ∷ []) _))
        (omega (arith, length-append status_line (b'\r' ∷ [])))
        (omega (arith, length-append status_line (b'\r' ∷ [])))
        (
          omega arith,
          Lacks-append b'\r' field_name (b' ' ∷ d ∷ ds) (omega arith)
              (number_lacks b'\r' (omega arith)),
        )
        (
          omega arith,
          Lacks-append 0 field_name (b' ' ∷ d ∷ ds) (omega arith) (number_lacks 0 (omega arith)),
        )

  end_at : drop (length text + length ds + 24) response ≡ codes "\r\n\r\n" ++ tail
  end_at =
      drop_at (length text + length ds + 24)
        ((status_line ++ b'\r' ∷ b'\n' ∷ []) ++ (field_name ++ b' ' ∷ d ∷ ds))
        (codes "\r\n\r\n" ++ tail)
        (first_lines
          ∙ sym (append_assoc (status_line ++ b'\r' ∷ b'\n' ∷ []) (field_name ++ b' ' ∷ d ∷ ds) _))
        (omega (
          arith,
          line-length,
          length-append (status_line ++ b'\r' ∷ b'\n' ∷ []) (field_name ++ b' ' ∷ d ∷ ds),
        ))

  second_line_at : drop (length text + 7) response ≡ field_name ++ from_number
  second_line_at =
      drop_at (length text + 7) (status_line ++ b'\r' ∷ b'\n' ∷ []) (field_name ++ from_number)
        first_lines (sym line-length)

  first_return_at : drop (length text + 5) response ≡ b'\r' ∷ b'\n' ∷ (field_name ++ from_number)
  first_return_at =
      drop_at (length text + 5) status_line (b'\r' ∷ b'\n' ∷ (field_name ++ from_number)) refl
        (omega arith)

  content_matches :
      matches_command_case_insensitive response (length text + 7) (codes "Content-length: ")
      ≡ ok true
  unfolding matches_command_case_insensitive starts_with_case_insensitive
  content_matches = rw second_line_at refl

  content_at :
      decimal 0 (d ∷ ds) < 2 ^ 31
      → content_length_at response (length text + 7) ≡ ok (pos (decimal 0 (d ∷ ds)))
  unfolding content_length_at
  content_at small =
      rw (space_found, number_at) (atoi-decimal d ds (codes "\n\r\n" ++ tail) b'\r' a small refl)

  content_found :
      (fuel : ℕ)
      → decimal 0 (d ∷ ds) < 2 ^ 31
      → find_content_length (suc (suc fuel)) response 0 ≡ ok (pos (decimal 0 (d ∷ ds)))
  unfolding matches_command_case_insensitive starts_with_case_insensitive
  content_found fuel small =
      content_miss (suc fuel) response 0 (length text + 6) (length text + 7) first_newline refl
        (omega arith)
      ∙ content_hit fuel response (length text + 7) (length text + length ds + 25) header_found
          content_matches
      ∙ content_at small

  end_found : (fuel : ℕ) → find_double_end (suc (suc fuel)) response 0 ≡ ok (pos header_size)
  unfolding find_double_end matches_command starts_with
  end_found fuel =
      let next : length text + 5 + 1 ≡ length text + 6 = omega arith in
      let size : length text + length ds + 24 + 4 ≡ header_size = omega arith in
      rw (first_return, first_return_at, find_double_end, next, second_return, end_at, size) refl

  -- Of a response with a status line, a Content-Length and no other header, the call finds the length
  -- up to and with the empty line, and the number that the header holds, whatever the content is.
  pub parse_response_header_lengths :
      decimal 0 (d ∷ ds) < 2 ^ 31
      → parse_response_header response ≡ ok (pos header_size, pos (decimal 0 (d ∷ ds)))
  unfolding parse_response_header
  parse_response_header_lengths small = rw (content_found _ small, end_found _) refl

-- A response with no complete line, such as that of a server which closes the connection at once,
-- is a fault: the code computes with the null pointer that its last search returns.
pub parse_response_header-no_line :
    (xs rest : Bytes) → Lacks b'\n' xs → Lacks 0 xs → parse_response_header (xs ++ 0 ∷ rest) ≡ fault
unfolding parse_response_header find_content_length strrchr
parse_response_header-no_line xs rest n z =
    rw
      (
        strchr-none b'\n' [] xs rest (omega arith) n z,
        rscan_stays b'\n' 0 none xs rest (omega arith) n z,
      )
      refl
