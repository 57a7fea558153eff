-- ===== src/Tests/Responses.antt =====
-- parsing-test.c: the headers of responses.
use http_exercise.Base.{◌≡◌, refl, [], ◌∷◌, ◌++◌, arith}
use http_exercise.Base.Int.{pos, negsuc}
use http_exercise.Exec.{ok, fault}
use http_exercise.CStr.{codes, strchr, scan, strrchr, rscan, starts_with_case_insensitive}
use http_exercise.Parsing.{matches_command_case_insensitive}
use http_exercise.Parsing.Response.{parse_response_header, find_content_length}
use http_exercise.Parsing.Response.Lengths.{
  IsLine, parse_response_header_lengths, parse_response_header-no_line,
}

status-IsLine : IsLine (codes "1.1 200 OK")
status-IsLine = record { no_nul = omega arith; no_return = omega arith; no_newline = omega arith }

parse_response_header_lengths_example :
    parse_response_header
      (codes "HTTP/1.1 200 OK\r\nContent-Length: 4038\r\n\r\n" ++ (codes "<html>" ++ 0 ∷ []))
    ≡ ok (pos 41, pos 4038)
parse_response_header_lengths_example =
    parse_response_header_lengths (codes "1.1 200 OK") status-IsLine b'4' (codes "038")
      (omega arith) (codes "<html>" ++ 0 ∷ []) (omega arith)

parse_response_header-no_line_example : parse_response_header (0 ∷ 0 ∷ []) ≡ fault
parse_response_header-no_line_example =
    parse_response_header-no_line [] (0 ∷ []) (omega arith) (omega arith)

-- a response with no Content-Length
parse_response_header-bare :
    parse_response_header (codes "HTTP/1.1 304 Not Modified\r\nAge: 3\r\n\r\n" ++ 0 ∷ [])
    ≡ ok (pos 37, negsuc 0)
unfolding parse_response_header find_content_length strchr scan strrchr rscan
    matches_command_case_insensitive starts_with_case_insensitive
parse_response_header-bare = refl
