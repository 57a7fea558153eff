-- ===== src/Tests/Requests.antt =====
-- parsing-test.c: `parse_request_string` on requests like those of its tests.
use http_exercise.Base.{◌≡◌, refl, Bool, true, false, [], ◌∷◌, ◌++◌, arith, replicate}
use http_exercise.Exec.{Exec, ok, fault, ◌>>=◌}
use http_exercise.Constants.{success}
use http_exercise.CStr.{
  Bytes, codes, cstr, strchr, scan, strrchr, rscan, store, strncpy, copied, overwrite, starts_with,
  starts_with_case_insensitive,
}
use http_exercise.Parsing.{
  HttpVersion, malformed, dot_one, matches_command, matches_command_case_insensitive,
}
use http_exercise.Parsing.Request.{
  Fields, request_version, request_method, strip_slash, split_url, skip_spaces, capture_host,
  parse_header, parse_headers, parse_url, parse_method, parse_line, parse_request_string,
}
use http_exercise.Parsing.Request.Headers.{HeaderRounds, parse_headers-HeaderRounds}
use http_exercise.Parsing.Request.Host.{host_header}
use http_exercise.Parsing.Request.Path.{cut_slash}
use http_exercise.Parsing.Request.Line.{IsUrl}
use http_exercise.Parsing.Request.Target.{IsTarget, HasBuffers}
use http_exercise.Parsing.Request.Url.{
  parse_request_string-get_line, parse_request_string-whole, parse_request_string-short_host,
  parse_request_string-no_path,
}

abbrev crlf : Bytes
crlf = b'\r' ∷ b'\n' ∷ []

-- the out parameters as `process_job` sets them up
abbrev before : Fields
before = record {
  is_get = false;
  hostname = replicate 257 0;
  path = replicate 2049 0;
  version = malformed;
  proxy_keep_alive = false;
}

-- the host name, the path and the flags that a request gives
abbrev reading : Bytes → Exec (Bytes × Bytes × Bool × HttpVersion × Bool)
reading request = do
  r ← parse_request_string (request ++ 0 ∷ []) before
  h ← cstr r.2.hostname
  p ← cstr r.2.path
  ok (h, p, r.2.is_get, r.2.version, r.2.proxy_keep_alive)

first_case :
    reading (
      codes "GET http://none.exist.com/index.html HTTP/1.1"
      ++ (crlf
          ++ (codes "Host: none.exist.com"
              ++ (crlf ++ (codes "Proxy-Connection: Keep-Alive" ++ crlf)))))
    ≡ ok (codes "none.exist.com", codes "/index.html", true, dot_one, true)
unfolding parse_request_string strchr scan store strrchr rscan request_version matches_command
    starts_with parse_line parse_method request_method parse_url matches_command_case_insensitive
    starts_with_case_insensitive split_url strncpy copied overwrite strip_slash parse_headers
    parse_header capture_host skip_spaces cstr
first_case = refl

-- A Host header that is not the URL's host: its last byte is the URL's.
host_mixed :
    reading (codes "GET http://www.one.org/ HTTP/1.1" ++ (crlf ++ (codes "Host: two.com" ++ crlf)))
    ≡ ok (codes "two.coe", codes "/", true, dot_one, false)
unfolding parse_request_string strchr scan store strrchr rscan request_version matches_command
    starts_with parse_line parse_method request_method parse_url matches_command_case_insensitive
    starts_with_case_insensitive split_url strncpy copied overwrite strip_slash parse_headers
    parse_header capture_host skip_spaces cstr
host_mixed = refl

abbrev host : Bytes
host = codes "host.org"

abbrev path : Bytes
path = codes "a/b/"

host-IsTarget : IsTarget host path
host-IsTarget = omega arith

before-HasBuffers : HasBuffers before
before-HasBuffers = record { hostname_size = refl; path_size = refl }

parse_request_string-get_line_example :
    (out : Fields) × (parse_request_string
        (codes "GET http://host.org/a/b/ HTTP/1.1" ++ (crlf ++ (codes "Acc" ++ 0 ∷ [])))
        before
      ≡ ok (
        success,
        codes "GET http://host.org/a/b/ HTTP/1.1" ++ (b'\r' ∷ 0 ∷ (codes "Acc" ++ 0 ∷ [])),
        out,
      ))
    × (out.is_get ≡ true)
    × (cstr out.hostname ≡ ok (codes "host.org"))
    × (cstr out.path ≡ ok (codes "/a/b"))
    × (out.version ≡ dot_one)
    × (out.proxy_keep_alive ≡ false)
unfolding cut_slash
parse_request_string-get_line_example =
    parse_request_string-get_line host path host-IsTarget true before before-HasBuffers
      (codes "Acc") [] (omega arith) (omega arith)

parse_request_string-short_host_example :
    parse_request_string
      (codes "GET http://host.org/a/b/ HTTP/1.1" ++ (crlf ++ (codes "Host: " ++ (crlf ++ 0 ∷ []))))
      before
    ≡ fault
parse_request_string-short_host_example =
    parse_request_string-short_host host path host-IsTarget true before before-HasBuffers b'\r'
      (0 ∷ []) (omega arith) (omega arith) (omega arith)

host-IsUrl : IsUrl host
host-IsUrl = omega arith

parse_request_string-no_path_example :
    parse_request_string (codes "GET http://host.org HTTP/1.1" ++ (crlf ++ 0 ∷ [])) before ≡ fault
parse_request_string-no_path_example =
    parse_request_string-no_path host (0 ∷ []) true before host-IsUrl (omega arith)

-- "abcdef" was the host so far
abbrev named : Fields
named = record before { hostname = codes "abcdef" ++ replicate 251 0 }

host_header_example :
    parse_header (codes "Host: xyz" ++ crlf) 0 10 named
    ≡ ok (record named { hostname = codes "xyc" ++ 0 ∷ (codes "ef" ++ replicate 251 0) })
host_header_example =
    host_header [] (codes "xy") [] b'z' named (codes "ab") (codes "ef" ++ replicate 251 0) b'c' b'd'
      (omega arith) (omega arith) refl refl refl

abbrev two_headers : Bytes
two_headers = codes "A: 1" ++ (crlf ++ (codes "B: 2" ++ (crlf ++ 0 ∷ [])))

parse_headers-HeaderRounds_example :
    HeaderRounds two_headers 0 before (parse_headers 40 two_headers 0 before)
parse_headers-HeaderRounds_example =
    parse_headers-HeaderRounds 40 two_headers 0 before (omega arith)

parse_request_string-whole_example :
    (out : Fields) × (parse_request_string
        (codes "GET http://host.org/a/b/ HTTP/1.1" ++ (crlf ++ b'\r' ∷ b'\n' ∷ 0 ∷ []))
        before
      ≡ ok (
        success,
        codes "GET http://host.org/a/b/ HTTP/1.1" ++ (b'\r' ∷ 0 ∷ b'\r' ∷ b'\n' ∷ 0 ∷ []),
        out,
      ))
    × (out.is_get ≡ true)
    × (cstr out.hostname ≡ ok (codes "host.org"))
    × (cstr out.path ≡ ok (codes "/a/b"))
    × (out.version ≡ dot_one)
    × (out.proxy_keep_alive ≡ false)
unfolding cut_slash
parse_request_string-whole_example =
    parse_request_string-whole host path host-IsTarget true before before-HasBuffers []
