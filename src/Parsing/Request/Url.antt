-- ===== src/Parsing/Request/Url.antt =====
-- The host name and the path of a request, and the crash on a URL that has no path.
use mathlib.Core.List.{append_assoc}
use http_exercise.Base.{
  ℕ, suc, ◌+◌, ◌^◌, ◌<◌, ◌≡◌, ◌≢◌, refl, ◌∙◌, Bool, true, false, [], ◌∷◌, ◌++◌, some, arith, length,
  length-append, drop, length-drop,
}
use http_exercise.Exec.{ok, fault}
use http_exercise.Constants.{success, max_name_length}
use http_exercise.CStr.{Bytes, strchr, cstr}
use http_exercise.CStr.Scan.{Lacks, strchr-found, strchr-none, cstr-append}
use http_exercise.Parsing.Request.{Fields, split_url, parse_request_string}
use http_exercise.Parsing.Request.Path.{cut_slash}
use http_exercise.Parsing.Request.Headers.{headers_step, parse_headers_end, parse_headers_blank}
use http_exercise.Parsing.Request.Host.{host_field, host_header_short}
use http_exercise.Parsing.Request.Line.{
  get_http, version_text, version_of, IsUrl, request_line, cut, parse_request_string-get,
}
use http_exercise.Parsing.Request.Target.{
  IsTarget, HasBuffers, url, url-IsUrl, named, path_done, line_fields, headers_left,
}

module _ (host path : Bytes) (t : IsTarget host path) (one : Bool) (f : Fields)
    (size : HasBuffers f) where
  abbrev pub get_line : Bytes
  get_line = request_line (url host path t) one (url-IsUrl host path t)

  abbrev get_ended : Bytes
  get_ended = get_line ++ 0 ∷ []

  -- A GET request for an absolute URL whose host and path fit the buffers of `process_job`, with no
  -- complete header, is read back: the host, the path with its trailing slash cut off, the version,
  -- and no keep-alive.
  pub parse_request_string-get_line :
      (partial rest : Bytes)
      → Lacks b'\n' partial
      → Lacks 0 partial
      → (out : Fields) × (parse_request_string (get_line ++ b'\n' ∷ (partial ++ 0 ∷ rest)) f
          ≡ ok (success, get_line ++ 0 ∷ (partial ++ 0 ∷ rest), out))
        × (out.is_get ≡ true)
        × (cstr out.hostname ≡ ok host)
        × (cstr out.path ≡ ok (b'/' ∷ cut_slash path))
        × (out.version ≡ version_of one)
        × (out.proxy_keep_alive ≡ false)
  parse_request_string-get_line partial rest n z = (
    line_fields host path t one (partial ++ 0 ∷ rest) f size,
    headers_left host path t one (partial ++ 0 ∷ rest) f size
        ∙ rw (
          parse_headers_end (length (get_ended ++ (partial ++ 0 ∷ rest))) get_ended partial rest
              (line_fields host path t one (partial ++ 0 ∷ rest) f size) n z,
          append_assoc get_line (0 ∷ []) (partial ++ 0 ∷ rest),
        ),
    refl,
    cstr-append host _ t.host_text,
    (path_done host path t one (partial ++ 0 ∷ rest) f size).2,
    refl,
    refl,
  )

  -- A whole GET request with no headers, its URL absolute and its host and path within the buffers of
  -- `process_job`, which ends in an empty line, is read back in the same way.
  pub parse_request_string-whole :
      (rest : Bytes)
      → (out : Fields) × (parse_request_string (get_line ++ b'\n' ∷ b'\r' ∷ b'\n' ∷ 0 ∷ rest) f
          ≡ ok (success, get_line ++ 0 ∷ b'\r' ∷ b'\n' ∷ 0 ∷ rest, out))
        × (out.is_get ≡ true)
        × (cstr out.hostname ≡ ok host)
        × (cstr out.path ≡ ok (b'/' ∷ cut_slash path))
        × (out.version ≡ version_of one)
        × (out.proxy_keep_alive ≡ false)
  parse_request_string-whole rest = (
    line_fields host path t one tail f size,
    headers_left host path t one tail f size
        ∙ rw (
          parse_headers_blank (length (get_ended ++ tail)) get_ended rest
              (line_fields host path t one tail f size)
              (omega (arith, length-append get_ended tail)),
          append_assoc get_line (0 ∷ []) tail,
        ),
    refl,
    cstr-append host _ t.host_text,
    (path_done host path t one tail f size).2,
    refl,
    refl,
  )
    where
      tail : Bytes
      tail = b'\r' ∷ b'\n' ∷ 0 ∷ rest

  -- A GET request whose host and path fit the buffers, with an empty Host header, or one of a single
  -- byte that is no blank and a bare newline, crashes the call, whatever follows.
  pub parse_request_string-short_host :
      (c : ℕ) (rest : Bytes)
      → c ≢ b' '
      → c ≢ b'\n'
      → c ≢ 0
      → parse_request_string (get_line ++ b'\n' ∷ (host_field ++ c ∷ b'\n' ∷ rest)) f ≡ fault
  parse_request_string-short_host c rest sp nl z =
      headers_left host path t one tail f size
      ∙ rw (
        headers_step (length (get_ended ++ tail)) (get_ended ++ tail) (length get_ended)
            (length get_ended + 7) fields found,
        host_header_short get_ended rest c fields sp short full,
      )
    where
      tail : Bytes
      tail = host_field ++ c ∷ b'\n' ∷ rest

      fields : Fields
      fields = line_fields host path t one tail f size

      found : strchr (get_ended ++ tail) (length get_ended) b'\n' ≡ ok (some (length get_ended + 7))
      found = strchr-found b'\n' get_ended (host_field ++ c ∷ []) rest (omega arith) (omega arith)

      short : length get_ended < 2 ^ 63
      short = omega (
        arith,
        t.host_fits,
        t.path_fits,
        length-append host (b'/' ∷ path),
        length-append (url host path t) (b' ' ∷ version_text one),
        length-append (url host path t ++ b' ' ∷ version_text one) (0 ∷ []),
      )

      full : length (named host path t one tail f size) ≡ max_name_length + 1
      full = omega (
        arith,
        t.host_fits,
        size.hostname_size,
        length-append host (0 ∷ drop (suc (length host)) f.hostname),
        length-drop f.hostname (suc (length host)) (omega (arith, t.host_fits, size.hostname_size)),
      )

-- A GET request whose URL has no slash behind the host crashes the call.
pub parse_request_string-no_path :
    (host tail : Bytes) (one : Bool) (f : Fields) (t : IsUrl host)
    → Lacks b'/' host
    → parse_request_string (request_line host one t ++ b'\n' ∷ tail) f ≡ fault
parse_request_string-no_path host tail one f t h =
    parse_request_string-get host one t tail f ∙ rw no_slash
  where
    no_slash :
        split_url (cut host one t tail f) 11 (record f { version = version_of one; is_get = true })
        ≡ fault
    no_slash =
        unfold split_url in
        rw (strchr-none b'/' get_http host (version_text one ++ 0 ∷ tail) (omega arith) h t.text)
