-- ===== src/Parsing/Request/Line.antt =====
-- `parse_request_string` on a GET request for an absolute URL.
use mathlib.Core.List.{append_assoc}
use http_exercise.Base.{
  ℕ, suc, ◌+◌, ◌≡◌, refl, ap, ◌∙◌, Bool, true, false, not, [], ◌∷◌, ◌++◌, none, some, arith, leb,
  if◌then◌else◌, length, drop-add-append,
}
use http_exercise.Exec.{Exec, ok, ◌>>=◌}
use http_exercise.Constants.{success}
use http_exercise.CStr.{
  Bytes, codes, strchr, strrchr, scan, store, starts_with, starts_with_case_insensitive,
}
use http_exercise.CStr.Scan.{Lacks, Lacks-append, strchr-found, rscan-found}
use http_exercise.CStr.Copy.{store-append}
use http_exercise.Parsing.{
  HttpVersion, malformed, not_supported, dot_zero, dot_one, matches_command,
  matches_command_case_insensitive,
}
use http_exercise.Parsing.Request.{
  Fields, request_version, request_method, split_url, parse_headers, parse_url, parse_method,
  parse_line, parse_request_string, Parsed,
}

-- "GET http://"
abbrev pub get_http : Bytes
get_http = codes "GET http://"

-- the flag says whether the version is 1.1 or 1.0
abbrev pub version_text : Bool → Bytes
version_text one = codes "HTTP/1." ++ (if one then b'1' else b'0') ∷ b'\r' ∷ []

abbrev pub version_of : Bool → HttpVersion
version_of one = if one then dot_one else dot_zero

version_at :
    (one : Bool) (rest : Bytes)
    → (do
      http ← starts_with (version_text one ++ rest) (codes "HTTP/")
      if not http then ok malformed else (do
        hit ← starts_with (version_text one ++ rest) (codes "HTTP/1.1")
        if hit then ok dot_one else (do
          nought ← starts_with (version_text one ++ rest) (codes "HTTP/1.0")
          ok (if nought then dot_zero else not_supported))))
      ≡ ok (version_of one)
unfolding starts_with
version_at true rest = refl
version_at false rest = refl

parse_line-version_of :
    (one : Bool) (e b : ℕ) (buf : Bytes) (f : Fields)
    → parse_line (version_of one) e b buf f ≡ parse_method e b buf f
unfolding parse_line
parse_line-version_of true e b buf f = refl
parse_line-version_of false e b buf f = refl

-- The URL behind "http://", as far as the request line is concerned.
pub record IsUrl (url : Bytes) : Type 0 where
  pub text : Lacks 0 url
  pub line : Lacks b'\n' url

module _ (url : Bytes) (one : Bool) (t : IsUrl url) where
  abbrev pub target : Bytes
  target = get_http ++ url

  -- the request line without its newline
  abbrev pub request_line : Bytes
  request_line = target ++ b' ' ∷ version_text one

  text_Lacks :
      Lacks 0 (version_text one) × Lacks b'\n' (version_text one) × Lacks b' ' (version_text one)
  text_Lacks = ground arith

  line_Lacks : Lacks 0 request_line × Lacks b'\n' request_line
  line_Lacks = (
    Lacks-append 0 target (b' ' ∷ version_text one)
        (Lacks-append 0 get_http url (omega arith) t.text) (omega arith, text_Lacks.0),
    Lacks-append b'\n' target (b' ' ∷ version_text one)
        (Lacks-append b'\n' get_http url (omega arith) t.line) (omega arith, text_Lacks.1),
  )

  module _ (tail : Bytes) (f : Fields) where
    abbrev pub line_cut : ℕ → Bytes
    line_cut c = target ++ b' ' ∷ (version_text one ++ c ∷ tail)

    regroup : (c : ℕ) → request_line ++ c ∷ tail ≡ line_cut c
    regroup c = append_assoc target (b' ' ∷ version_text one) (c ∷ tail)

    newline_found : strchr (request_line ++ b'\n' ∷ tail) 0 b'\n' ≡ ok (some (length request_line))
    newline_found =
        strchr-found b'\n' [] request_line tail line_Lacks.1 line_Lacks.0
        ∙ ap (λ n. ok (some n)) (omega arith)

    space_found : strrchr (line_cut 0) 0 b' ' ≡ ok (some (length target))
    unfolding strrchr
    space_found =
        rscan-found b' ' 0 none target (version_text one) tail (omega arith)
          (Lacks-append 0 get_http url (omega arith) t.text) text_Lacks.2 text_Lacks.0
        ∙ ap (λ n. ok (some n)) (omega arith)

    version_read : request_version (line_cut 0) (length target + 1) ≡ ok (version_of one)
    unfolding request_version matches_command
    version_read =
        rw (drop-add-append target (b' ' ∷ (version_text one ++ 0 ∷ tail)) 1)
          (version_at one (0 ∷ tail))

    method_read : request_method (line_cut 0) ≡ ok (some true)
    unfolding request_method matches_command starts_with
    method_read = refl

    first_space : strchr (line_cut 0) 0 b' ' ≡ ok (some 3)
    unfolding strchr scan
    first_space = refl

    -- the line with the second space cut
    abbrev pub cut : Bytes
    cut = target ++ 0 ∷ (version_text one ++ 0 ∷ tail)

    cut_lem : store (line_cut 0) (length target) 0 ≡ ok cut
    cut_lem = store-append target (version_text one ++ 0 ∷ tail) b' ' 0

    back_lem : store cut (length target) b' ' ≡ ok (line_cut 0)
    back_lem = store-append target (version_text one ++ 0 ∷ tail) 0 b' '

    http_matches : matches_command_case_insensitive cut 4 (codes "http://") ≡ ok true
    unfolding matches_command_case_insensitive starts_with_case_insensitive
    http_matches = refl

    far : leb (length target) 4 ≡ false
    far = ground arith

    -- What is left to do once the request line is taken apart: `g` are the fields so far.
    abbrev pub url_and_headers : Fields → Exec Parsed
    url_and_headers g = do
      named ← split_url cut 11 g
      read ←
          parse_headers (suc (length (line_cut 0))) (line_cut 0) (length request_line + 1)
            (record named { proxy_keep_alive = false })
      ok (success, line_cut 0, read)

    parse_url_lem :
        (g : Fields)
        → parse_url (length request_line) (length target) (line_cut 0) g ≡ url_and_headers g
    unfolding parse_url
    parse_url_lem g = rw (first_space, cut_lem, far, http_matches, back_lem)

    after_version :
        parse_line
          (version_of one)
          (length request_line)
          (length target)
          (line_cut 0)
          (record f { version = version_of one })
        ≡ url_and_headers (record f { version = version_of one; is_get = true })
    unfolding parse_method
    after_version =
        parse_line-version_of one (length request_line) (length target) (line_cut 0)
          (record f { version = version_of one })
        ∙ rw (method_read, parse_method) (parse_url_lem _)

    line_ended : store (request_line ++ b'\n' ∷ tail) (length request_line) 0 ≡ ok (line_cut 0)
    line_ended = store-append request_line tail b'\n' 0 ∙ ap ok (regroup 0)

    pub parse_request_string-get :
        parse_request_string (request_line ++ b'\n' ∷ tail) f
        ≡ url_and_headers (record f { version = version_of one; is_get = true })
    unfolding parse_request_string
    parse_request_string-get =
        rw (newline_found, line_ended, space_found, version_read) after_version
