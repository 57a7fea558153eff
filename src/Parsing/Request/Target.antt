-- ===== src/Parsing/Request/Target.antt =====
-- A request line whose URL has a host and a path: where `split_url` cuts it.
use mathlib.Core.List.{append_assoc}
use http_exercise.Base.{
  ℕ, suc, ◌+◌, ◌-◌, ◌≤◌, ◌<◌, ◌≡◌, refl, sym, ap, ◌∙◌, Bool, true, false, [], ◌∷◌, ◌++◌, some,
  arith, length, length-append, drop, drop-eq-cons, replicate,
}
use http_exercise.Exec.{Exec, ok, ◌>>=◌}
use http_exercise.Constants.{success, max_name_length, max_url_size}
use http_exercise.CStr.{Bytes, strchr, strncpy, store}
use http_exercise.CStr.Scan.{Lacks, Lacks-append, strchr-found}
use http_exercise.CStr.Copy.{strncpy_exact, strncpy_padded, store-append}
use http_exercise.Parsing.Request.{Fields, Parsed, split_url, parse_headers, parse_request_string}
use http_exercise.Parsing.Request.Path.{Stripped, strip_slash_lem}
use http_exercise.Parsing.Request.Line.{
  get_http, version_text, version_of, IsUrl, target, request_line, line_cut, cut,
  parse_request_string-get,
}

-- A host and the path behind its first slash that can stand in a request line and fit the buffers.
pub record IsTarget (host path : Bytes) : Type 0 where
  pub host_text : Lacks 0 host
  pub host_slash : Lacks b'/' host
  pub host_line : Lacks b'\n' host
  pub host_fits : length host ≤ max_name_length
  pub path_text : Lacks 0 path
  pub path_line : Lacks b'\n' path
  pub path_fits : length path + 1 < max_url_size

-- The buffers of `process_job`.
pub record HasBuffers (f : Fields) : Type 0 where
  pub hostname_size : length f.hostname ≡ max_name_length + 1
  pub path_size : length f.path ≡ max_url_size + 1

module _ (host path : Bytes) (t : IsTarget host path) where
  abbrev pub url : Bytes
  url = host ++ b'/' ∷ path

  pub url-IsUrl : IsUrl url
  url-IsUrl = record {
    text = Lacks-append 0 host (b'/' ∷ path) t.host_text (omega arith, t.path_text);
    line = Lacks-append b'\n' host (b'/' ∷ path) t.host_line (omega arith, t.path_line);
  }

  module _ (one : Bool) (tail : Bytes) (f : Fields) (size : HasBuffers f) where
    abbrev whole_cut : Bytes
    whole_cut = cut url one url-IsUrl tail f

    abbrev behind : Bytes
    behind = version_text one ++ 0 ∷ tail

    cut_split : whole_cut ≡ get_http ++ (host ++ b'/' ∷ (path ++ 0 ∷ behind))
    cut_split = ap (λ l. get_http ++ l) (append_assoc host (b'/' ∷ path) (0 ∷ behind))

    -- `divider_a + 7`
    slash_found : strchr whole_cut 11 b'/' ≡ ok (some (11 + length host))
    slash_found =
        ap (λ l. strchr l 11 b'/') cut_split
        ∙ strchr-found b'/' get_http host (path ++ 0 ∷ behind) t.host_slash t.host_text

    abbrev pub named : Bytes
    named = host ++ 0 ∷ drop (suc (length host)) f.hostname

    host-length : 11 + length host - 11 ≡ length host
    host-length = omega arith

    host_copied :
        strncpy f.hostname whole_cut 11 (length host) ≡ ok (host ++ drop (length host) f.hostname)
    host_copied =
        ap (λ l. strncpy f.hostname l 11 (length host)) cut_split
        ∙ strncpy_exact f.hostname get_http host (b'/' ∷ (path ++ 0 ∷ behind)) t.host_text
            (omega (arith, t.host_fits, size.hostname_size))

    host_ended : store (host ++ drop (length host) f.hostname) (length host) 0 ≡ ok named
    host_ended =
        let (x, e) =
          drop-eq-cons f.hostname (length host) (omega (arith, t.host_fits, size.hostname_size)) in
        rw e (store-append host (drop (suc (length host)) f.hostname) x 0)

    abbrev padding : Bytes
    padding = replicate (max_url_size - suc (length path) - 1) 0 ++ drop max_url_size f.path

    path_copied :
        strncpy f.path whole_cut (11 + length host) max_url_size ≡ ok (b'/' ∷ (path ++ 0 ∷ padding))
    path_copied =
        ap (λ l. strncpy f.path l (11 + length host) max_url_size)
          (cut_split ∙ sym (append_assoc get_http host (b'/' ∷ (path ++ 0 ∷ behind))))
        ∙ ap
            (λ n. strncpy f.path ((get_http ++ host) ++ b'/' ∷ (path ++ 0 ∷ behind)) n max_url_size)
            front
        ∙ strncpy_padded f.path (get_http ++ host) (b'/' ∷ path) behind max_url_size
            (omega arith, t.path_text) (omega (arith, t.path_fits)) (omega (arith, size.path_size))
      where
        front : 11 + length host ≡ length (get_http ++ host)
        front = omega arith

    pub path_done : Stripped path (b'/' ∷ (path ++ 0 ∷ padding))
    path_done = strip_slash_lem path padding t.path_text

    named_lem :
        (g : Fields)
        → g.hostname ≡ f.hostname
        → g.path ≡ f.path
        → split_url whole_cut 11 g ≡ ok (record g { hostname = named; path = path_done.0 })
    unfolding split_url
    named_lem g h p =
        rw (slash_found, h, p, host-length, host_copied, host_ended, path_copied, path_done.1)

    abbrev pub line_fields : Fields
    line_fields = record {
      is_get = true;
      hostname = named;
      path = path_done.0;
      version = version_of one;
      proxy_keep_alive = false;
    }

    abbrev pub ended_line : Bytes
    ended_line = request_line url one url-IsUrl ++ 0 ∷ []

    ended_line-append :
        (rest : Bytes) → request_line url one url-IsUrl ++ 0 ∷ rest ≡ ended_line ++ rest
    ended_line-append rest = sym (append_assoc (request_line url one url-IsUrl) (0 ∷ []) rest)

    -- the request line is done, and the headers are left
    abbrev pub headers_from : Bytes → ℕ → Exec Parsed
    headers_from buf at = do
      read ← parse_headers (suc (length buf)) buf at line_fields
      ok (success, buf, read)

    pub headers_left :
        parse_request_string (request_line url one url-IsUrl ++ b'\n' ∷ tail) f
        ≡ headers_from (ended_line ++ tail) (length ended_line)
    headers_left =
        parse_request_string-get url one url-IsUrl tail f
        ∙ rw (named_lem (record f { version = version_of one; is_get = true }) refl refl) (
            ap (λ buf. headers_from buf (length (request_line url one url-IsUrl) + 1)) regrouped
            ∙ ap (headers_from (ended_line ++ tail)) (sym next))
      where
        next : length ended_line ≡ length (request_line url one url-IsUrl) + 1
        next = length-append (request_line url one url-IsUrl) (0 ∷ [])

        regrouped : line_cut url one url-IsUrl tail f 0 ≡ ended_line ++ tail
        regrouped =
            sym (append_assoc (target url one url-IsUrl) (b' ' ∷ version_text one) (0 ∷ tail))
            ∙ ended_line-append tail
