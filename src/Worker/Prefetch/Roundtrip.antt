-- ===== src/Worker/Prefetch/Roundtrip.antt =====
-- A job that is made for a link asks for that link.
use mathlib.Core.List.{append_assoc}
use http_exercise.Base.{
  ℕ, ◌+◌, ◌-◌, ◌<◌, ◌≡◌, refl, ap, ◌∙◌, true, [], ◌∷◌, ◌++◌, some, arith, lt→ltb, length,
  length-append, length-replicate, replicate, drop,
}
use http_exercise.Base.Int.{negsuc}
use http_exercise.Exec.{ok}
use http_exercise.Constants.{success, job_request_buffer_size, max_url_size}
use http_exercise.CStr.{Bytes, codes, cstr, starts_with}
use http_exercise.CStr.Scan.{Lacks, Lacks-append, cstr-append}
use http_exercise.CStr.Copy.{strncpy_padded}
use http_exercise.Job.{Job, job_construct, job_clear_buffer}
use http_exercise.Parsing.{matches_command, dot_one}
use http_exercise.Parsing.Request.{Fields, parse_request_string}
use http_exercise.Parsing.Request.Path.{cut_slash}
use http_exercise.Parsing.Request.Target.{IsTarget, HasBuffers}
use http_exercise.Parsing.Request.Url.{get_line, parse_request_string-whole}
use http_exercise.Worker.Prefetch.{dispatch_request, request_job, prefetch_job}

request_job_lem :
    (text : Bytes)
    → Lacks 0 text
    → length text < job_request_buffer_size
    → (job : Job) × (left : Bytes) × (request_job text ≡ ok job) × (job.request ≡ text ++ 0 ∷ left)
unfolding request_job job_construct job_clear_buffer
request_job_lem text z h = (
  record {
    client_socket_fd = negsuc 0;
    request = text ++ 0 ∷ left;
    request_tail = length text;
    expiration_time = 0;
  },
  left,
  rw
      (
        lt→ltb (length text) (job_request_buffer_size + max_url_size) (omega (arith, h)),
        strncpy_padded zeros [] text [] job_request_buffer_size z h
            (omega (arith, length-replicate {A = ℕ} (job_request_buffer_size + 1) 0)),
      )
      refl,
  refl,
)
  where
    zeros : Bytes
    zeros = replicate (job_request_buffer_size + 1) 0

    left : Bytes
    left =
        replicate (job_request_buffer_size - length text - 1) 0
        ++ drop job_request_buffer_size zeros

module _ (host path : Bytes) (t : IsTarget host path) where
  abbrev link : Bytes
  link = b'/' ∷ path

  abbrev text : Bytes
  text = dispatch_request true host link

  text_split :
      (f : Fields) (size : HasBuffers f) (left : Bytes)
      → text ++ 0 ∷ left ≡ get_line host path t true f size ++ b'\n' ∷ b'\r' ∷ b'\n' ∷ 0 ∷ left
  unfolding dispatch_request
  text_split f size left = simp append_assoc refl

  text_Lacks : Lacks 0 text
  unfolding dispatch_request
  text_Lacks =
      Lacks-append 0 (codes "GET http://") (host ++ (link ++ codes " HTTP/1.1\r\n\r\n"))
        (omega arith)
        (Lacks-append 0 host (link ++ codes " HTTP/1.1\r\n\r\n") t.host_text (
          Lacks-append 0 link (codes " HTTP/1.1\r\n\r\n") (omega arith, t.path_text) (omega arith)))

  text-length : length text < job_request_buffer_size
  unfolding dispatch_request
  text-length = omega (
    arith,
    t.host_fits,
    t.path_fits,
    length-append host (link ++ codes " HTTP/1.1\r\n\r\n"),
    length-append path (codes " HTTP/1.1\r\n\r\n"),
  )

  -- The job that is made for a link to a path on the host of the page asks for that host and that
  -- path, if both fit the buffers: a worker that parses its request reads them back, the path without
  -- its trailing slash.
  pub prefetch_job-parse :
      (r s : Bytes) (f : Fields)
      → HasBuffers f
      → (job : Job) × (request : Bytes) × (out : Fields) × (prefetch_job
            (host ++ 0 ∷ r)
            (b'/' ∷ (path ++ 0 ∷ s))
          ≡ ok (some job))
        × (parse_request_string job.request f ≡ ok (success, request, out))
        × (out.is_get ≡ true)
        × (cstr out.hostname ≡ ok host)
        × (cstr out.path ≡ ok (b'/' ∷ cut_slash path))
        × (out.version ≡ dot_one)
  unfolding prefetch_job matches_command starts_with
  prefetch_job-parse r s f size =
      let (job, left, made, held) = request_job_lem text text_Lacks text-length in
      let (out, runs, get, name, where_to, version, alive) =
        parse_request_string-whole host path t true f size left in
      (
        job,
        get_line host path t true f size ++ 0 ∷ b'\r' ∷ b'\n' ∷ 0 ∷ left,
        out,
        rw (cstr-append host r t.host_text, cstr-append link s (omega arith, t.path_text), made)
            refl,
        ap (λ l. parse_request_string l f) (held ∙ text_split f size left) ∙ runs,
        get,
        name,
        where_to,
        version,
      )
