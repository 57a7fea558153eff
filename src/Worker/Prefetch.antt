-- ===== src/Worker/Prefetch.antt =====
-- `dispatch_prefetch_jobs`: a job for each link of a page.
pub mod Roundtrip
pub mod Unconnected
use http_exercise.Base.{
  ℕ, zero, suc, ◌+◌, Bool, true, false, ◌||◌, List, [], ◌∷◌, ◌++◌, Option, none, some, ltb,
  if◌then◌else◌, length,
}
use http_exercise.Base.Int.{negsuc}
use http_exercise.Exec.{Exec, ok, fault, ◌>>=◌}
use http_exercise.Constants.{Status, success, fail, finished, job_request_buffer_size, max_url_size}
use http_exercise.CStr.{Bytes, codes, cstr, strncpy}
use http_exercise.Job.{Job, job_construct}
use http_exercise.Parsing.{matches_command}
use http_exercise.Parsing.Href.{TextFile, find_href}

-- The text of the request for a link; one that begins with a slash is on the same host.
unfoldable pub dispatch_request : Bool → Bytes → Bytes → Bytes
dispatch_request true hostname found_link =
    codes "GET http://" ++ (hostname ++ (found_link ++ codes " HTTP/1.1\r\n\r\n"))
dispatch_request false hostname found_link =
    codes "GET " ++ (found_link ++ codes " HTTP/1.1\r\n\r\n")

-- The job whose request is a text, if the text fits the local buffer.
unfoldable pub request_job : Bytes → Exec Job
request_job text =
    let prefetch_job = job_construct (negsuc 0) in
    if ltb (length text) (job_request_buffer_size + max_url_size)
    then (do
      request ← strncpy prefetch_job.request (text ++ 0 ∷ []) 0 job_request_buffer_size
      ok (record prefetch_job { request = request; request_tail = length text }))
    else fault

-- The job for a link, or none for a link that is neither absolute nor begins with a slash.
unfoldable pub prefetch_job : Bytes → Bytes → Exec (Option Job)
prefetch_job hostname found_link = do
  absolute ← matches_command found_link 0 (codes "http://")
  slash ← matches_command found_link 0 (codes "/")
  if absolute || slash
      then (do
        host ← cstr hostname
        address ← cstr found_link
        job ← request_job (dispatch_request slash host address)
        ok (some job))
      else ok none

-- The loop over the links: the jobs that are pushed, in order. `junk` is what the local buffer of
-- `find_href` holds in each round. A link moves the file on, so its length is fuel enough.
unfoldable pub dispatch_links : ℕ → (ℕ → Bytes) → Bytes → TextFile → Bytes → Exec (List Job)
dispatch_links zero junk hostname cached_response found_link = fault
dispatch_links (suc fuel) junk hostname cached_response found_link = do
  found ← find_href (junk fuel) cached_response found_link
  elim found.0 [
    | finished ↦ ok []
    | success ↦ (do
      job ← prefetch_job hostname found.2
      rest ← dispatch_links fuel junk hostname found.1 found.2
      ok (elim job [ none ↦ rest | some j ↦ j ∷ rest ]))
    | _ ↦ dispatch_links fuel junk hostname found.1 found.2
  ]

-- `dispatch_prefetch_jobs` starts at the beginning of the file.
unfoldable pub dispatch_prefetch_jobs : (ℕ → Bytes) → Bytes → TextFile → Bytes → Exec (List Job)
dispatch_prefetch_jobs junk hostname cached_response found_link =
    dispatch_links (suc (length cached_response.content)) junk hostname
      (record cached_response { position = 0 }) found_link
