-- ===== src/Tests/Prefetches.antt =====
-- The job for a link of a page.
use http_exercise.Base.{
  ◌≡◌, true, false, [], ◌∷◌, ◌++◌, some, arith, length-replicate, replicate, ℕ,
}
use http_exercise.Exec.{ok}
use http_exercise.Constants.{success}
use http_exercise.CStr.{Bytes, codes, cstr}
use http_exercise.Job.{Job}
use http_exercise.Parsing.{malformed, dot_one}
use http_exercise.Parsing.Request.{Fields, parse_request_string}
use http_exercise.Parsing.Request.Target.{IsTarget, HasBuffers}
use http_exercise.Parsing.Request.Path.{cut_slash}
use http_exercise.Worker.Prefetch.{prefetch_job}
use http_exercise.Worker.Prefetch.Roundtrip.{prefetch_job-parse}

host_foo-IsTarget : IsTarget (codes "host.org") (codes "foo1.txt")
host_foo-IsTarget = omega arith

abbrev unset : Fields
unset = record {
  is_get = false;
  hostname = replicate 257 0;
  path = replicate 2049 0;
  version = malformed;
  proxy_keep_alive = false;
}

unset-HasBuffers : HasBuffers unset
unset-HasBuffers = record {
  hostname_size = length-replicate {A = ℕ} 257 0;
  path_size = length-replicate {A = ℕ} 2049 0;
}

prefetch_job-parse_example :
    (job : Job) × (request : Bytes) × (out : Fields) × (prefetch_job
        (codes "host.org" ++ 0 ∷ [])
        (codes "/foo1.txt" ++ 0 ∷ [])
      ≡ ok (some job))
    × (parse_request_string job.request unset ≡ ok (success, request, out))
    × (out.is_get ≡ true)
    × (cstr out.hostname ≡ ok (codes "host.org"))
    × (cstr out.path ≡ ok (codes "/foo1.txt"))
    × (out.version ≡ dot_one)
unfolding cut_slash
prefetch_job-parse_example =
    prefetch_job-parse (codes "host.org") (codes "foo1.txt") host_foo-IsTarget [] [] unset
      unset-HasBuffers
