-- ===== src/Tests/Pieces.antt =====
-- A slow client: the second piece of its request line.
use http_exercise.Base.{◌≡◌, refl, false, [], ◌++◌, arith, replicate}
use http_exercise.Base.Int.{pos}
use http_exercise.Exec.{ok}
use http_exercise.Constants.{enqueue}
use http_exercise.CStr.{codes}
use http_exercise.Job.{Job}
use http_exercise.Parsing.{malformed}
use http_exercise.Parsing.Request.{Fields}
use http_exercise.Thread.{done, crash}
use http_exercise.Worker.Process.{is_expired, process_job}
use http_exercise.Worker.Process.Pieces.{HasText, grown, process_job-piece}
use http_exercise.Tests.HashTable.{elements}
use http_exercise.Tests.Hosts.{two_addresses, listed, local}
use http_exercise.Tests.SlowNet.{slow_net, nothing}

abbrev started : Job
started = record {
  client_socket_fd = pos 5;
  request = codes "GET" ++ replicate 4094 0;
  request_tail = 3;
  expiration_time = 110;
}

started-HasText : HasText started (codes "GET")
started-HasText = record {
  held = refl;
  tail = refl;
  unfinished = omega arith;
  no_nul = omega arith;
}

abbrev pub blank : Fields
blank = record {
  is_get = false;
  hostname = replicate 257 0;
  path = replicate 2049 0;
  version = malformed;
  proxy_keep_alive = false;
}

started-fresh : is_expired started 105 ≡ false
unfolding is_expired
started-fresh = refl

process_job-piece_example :
    (process_job elements two_addresses slow_net
        (λ _ _ _ _ _. crash)
        listed
        local
        blank
        105
        105
        started
        nothing
      ≡ ok (
          done (
            enqueue,
            grown started
                (codes "GET")
                b'a'
                (codes "bc")
                started-HasText
                (omega arith)
                (omega arith)
                (omega arith)
                105,
            ([], [], codes "abc"),
          )))
    × HasText
        (grown started
          (codes "GET")
          b'a'
          (codes "bc")
          started-HasText
          (omega arith)
          (omega arith)
          (omega arith)
          105)
        (codes "GETabc")
process_job-piece_example =
    process_job-piece started (codes "GET") b'a' (codes "bc") started-HasText (omega arith)
      (omega arith) (omega arith) elements two_addresses slow_net (λ _ _ _ _ _. crash) listed local
      blank 105 105 nothing started-fresh refl refl
