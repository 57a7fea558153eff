-- ===== src/Tests/Refusals.antt =====
-- A request for a host on the block list.
use http_exercise.Base.{◌⊎◌, ℕ, ◌≤◌, ◌≡◌, refl, true, [], ◌∷◌, ◌++◌, arith, take, replicate}
use http_exercise.Base.Int.{pos}
use http_exercise.Exec.{ok}
use http_exercise.Constants.{terminate}
use http_exercise.CStr.{codes, bytes_eq}
use http_exercise.Job.{Job}
use http_exercise.Parsing.{dot_one}
use http_exercise.Parsing.Request.{Fields}
use http_exercise.Thread.{done, crash}
use http_exercise.Worker.Process.{answer_request}
use http_exercise.Worker.Process.Refused.{SendFailed, answer_request-blocked}
use http_exercise.Tests.HashTable.{elements}
use http_exercise.Tests.Hosts.{two_addresses, listed, local}
use http_exercise.Tests.SlowNet.{Traffic, slow_net, nothing}

abbrev asked : Job
asked = record {
  client_socket_fd = pos 5;
  request = replicate 4097 0;
  request_tail = 40;
  expiration_time = 110;
}

abbrev evil : Fields
evil = record {
  is_get = true;
  hostname = codes "evil.com" ++ 0 ∷ [];
  path = codes "/" ++ 0 ∷ [];
  version = dot_one;
  proxy_keep_alive = true;
}

answer_request-blocked_example :
    (after : Traffic) × (count : ℕ) × (answer_request elements two_addresses slow_net
        (λ _ _ _ _ _. crash)
        listed
        local
        asked
        evil
        nothing
      ≡ ok (done (terminate, asked, after)))
    × ((count ≡ 51)
        ⊎ SendFailed elements two_addresses slow_net
            (λ _ _ _ _ _. crash)
            (pos 5)
            (codes "HTTP/1.1 403 Forbidden\r\nProxy-Connection: close\r\n\r\n")
            nothing
            after)
    × (count ≤ 51)
    × (after.0 ≡ take count (codes "HTTP/1.1 403 Forbidden\r\nProxy-Connection: close\r\n\r\n"))
unfolding bytes_eq
answer_request-blocked_example =
    answer_request-blocked elements two_addresses slow_net (λ _ _ _ _ _. crash) listed local
      (codes "evil.com") [] asked evil nothing refl refl refl refl refl (omega arith) (omega arith)
      (omega arith) refl
