-- ===== src/Tests/Sends.antt =====
-- Runs of `try_send_in_chunks` and of `cache_and_send`.
use http_exercise.Base.{ℕ, ◌≤◌, ◌≡◌, refl, ◌⊎◌, [], some, arith, take}
use http_exercise.Base.Int.{ℤ, pos}
use http_exercise.Exec.{ok}
use http_exercise.Constants.{Status, success, fail}
use http_exercise.CStr.{codes}
use http_exercise.Tests.SlowNet.{Traffic, slow_net, nothing}
use http_exercise.Worker.Send.{try_send_in_chunks, cache_and_send}
use http_exercise.Worker.Send.Sent.{Sends, try_send_in_chunks_lem, cache_and_send_lem}

try_send_in_chunks_lem_example :
    Sends slow_net
      (pos 5)
      (codes "hello!")
      5
      (omega arith)
      nothing
      (try_send_in_chunks slow_net (pos 5) (codes "hello!") (pos 5) nothing)
try_send_in_chunks_lem_example =
    try_send_in_chunks_lem slow_net (pos 5) (codes "hello!") 5 (omega arith) nothing refl

cache_and_send_lem_example :
    (result : Status) × (after : Traffic) × (count : ℕ) × (cache_and_send slow_net
        (pos 5)
        (some tt)
        (codes "hello!")
        (pos 5)
        nothing
      ≡ ok (result, after))
    × (after.1 ≡ codes "hello")
    × ((s : ℤ) → after.2 ≡ [])
    × (count ≤ 5)
    × (after.0 ≡ take count (codes "hello!"))
    × ((result ≡ success) × (count ≡ 5) ⊎ (result ≡ fail))
cache_and_send_lem_example =
    cache_and_send_lem slow_net (pos 5) (codes "hello!") 5 (omega arith) nothing tt refl
