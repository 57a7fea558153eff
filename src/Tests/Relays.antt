-- ===== src/Tests/Relays.antt =====
-- The relay of a response whose server keeps sending, and of one whose server has closed.
use mathlib.Core.List.{append-nil}
use mathlib.Core.Option.{some-injective}
use http_exercise.Base.{ℕ, ◌≤◌, ◌≡◌, refl, sym, [], ◌++◌, none, some, arith, length, replicate}
use http_exercise.Base.Int.{pos}
use http_exercise.Exec.{ok}
use http_exercise.CStr.{Bytes}
use http_exercise.Net.{Net}
use http_exercise.Worker.Relay.{relay_loop}
use http_exercise.Worker.Relay.Relayed.{Relayed}
use http_exercise.Worker.Relay.Silent.{relay_loop_silent}
use http_exercise.Tests.SlowNet.{Traffic, slow_net, nothing}

abbrev empty_buffer : Bytes
empty_buffer = replicate 4097 0

no_bytes :
    (n : ℕ) (t : Traffic) {bytes : Bytes}
    → some [] ≡ some bytes
    → (length bytes ≤ n) × (t.2 ≡ t.2 ++ bytes)
no_bytes n t {bytes} e =
    let same : [] ≡ bytes = some-injective _ _ e in
    rw (← same) (omega arith, sym (append-nil (t.2)))

abbrev silent_net : Net
silent_net = record slow_net {
  recv = λ _ _ t. (some [], t);
  recv-sent = λ _ _ _ _. refl;
  recv-written = λ _ _ _ _. refl;
  recv_some = λ _ n t e. no_bytes n t e;
}

relay_loop_silent_example :
    relay_loop silent_net (pos 5) (pos 6) (some tt) 1000 empty_buffer (pos 8) (pos 3) nothing
    ≡ ok none
relay_loop_silent_example =
    relay_loop_silent silent_net (pos 5) (pos 6) (some tt) 1000 empty_buffer (pos 8) (pos 3) nothing
      (λ w. refl) refl refl
