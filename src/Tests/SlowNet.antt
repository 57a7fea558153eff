-- ===== src/Tests/SlowNet.antt =====
-- A network that takes two bytes at a time, whose clients stay and whose servers never stop to send.
use http_exercise.Base.{
  ℕ, zero, suc, ◌≤◌, ◌<◌, ◌≡◌, ◌≢◌, refl, [], ◌∷◌, ◌++◌, Option, none, some, arith, length, take,
}
use mathlib.Core.Option.{some-injective}
use http_exercise.CStr.{Bytes, codes}
use http_exercise.Net.{Net}

-- what the one client has got, what stands in the one file, and what has come in
abbrev pub Traffic : Type 0
Traffic = Bytes × Bytes × Bytes

abbrev pub send_two : Bytes → Traffic → Option ℕ × Traffic
send_two [] t = (some 0, t)
send_two (x ∷ []) t = (some 1, (t.0 ++ x ∷ [], t.1, t.2))
send_two (x ∷ y ∷ more) t = (some 2, (t.0 ++ x ∷ y ∷ [], t.1, t.2))

pub send_two_kept :
    (bytes : Bytes) (t : Traffic)
    → (((send_two bytes t).1).1 ≡ t.1) × (((send_two bytes t).1).2 ≡ t.2)
send_two_kept [] t = (refl, refl)
send_two_kept (x ∷ []) t = (refl, refl)
send_two_kept (x ∷ y ∷ more) t = (refl, refl)

pub send_two-none :
    (bytes : Bytes) (t : Traffic) → (send_two bytes t).0 ≡ none → ((send_two bytes t).1).0 ≡ t.0
send_two-none [] t e = refl
send_two-none (x ∷ []) t e = absurd (ground arith)
send_two-none (x ∷ y ∷ more) t e = absurd (ground arith)

pub send_two-some :
    (bytes : Bytes) (t : Traffic) (n : ℕ)
    → bytes ≢ []
    → (send_two bytes t).0 ≡ some n
    → (0 < n) × (n ≤ length bytes) × (((send_two bytes t).1).0 ≡ t.0 ++ take n bytes)
send_two-some [] t n h e = absurd (h refl)
send_two-some (x ∷ []) t n h e =
    let one : 1 ≡ n = ground arith in rw (← one) (omega arith, omega arith, refl)
send_two-some (x ∷ y ∷ more) t n h e =
    let two : 2 ≡ n = ground arith in rw (← two) (omega arith, omega arith, refl)

-- the server never stops to send
abbrev pub piece : ℕ → Bytes
piece n = take n (codes "abc")

pub piece-length : (n : ℕ) → length (piece n) ≤ n
piece-length zero = omega arith
piece-length (suc zero) = omega arith
piece-length (suc (suc zero)) = omega arith
piece-length (suc (suc (suc zero))) = omega arith
piece-length (suc (suc (suc (suc n)))) = omega arith

pub receive_piece :
    (n : ℕ) (t : Traffic) {bytes : Bytes}
    → some (piece n) ≡ some bytes
    → (length bytes ≤ n) × (t.2 ++ piece n ≡ t.2 ++ bytes)
receive_piece n t e =
    let same : piece n ≡ _ = some-injective _ _ e in rw (← same) (piece-length n, refl)

abbrev pub slow_net : Net
slow_net = record {
  World = Traffic;
  File = Unit {0};
  peek = λ _ t. (none, t);
  send = λ _. send_two;
  recv = λ _ n t. (some (piece n), (t.0, t.1, t.2 ++ piece n));
  fwrite = λ _ bytes t. (t.0, t.1 ++ bytes, t.2);
  sent = λ _ t. t.0;
  written = λ _ t. t.1;
  received = λ _ t. t.2;
  peek-sent = λ _ _. refl;
  peek-written = λ _ _ _. refl;
  peek-received = λ _ _ _. refl;
  send-written = λ _ bytes _ t. (send_two_kept bytes t).0;
  send-received = λ _ bytes _ t. (send_two_kept bytes t).1;
  recv-sent = λ _ _ _ _. refl;
  recv-written = λ _ _ _ _. refl;
  recv_some = λ _ n t e. receive_piece n t e;
  send_none = λ _. send_two-none;
  send_some = λ _ bytes t {n} h e. send_two-some bytes t n h e;
  fwrite-written = λ _ _ _. refl;
  fwrite-received = λ _ _ _ _. refl;
  fwrite-sent = λ _ _ _ _. refl;
}

abbrev pub nothing : Traffic
nothing = ([], [], [])
