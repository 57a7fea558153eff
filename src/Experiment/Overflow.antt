-- ===== src/Experiment/Overflow.antt =====
-- The end of the buffer of the experimental clients.
use native.Mathlib.Decide.{dec_lt}
use mathlib.Core.List.{append-nil}
use http_exercise.Base.{
  ℕ, suc, ◌≤◌, ◌<◌, ◌≡◌, refl, ap, ◌∙◌, [], ◌∷◌, ◌++◌, ◌⊎◌, inl, inr, some, arith, length,
  length-replicate, drop, drop-eq-cons, drop_of_length-le,
}
use http_exercise.Base.Int.{ℤ}
use http_exercise.Exec.{ok, fault, ◌>>=◌, Exec-cases}
use http_exercise.CStr.{Bytes, overwrite, store}
use http_exercise.CStr.Copy.{overwrite-drop, store-append}
use http_exercise.Net.{Net}
use http_exercise.Resolver.{Resolver}
use http_exercise.Outside.{Outside}
use http_exercise.Experiment.{max_buffer_size, cleared_buffer, exchange}

store_end : (xs : Bytes) (v : ℕ) → store xs (length xs) v ≡ fault
unfolding store
store_end [] v = refl
store_end (x ∷ xs) v = rw (store_end xs v) refl

cleared_buffer-length : length cleared_buffer ≡ max_buffer_size
unfolding cleared_buffer
cleared_buffer-length = length-replicate {A = ℕ} max_buffer_size 0

-- the two stores into the buffer, as one computation
stop :
    {B : Type 0} (bytes : Bytes) (b : B)
    → overwrite cleared_buffer bytes >>= (λ filled. store filled (length bytes) 0 >>= λ _. ok b)
      ≡ (overwrite cleared_buffer bytes >>= λ filled. store filled (length bytes) 0) >>= λ _. ok b
stop bytes b = elim (Exec-cases (overwrite cleared_buffer bytes)) [
  | inl e ↦ rw e refl
  | inr (filled, e) ↦ rw e refl
]

ended :
    (bytes : Bytes)
    → length bytes ≤ max_buffer_size
    → let run = overwrite cleared_buffer bytes >>= λ filled. store filled (length bytes) 0 in
      (length bytes ≡ max_buffer_size) × (run ≡ fault)
      ⊎ (length bytes < max_buffer_size) × ((after : Bytes) × (run ≡ ok after))
ended bytes h = elim (dec_lt (length bytes) max_buffer_size) [
  | yes less ↦
      let (x, e) =
        drop-eq-cons cleared_buffer (length bytes) (omega (arith, cleared_buffer-length)) in
      inr (
        less,
        (
          bytes ++ 0 ∷ drop (suc (length bytes)) cleared_buffer,
          rw (overwrite-drop cleared_buffer bytes (omega (arith, h, cleared_buffer-length)), e)
              (store-append bytes (drop (suc (length bytes)) cleared_buffer) x 0),
        ),
      )
  | no full ↦ inl (
    omega (arith, h),
    rw
        (
          overwrite-drop cleared_buffer bytes (omega (arith, h, cleared_buffer-length)),
          drop_of_length-le cleared_buffer (length bytes) (omega (arith, cleared_buffer-length)),
          append-nil bytes,
        )
        (store_end bytes 0),
  )
]

module _ {names : Resolver} (net : Net) (outside : Outside names net) where
  open net use {World, send, recv, recv_some}

  -- When the request has been sent and the first piece of the answer is there, the experimental clients
  -- end with exit code 0 if the piece is shorter than their buffer. If it fills the buffer they
  -- write a NUL behind it, which is undefined.
  exchange_overflow :
      (socket_fd : ℤ) (request : Bytes) (w : World) {n : ℕ} {bytes : Bytes}
      → (send socket_fd request w).0 ≡ some n
      → (recv socket_fd max_buffer_size (send socket_fd request w).1).0 ≡ some bytes
      → (length bytes ≡ max_buffer_size) × (exchange net outside socket_fd request w ≡ fault)
        ⊎ (length bytes < max_buffer_size)
          × (exchange net outside socket_fd request w
              ≡ ok (0, (recv socket_fd max_buffer_size (send socket_fd request w).1).1))
  unfolding exchange
  exchange_overflow socket_fd request w {n} {bytes} s r =
      let w₁ = (send socket_fd request w).1 in
      let w₂ = (recv socket_fd max_buffer_size w₁).1 in
      elim (ended bytes (recv_some socket_fd max_buffer_size w₁ r).0) [
        | inl (full, e) ↦
            inl (
              full,
              rw (s, exchange, r) (stop bytes (0, w₂) ∙ ap (λ run. run >>= λ _. ok (0, w₂)) e),
            )
        | inr (less, (after, e)) ↦
            inr (
              less,
              rw (s, exchange, r) (stop bytes (0, w₂) ∙ ap (λ run. run >>= λ _. ok (0, w₂)) e),
            )
      ]
