-- ===== src/Worker/Handle/Unmoved.antt =====
-- Sending to a client leaves a file where it is, and the buffer of a cache hit.
use http_exercise.Base.{
  ℕ, zero, suc, ◌+◌, ◌-◌, ◌<◌, ◌≡◌, refl, ◌∙◌, true, false, [], ◌∷◌, ◌++◌, inl, inr, none, some,
  arith, Bool-cases, Option-cases, ◌==◌, length, drop, length-append, length-drop, drop-eq-cons,
}
use http_exercise.Base.Int.{ℤ, pos, ltb_ℤ, pos_part}
use http_exercise.Exec.{Exec, ok, fault, Exec-cases, ◌>>=◌}
use http_exercise.Constants.{Status, fail}
use http_exercise.CStr.{Bytes, overwrite, store}
use http_exercise.CStr.Copy.{overwrite-drop, store-append}
use http_exercise.Net.{Net}
use http_exercise.Resolver.{Resolver}
use http_exercise.Outside.{Outside}
use http_exercise.Worker.Send.{slice, no_socket, send_chunks, try_send_in_chunks}

pub nil_of_length : (xs : Bytes) → (length xs == 0) ≡ true → xs ≡ []
nil_of_length [] e = refl
nil_of_length (x ∷ xs) e = absurd (ground (arith, e))

pub nonzero : (xs : Bytes) → (length xs == 0) ≡ false → 0 < length xs
nonzero xs e = ground (arith, e)

-- a buffer with a chunk over its start and a NUL behind that
pub ended_buffer :
    (buffer chunk : Bytes)
    → length chunk < length buffer
    → (rest : Bytes) × (overwrite buffer chunk ≡ ok (chunk ++ drop (length chunk) buffer))
      × (store (chunk ++ drop (length chunk) buffer) (length chunk) 0 ≡ ok (chunk ++ 0 ∷ rest))
      × (length (chunk ++ 0 ∷ rest) ≡ length buffer)
ended_buffer buffer chunk h =
    let (x, e) = drop-eq-cons buffer (length chunk) h in
    let rest = drop (suc (length chunk)) buffer in
    (
      rest,
      overwrite-drop buffer chunk (omega arith),
      rw e (store-append chunk rest x 0),
      omega (arith, length-append chunk (0 ∷ rest), length-drop buffer (suc (length chunk)) h),
    )

module _ {names : Resolver} (net : Net) (outside : Outside names net) (junk : ℕ → Bytes)
    (thread_id : ℤ) (fd : ℤ) (there : no_socket fd ≡ false) (file : net.File) where
  open net use {World, peek, send, sent}
  open outside use {
    fread, unread, stored, open_read, open_read-unread, open_read-sent, fread-bytes, fread-unread,
    fread-sent, peek-unread, send-unread,
  }

  -- Sending leaves the file where it is.
  abbrev pub Unmoved : World → Exec (Status × World) → Type 0
  Unmoved w fault = Unit
  Unmoved w (ok (status, w')) = unread file w' ≡ unread file w

  pub round-Unmoved :
      (buffer : Bytes) (k n : ℕ) (w₀ w : World) (next : ℕ → World → Exec (Status × World))
      → unread file w ≡ unread file w₀
      → ((j : ℕ) (w' : World) → unread file w' ≡ unread file w₀ → Unmoved w₀ (next j w'))
      → Unmoved w₀ (
          slice buffer k n >>= λ chunk. elim (send fd chunk w).0 [
            | none ↦ ok (fail, (send fd chunk w).1)
            | some m ↦ next (k + m) ((send fd chunk w).1)
          ])
  round-Unmoved buffer k n w₀ w next e go_on = elim (Exec-cases (slice buffer k n)) [
    | inl f ↦ rw f tt
    | inr (chunk, c) ↦
        let same : unread file (send fd chunk w).1 ≡ unread file w₀ =
          send-unread fd chunk file w ∙ e in
        elim (Option-cases (send fd chunk w).0) [
          | inl s ↦ rw (c, s) same
          | inr (m, s) ↦ rw (c, s) (go_on (k + m) (send fd chunk w).1 same)
        ]
  ]

  pub send_chunks-Unmoved :
      (fuel : ℕ) (buffer : Bytes) (k : ℕ) (n : ℤ) (w₀ w : World)
      → unread file w ≡ unread file w₀
      → Unmoved w₀ (send_chunks net fuel fd buffer k n w)
  unfolding send_chunks
  send_chunks-Unmoved zero buffer k n w₀ w e = tt
  send_chunks-Unmoved (suc fuel) buffer k n w₀ w e = elim (Bool-cases (ltb_ℤ (pos k) n)) [
    | inr high ↦ rw high e
    | inl low ↦
        let passed =
          round-Unmoved buffer k (pos_part n - k) w₀ (peek fd w).1
            (λ j w'. send_chunks net fuel fd buffer j n w') (peek-unread fd file w ∙ e)
            (λ j w' same. send_chunks-Unmoved fuel buffer j n w₀ w' same) in
        elim (Option-cases (peek fd w).0) [
          | inr (zero, p) ↦ rw (low, p) (peek-unread fd file w ∙ e)
          | inr (suc m, p) ↦ rw (low, p) passed
          | inl p ↦ rw (low, p) passed
        ]
  ]

  pub try_send-Unmoved :
      (buffer : Bytes) (n : ℤ) (w : World) → Unmoved w (try_send_in_chunks net fd buffer n w)
  unfolding try_send_in_chunks
  try_send-Unmoved buffer n w = rw there (send_chunks-Unmoved _ buffer 0 n w w refl)
