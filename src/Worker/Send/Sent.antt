-- ===== src/Worker/Send/Sent.antt =====
-- What `try_send_in_chunks` and `cache_and_send` have sent when they return.
use mathlib.Core.List.{append_assoc, append-nil}
use http_exercise.Base.{
  ℕ, zero, suc, ◌+◌, ◌-◌, ◌≤◌, ◌<◌, ◌≡◌, ◌≢◌, refl, sym, ap, ◌∙◌, true, false, [], ◌++◌, none, some,
  arith, ◌⊎◌, inl, inr, Option-cases, leb, lt→ltb, le→ltb, length, take, drop, take-add,
  length-take, length-drop,
}
use native.Mathlib.Decide.{dec_lt}
use http_exercise.Base.Int.{ℤ, pos}
use http_exercise.Exec.{Exec, ok, ◌>>=◌}
use http_exercise.Constants.{Status, success, fail}
use http_exercise.CStr.{Bytes}
use http_exercise.Net.{Net}
use http_exercise.Worker.Send.{
  slice, no_socket, send_chunks, try_send_in_chunks, cache_file_write, cache_and_send,
}

pub slice_lem :
    (buffer : Bytes) (i n : ℕ)
    → i + n ≤ length buffer
    → slice buffer i n ≡ ok (take n (drop i buffer))
unfolding slice
slice_lem buffer i n h =
    let fits : leb (i + n) (length buffer) ≡ true = ground arith in rw fits refl

module _ (net : Net) (fd : ℤ) (buffer : Bytes) (n : ℕ) (fits : n ≤ length buffer) where
  open net use {
    World, File, peek, send, fwrite, sent, written, peek-sent, peek-written, send-written,
    send_none, send_some, fwrite-written, fwrite-sent, received, peek-received, send-received,
    fwrite-received,
  }

  -- No file has changed, and nothing has been received.
  abbrev pub Kept : World → World → Type 0
  Kept w w₁ = ((f : File) → written f w₁ ≡ written f w) × ((s : ℤ) → received s w₁ ≡ received s w)

  -- A run that began with the world `w` has returned, after it sent the first `count` bytes; `n` of
  -- them if it succeeded.
  pub record Sends (w : World) (run : Exec (Status × World)) : Type 0 where
    pub result : Status
    pub after : World
    pub count : ℕ
    pub returns : run ≡ ok (result, after)
    pub bound : count ≤ n
    pub gone : sent fd after ≡ sent fd w ++ take count buffer
    pub whole : (result ≡ success) × (count ≡ n) ⊎ (result ≡ fail)
    pub files : Kept w after

  -- what a round of the loop does behind its peek, with `next` for the rounds after it
  abbrev round : ℕ → World → (ℕ → World → Exec (Status × World)) → Exec (Status × World)
  round k w next = do
    chunk ← slice buffer k (n - k)
    elim (send fd chunk w).0 [
      | none ↦ ok (fail, (send fd chunk w).1)
      | some m ↦ next (k + m) ((send fd chunk w).1)
    ]

  round_lem :
      (k : ℕ) (w w₁ : World) (next : ℕ → World → Exec (Status × World))
      → k < n
      → sent fd w₁ ≡ sent fd w ++ take k buffer
      → Kept w w₁
      → ((j : ℕ) (w₂ : World)
          → k < j
          → j ≤ n
          → sent fd w₂ ≡ sent fd w ++ take j buffer
          → Kept w w₂
          → Sends w (next j w₂))
      → Sends w (round k w₁ next)
  round_lem k w w₁ next h e same goes_on =
      rw (slice_lem buffer k (n - k) (omega arith)) (elim (Option-cases ((send fd chunk w₁).0)) [
        | inl s ↦ rw s (record {
          result = fail;
          after = (send fd chunk w₁).1;
          count = k;
          returns = refl;
          bound = omega arith;
          gone = send_none fd chunk w₁ s ∙ e;
          whole = inr refl;
          files = kept;
        })
        | inr (m, s) ↦
            let (more, less, out) = send_some fd chunk w₁ nonempty s in
            rw s (
              goes_on (k + m) ((send fd chunk w₁).1) (omega arith) (omega (arith, chunk-length))
                (out
                  ∙ ap (λ l. l ++ take m chunk) e
                  ∙ append_assoc (sent fd w) (take k buffer) (take m chunk)
                  ∙ ap (λ l. sent fd w ++ l)
                      (take-add k m (n - k) buffer (omega (arith, chunk-length))))
                kept)
      ])
    where
      chunk : Bytes
      chunk = take (n - k) (drop k buffer)

      chunk-length : length chunk ≡ n - k
      chunk-length =
          length-take (n - k) (drop k buffer) (omega (arith, length-drop buffer k (omega arith)))

      kept : Kept w ((send fd chunk w₁).1)
      kept =
          (λ f. send-written fd chunk f w₁ ∙ same.0 f, λ s. send-received fd chunk s w₁ ∙ same.1 s)

      nonempty : chunk ≢ []
      nonempty z = omega (arith, chunk-length, ap length z)

  peek-Kept : (w w₁ : World) → Kept w w₁ → Kept w ((peek fd w₁).1)
  peek-Kept w w₁ same =
      (λ f. peek-written fd f w₁ ∙ same.0 f, λ s. peek-received fd s w₁ ∙ same.1 s)

  send_chunks_lem :
      (fuel k : ℕ) (w w₁ : World)
      → k ≤ n
      → n < k + fuel
      → sent fd w₁ ≡ sent fd w ++ take k buffer
      → Kept w w₁
      → Sends w (send_chunks net fuel fd buffer k (pos n) w₁)
  unfolding send_chunks
  send_chunks_lem zero k w w₁ h enough e same = absurd (omega arith)
  send_chunks_lem (suc fuel) k w w₁ h enough e same = elim (dec_lt k n) [
    | no high ↦ rw (le→ltb (k + 0) (n + 0) (omega arith)) (record {
      result = success;
      after = w₁;
      count = k;
      returns = refl;
      bound = h;
      gone = e;
      whole = inl (refl, omega arith);
      files = same;
    })
    | yes low ↦
        let rest : Sends w
            (round k ((peek fd w₁).1) (λ j w₂. send_chunks net fuel fd buffer j (pos n) w₂)) =
          round_lem k w ((peek fd w₁).1) (λ j w₂. send_chunks net fuel fd buffer j (pos n) w₂) low
            (peek-sent fd w₁ ∙ e) (peek-Kept w w₁ same)
            (λ j w₂ a b c d. send_chunks_lem fuel j w w₂ b (omega arith) c d) in
        elim (Option-cases ((peek fd w₁).0)) [
          | inl p ↦ rw (lt→ltb (k + 0) (n + 0) (omega arith), p) rest
          | inr (zero, p) ↦
              rw (lt→ltb (k + 0) (n + 0) (omega arith), p)
                (record {
                  result = fail;
                  after = (peek fd w₁).1;
                  count = k;
                  returns = refl;
                  bound = h;
                  gone = peek-sent fd w₁ ∙ e;
                  whole = inr refl;
                  files = peek-Kept w w₁ same;
                })
          | inr (suc m, p) ↦ rw (lt→ltb (k + 0) (n + 0) (omega arith), p) rest
        ]
  ]

  -- For a socket, and a length within the buffer, `try_send_in_chunks` returns however the system
  -- splits what is sent. It has sent the first bytes of the buffer, in order and none twice: all of
  -- `length` if it returns SUCCESS. Else it returns FAIL. No file
  -- has changed, and nothing has been received.
  pub try_send_in_chunks_lem :
      (w : World) → no_socket fd ≡ false → Sends w (try_send_in_chunks net fd buffer (pos n) w)
  unfolding try_send_in_chunks
  try_send_in_chunks_lem w s = rw s (
      send_chunks_lem (suc n) 0 w w (omega arith) (omega arith) (sym (append-nil (sent fd w)))
        (λ f. refl, λ s. refl))

  -- For a socket, a cache file and a received chunk within the buffer, `cache_and_send` returns: the
  -- file has got the whole chunk, whatever becomes of the client, and the client the chunk, or its
  -- first bytes if the call fails. It receives nothing.
  pub cache_and_send_lem :
      (w : World) (file : File)
      → no_socket fd ≡ false
      → (result : Status) × (after : World) × (count : ℕ) × (cache_and_send net fd
            (some file)
            buffer
            (pos n)
            w
          ≡ ok (result, after))
        × (written file after ≡ written file w ++ take n buffer)
        × ((s : ℤ) → received s after ≡ received s w)
        × (count ≤ n)
        × (sent fd after ≡ sent fd w ++ take count buffer)
        × ((result ≡ success) × (count ≡ n) ⊎ (result ≡ fail))
  unfolding cache_and_send cache_file_write
  cache_and_send_lem w file s =
      let w₁ = fwrite file (take n buffer) w in
      let done = try_send_in_chunks_lem w₁ s in
      (
        done.result,
        done.after,
        done.count,
        rw (slice_lem buffer 0 n (omega arith)) done.returns,
        done.files.0 file ∙ fwrite-written file (take n buffer) w,
        λ s. done.files.1 s ∙ fwrite-received file (take n buffer) s w,
        done.bound,
        done.gone ∙ ap (λ l. l ++ take done.count buffer) (fwrite-sent file (take n buffer) fd w),
        done.whole,
      )
