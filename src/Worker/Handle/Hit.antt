-- ===== src/Worker/Handle/Hit.antt =====
-- A cache hit: what the client gets.
use mathlib.Core.List.{append_assoc, append-nil}
use http_exercise.Base.{
  ℕ, zero, suc, ◌+◌, ◌≤◌, ◌<◌, ◌≡◌, refl, sym, ap, ◌∙◌, false, [], ◌∷◌, ◌++◌, ◌⊎◌, inl, inr, Option,
  some, arith, Bool-cases, ◌==◌, length, take, length-append, length-take-le, take_append-le,
  take-add_length, take-drop, take_all,
}
use http_exercise.Base.Int.{ℤ, pos}
use http_exercise.Exec.{Exec, ok}
use http_exercise.Constants.{Status, success, fail, job_request_buffer_size}
use http_exercise.CStr.{Bytes}
use http_exercise.Net.{Net}
use http_exercise.Resolver.{Resolver}
use http_exercise.Outside.{Outside}
use http_exercise.Worker.Send.{no_socket}
use http_exercise.Worker.Send.Sent.{try_send_in_chunks_lem}
use http_exercise.Worker.Handle.{send_file}
use http_exercise.Worker.Handle.Unmoved.{nil_of_length, nonzero, ended_buffer, try_send-Unmoved}

module _ {names : Resolver} (net : Net) (outside : Outside names net) (junk : ℕ → Bytes)
    (thread_id : ℤ) (fd : ℤ) (there : no_socket fd ≡ false) (file : net.File) where
  open net use {World, peek, send, sent}
  open outside use {fread, unread, fread-bytes, fread-unread, fread-sent}

  -- The loop has ended. The client has got the first `count` of the bytes that were left to read.
  pub record Served (bytes : Bytes) (before : Bytes) (run : Exec (Option (Status × World)))
      : Type 0 where
    pub result : Status
    pub after : World
    pub count : ℕ
    pub returns : run ≡ ok (some (result, after))
    pub gone : sent fd after ≡ before ++ take count bytes
    pub whole : (result ≡ success) × (count ≡ length bytes) ⊎ (result ≡ fail)

  chunk-length :
      (w : World) → length (fread file job_request_buffer_size w).0 ≤ job_request_buffer_size
  chunk-length w =
      rw (fread-bytes file job_request_buffer_size w)
        (length-take-le job_request_buffer_size (unread file w))

  fread-split :
      (w : World)
      → let r = fread file job_request_buffer_size w in unread file w ≡ r.0 ++ unread file r.1
  fread-split w =
      rw (fread-bytes file job_request_buffer_size w, fread-unread file job_request_buffer_size w)
        (sym (take-drop job_request_buffer_size (unread file w)))

  fread-end : (w : World) → (fread file job_request_buffer_size w).0 ≡ [] → unread file w ≡ []
  fread-end w e =
      elim (unread file w) as (λ l. take job_request_buffer_size l ≡ [] → l ≡ []) [
        | [] ↦ λ z. refl
        | x ∷ xs ↦ λ z. absurd (ground (arith, z))
      ]
        (sym (fread-bytes file job_request_buffer_size w) ∙ e)

  -- one chunk, and then what is left of the file
  chunk_on :
      (w after : World) (chunk : Bytes) {run : Exec (Option (Status × World))}
      → unread file w ≡ chunk ++ unread file after
      → sent fd after ≡ sent fd w ++ chunk
      → Served (unread file after) (sent fd after) run
      → Served (unread file w) (sent fd w) run
  chunk_on w after chunk e out r = record {
    result = r.result;
    after = r.after;
    count = length chunk + r.count;
    returns = r.returns;
    gone =
        r.gone
        ∙ ap (λ l. l ++ take r.count (unread file after)) out
        ∙ append_assoc (sent fd w) chunk (take r.count (unread file after))
        ∙ ap (λ l. sent fd w ++ l)
            (sym (take-add_length chunk (unread file after) r.count)
              ∙ ap (take (length chunk + r.count)) (sym e));
    whole = elim r.whole [
      | inl both ↦
          inl (both.0, omega (arith, both.1, ap length e, length-append chunk (unread file after)))
      | inr f ↦ inr f
    ];
  }

  -- To a client with a socket, with fuel for each byte of the file: the loop of a cache hit ends. The
  -- client has got the bytes of the file that were left to read, in order and none twice, all of
  -- them if the loop returns SUCCESS, and the first of them if it returns FAIL.
  pub send_file_lem :
      (fuel : ℕ) (buffer : Bytes) (w : World)
      → length buffer ≡ job_request_buffer_size + 1
      → length (unread file w) < fuel
      → Served
          (unread file w)
          (sent fd w)
          (send_file net outside junk thread_id fuel fd file buffer w)
  unfolding send_file
  send_file_lem zero buffer w size enough = absurd (omega arith)
  send_file_lem (suc fuel) buffer w size enough =
      let chunk = (fread file job_request_buffer_size w).0 in
      let w₁ = (fread file job_request_buffer_size w).1 in
      let small = chunk-length w in
      let (rest, o, st, len) = ended_buffer buffer chunk (omega (arith, size, small)) in
      elim (Bool-cases (length chunk == 0)) [
        | inl stop ↦
            let empty : unread file w ≡ [] = fread-end w (nil_of_length chunk stop) in
            rw (o, st, stop)
              (record {
                result = success;
                after = w₁;
                count = 0;
                returns = refl;
                gone = fread-sent file job_request_buffer_size fd w ∙ sym (append-nil (sent fd w));
                whole = inl (refl, sym (ap length empty));
              })
        | inr more ↦
            let ended = chunk ++ 0 ∷ rest in
            let sending =
              try_send_in_chunks_lem net fd ended (length chunk)
                (omega (arith, length-append chunk (0 ∷ rest))) w₁ there in
            let still : unread file sending.after ≡ unread file w₁ = rw sending.returns at (
              try_send-Unmoved net outside junk thread_id fd there file ended (pos (length chunk))
                w₁) in
            let split : unread file w ≡ chunk ++ unread file sending.after =
              fread-split w ∙ ap (λ l. chunk ++ l) (sym still) in
            let out : sent fd sending.after ≡ sent fd w ++ take sending.count chunk =
              sending.gone
              ∙ ap (λ l. l ++ take sending.count ended)
                  (fread-sent file job_request_buffer_size fd w)
              ∙ ap (λ l. sent fd w ++ l)
                  (take_append-le sending.count chunk (0 ∷ rest) sending.bound) in
            elim sending.whole [
              | inl good ↦
                  rw (o, st, more, sending.returns, good.0)
                    (chunk_on w sending.after chunk split
                      (out
                        ∙ ap (λ k. sent fd w ++ take k chunk) good.1
                        ∙ ap (λ l. sent fd w ++ l) (take_all chunk))
                      (send_file_lem fuel ended sending.after (len ∙ size) (
                        omega (
                          arith,
                          enough,
                          ap length split,
                          length-append chunk (unread file sending.after),
                          nonzero chunk more,
                        ))))
              | inr bad ↦
                  rw (o, st, more, sending.returns, bad)
                    (record {
                      result = fail;
                      after = sending.after;
                      count = sending.count;
                      returns = refl;
                      gone =
                          out
                          ∙ ap (λ l. sent fd w ++ l)
                              (sym (
                                  take_append-le sending.count chunk (unread file sending.after)
                                    sending.bound)
                                ∙ ap (take sending.count) (sym split));
                      whole = inr refl;
                    })
            ]
      ]
