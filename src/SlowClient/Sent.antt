-- ===== src/SlowClient/Sent.antt =====
-- What the slow client has sent when its request is written.
use mathlib.Core.List.{append_assoc, append-nil}
use http_exercise.Base.{
  ℕ, zero, suc, ◌+◌, ◌≤◌, ◌<◌, ◌≡◌, refl, sym, ap, ◌∙◌, List, [], ◌∷◌, ◌++◌, ◌⊎◌, inl, inr, arith,
  Option-cases, length, take, drop, length-append, length-drop, take_append-le, take-add_length,
  take-drop, take_all,
}
use http_exercise.Base.Int.{ℤ}
use http_exercise.Exec.{Exec, ok}
use http_exercise.CStr.{Bytes, codes}
use http_exercise.Net.{Net}
use http_exercise.Outside.{Outside}
use http_exercise.Resolver.{Resolver}
use http_exercise.SlowClient.{
  request_pieces, Ended, goes_on, fatal, write_loop, writestr, write_pieces,
}

-- the request in one text
abbrev pub request_text : Bytes → Bytes → Bytes
request_text path host =
    codes "GET "
    ++ (path ++ (codes " HTTP/1.1\r\nHost: " ++ (host ++ codes "\r\nConnection: Close\r\n\r\n")))

abbrev pub concat : List Bytes → Bytes
concat [] = []
concat (piece ∷ pieces) = piece ++ concat pieces

concat-request_pieces :
    (path host : Bytes) → concat (request_pieces path host) ≡ request_text path host
unfolding request_pieces
concat-request_pieces path host = refl

module _ {names : Resolver} (net : Net) (outside : Outside names net) (sock : ℤ) where
  open net use {World, send, sent, send_none, send_some}

  -- The run has ended. All of `bytes` has been sent if the program goes on, else a part from the front.
  pub record Wrote (bytes before : Bytes) (run : Exec (Ended net outside World)) : Type 0 where
    pub result : Ended net outside World
    pub after : World
    pub count : ℕ
    pub returns : run ≡ ok result
    pub gone : sent sock after ≡ before ++ take count bytes
    pub bound : count ≤ length bytes
    pub whole : (result ≡ goes_on after) × (count ≡ length bytes) ⊎ (result ≡ fatal after)

  -- some bytes have been sent, and the rest is as `run` has it
  piece_on :
      (done rest before mid : Bytes) {run : Exec (Ended net outside World)}
      → mid ≡ before ++ done
      → Wrote rest mid run
      → Wrote (done ++ rest) before run
  piece_on done rest before mid e r = record {
    result = r.result;
    after = r.after;
    count = length done + r.count;
    returns = r.returns;
    gone =
        r.gone
        ∙ ap (λ l. l ++ take r.count rest) e
        ∙ append_assoc before done (take r.count rest)
        ∙ ap (λ l. before ++ l) (sym (take-add_length done rest r.count));
    bound = omega (arith, r.bound, length-append done rest);
    whole = elim r.whole [
      | inl both ↦ inl (both.0, omega (arith, both.1, length-append done rest))
      | inr f ↦ inr f
    ];
  }

  write_loop_lem :
      (fuel : ℕ) (str : Bytes) (w : World)
      → length str < fuel
      → Wrote str (sent sock w) (write_loop net outside fuel sock str w)
  unfolding write_loop
  write_loop_lem zero str w h = absurd (omega arith)
  write_loop_lem (suc fuel) [] w h = record {
    result = goes_on w;
    after = w;
    count = 0;
    returns = refl;
    gone = sym (append-nil (sent sock w));
    bound = omega arith;
    whole = inl (refl, refl);
  }
  write_loop_lem (suc fuel) (c ∷ str) w h = elim (Option-cases (send sock (c ∷ str) w).0) [
    | inl e ↦
        rw (e, write_loop)
          (record {
            result = fatal (send sock (c ∷ str) w).1;
            after = (send sock (c ∷ str) w).1;
            count = 0;
            returns = refl;
            gone = send_none sock (c ∷ str) w e ∙ sym (append-nil (sent sock w));
            bound = omega arith;
            whole = inr refl;
          })
    | inr (n, e) ↦
        let (more, less, out) = send_some sock (c ∷ str) w (λ z. absurd (ground (arith, z))) e in
        let rest =
          write_loop_lem fuel (drop n (c ∷ str)) (send sock (c ∷ str) w).1
            (omega (arith, h, length-drop (c ∷ str) n less)) in
        rw (e, write_loop)
          (rw (take-drop n (c ∷ str)) at
            (piece_on (take n (c ∷ str)) (drop n (c ∷ str)) (sent sock w) _ out rest))
  ]

  writestr_lem :
      (str : Bytes) (w : World) → Wrote str (sent sock w) (writestr net outside sock str w)
  unfolding writestr
  writestr_lem str w = write_loop_lem (suc (length str)) str w (omega arith)

  write_pieces_lem :
      (pieces : List Bytes) (w : World)
      → Wrote (concat pieces) (sent sock w) (write_pieces net outside sock pieces w)
  unfolding write_pieces
  write_pieces_lem [] w = record {
    result = goes_on w;
    after = w;
    count = 0;
    returns = refl;
    gone = sym (append-nil (sent sock w));
    bound = omega arith;
    whole = inl (refl, refl);
  }
  write_pieces_lem (piece ∷ pieces) w =
      let first = writestr_lem piece w in
      elim first.whole [
        | inl good ↦
            rw (first.returns, good.0)
              (piece_on piece (concat pieces) (sent sock w) (sent sock first.after)
                (first.gone
                  ∙ ap (λ k. sent sock w ++ take k piece) good.1
                  ∙ ap (λ l. sent sock w ++ l) (take_all piece))
                (write_pieces_lem pieces first.after))
        | inr bad ↦
            rw (first.returns, bad)
              (record {
                result = fatal first.after;
                after = first.after;
                count = first.count;
                returns = refl;
                gone =
                    first.gone
                    ∙ ap (λ l. sent sock w ++ l)
                        (sym (take_append-le first.count piece (concat pieces) first.bound));
                bound = omega (arith, first.bound, length-append piece (concat pieces));
                whole = inr refl;
              })
      ]

  -- However the system splits what is written, the eight writes of the slow client return, and come
  -- to one write of the whole request: if the program goes on it has sent just that, and if it
  -- ends it has sent the first bytes of it.
  pub write_pieces-request :
      (path host : Bytes) (w : World)
      → Wrote
          (request_text path host)
          (sent sock w)
          (write_pieces net outside sock (request_pieces path host) w)
  write_pieces-request path host w =
      rw (concat-request_pieces path host) at (write_pieces_lem (request_pieces path host) w)
