-- ===== src/Worker/Process/Refused.antt =====
-- What a client gets whose request is refused.
use mathlib.Core.List.{append_assoc, append-nil}
use http_exercise.Base.{
  ◌⊎◌, inl, inr, ℕ, suc, ◌+◌, ◌≤◌, ◌<◌, ◌≡◌, refl, sym, ap, ◌∙◌, Bool, true, false, List, [], ◌∷◌,
  ◌++◌, arith, length, length-append, length-drop, length-replicate, take, drop, take-length-append,
  drop-length-append, take_append-le,
}
use http_exercise.Base.Int.{ℤ, pos}
use http_exercise.Exec.{ok}
use http_exercise.Constants.{
  success, fail, Status, terminate, job_request_buffer_size, max_name_length,
}
use http_exercise.CStr.{Bytes}
use http_exercise.CStr.Scan.{Lacks, cstr-append}
use http_exercise.CStr.Copy.{overwrite-over}
use http_exercise.Job.{Job}
use http_exercise.Net.{Net}
use http_exercise.Resolver.{Resolver}
use http_exercise.UtHash.{UtHash}
use http_exercise.BlockTable.{TableElement}
use http_exercise.BlockTable.Laws.{blocks_name}
use http_exercise.Parsing.{dot_one}
use http_exercise.Parsing.Request.{Fields}
use http_exercise.Worker.{blocked}
use http_exercise.Worker.Resolve.{resolve_host}
use http_exercise.Worker.Resolve.Blocking.{resolve_host-name}
use http_exercise.Thread.{Thread, done}
use http_exercise.Worker.Send.{no_socket, copy_into_buffer, try_send_in_chunks}
use http_exercise.Worker.Send.Sent.{try_send_in_chunks_lem}
use http_exercise.Worker.Process.{
  version_line, refusal_line, closing_line, empty_response, add_line, answer_request,
}

-- A line goes behind what the buffer holds so far.
add_line_lem :
    (before left line : Bytes)
    → Lacks 0 line
    → length line < length left
    → (left' : Bytes) × (add_line (before ++ left) (length before) line
        ≡ ok ((before ++ line) ++ left', length (before ++ line)))
      × (length left' + length line ≡ length left)
unfolding add_line copy_into_buffer
add_line_lem before left [] z h =
    (left, ap (λ l. ok (l ++ left, length l)) (sym (append-nil before)), omega arith)
add_line_lem before left (c ∷ line) z h = (
  0 ∷ drop (suc (length (c ∷ line))) left,
  rw
      (
        cstr-append (c ∷ line) [] z,
        drop-length-append before left,
        overwrite-over left (c ∷ line) h,
        take-length-append before left,
        sym (append_assoc before (c ∷ line) (0 ∷ drop (suc (length (c ∷ line))) left)),
        length-append before (c ∷ line),
      )
      refl,
  omega (arith, length-drop left (suc (length (c ∷ line))) h),
)

empty_response-length : length empty_response ≡ job_request_buffer_size + 1
unfolding empty_response
empty_response-length = length-replicate {A = ℕ} (job_request_buffer_size + 1) 0

closing-Lacks : (k : Bool) → Lacks 0 (closing_line k) × (length (closing_line k) ≤ 30)
closing-Lacks true = (omega arith, omega arith)
closing-Lacks false = (tt, omega arith)

module _ (hash : UtHash TableElement) (names : Resolver) (net : Net)
    (handle : Job
      → List names.Address
      → Bytes
      → Bytes
      → net.World
      → Thread (Status × net.World)) where
  open hash use {Table}
  open net use {World, sent}

  -- the response to a request for a host that is blocked
  abbrev pub forbidden : Bool → Bytes
  forbidden keep_alive =
      (version_line dot_one ++ refusal_line true blocked) ++ closing_line keep_alive

  -- the three lines of the response, one behind the other
  forbidden_written :
      (keep : Bool)
      → (b₁ b₂ : Bytes × ℕ) × (left : Bytes) × (add_line empty_response 0 (version_line dot_one)
          ≡ ok b₁)
        × (add_line b₁.0 b₁.1 (refusal_line true blocked) ≡ ok b₂)
        × (add_line b₂.0 b₂.1 (closing_line keep)
            ≡ ok (forbidden keep ++ left, length (forbidden keep)))
  forbidden_written keep =
      let (l₁, e₁, n₁) =
        add_line_lem [] empty_response (version_line dot_one) (omega arith)
          (omega (arith, empty_response-length)) in
      let (l₂, e₂, n₂) =
        add_line_lem (version_line dot_one) l₁ (refusal_line true blocked) (omega arith)
          (omega (arith, n₁, empty_response-length)) in
      let (l₃, e₃, n₃) =
        add_line_lem (version_line dot_one ++ refusal_line true blocked) l₂ (closing_line keep)
          (closing-Lacks keep).0
          (omega (arith, n₁, n₂, (closing-Lacks keep).1, empty_response-length)) in
      (_, _, l₃, e₁, e₂, e₃)

  refusal_sent :
      (t : Table) (junk : Bytes) (job : Job) (fields : Fields) (w after : World) (result : Status)
      (b₁ b₂ b₃ : Bytes × ℕ)
      → fields.version ≡ dot_one
      → fields.is_get ≡ true
      → resolve_host hash names t junk fields.hostname ≡ ok (blocked, [])
      → add_line empty_response 0 (version_line dot_one) ≡ ok b₁
      → add_line b₁.0 b₁.1 (refusal_line true blocked) ≡ ok b₂
      → add_line b₂.0 b₂.1 (closing_line fields.proxy_keep_alive) ≡ ok b₃
      → try_send_in_chunks net job.client_socket_fd b₃.0 (pos b₃.1) w ≡ ok (result, after)
      → answer_request hash names net handle t junk job fields w ≡ ok (done (terminate, job, after))
  unfolding answer_request
  refusal_sent t junk job fields w after result b₁ b₂ b₃ v g found e₁ e₂ e₃ sends =
      rw (v, e₁, found, g, e₂, e₃, sends) refl

  found_blocked :
      (t : Table) (junk name rest : Bytes) (fields : Fields)
      → length junk ≡ max_name_length + 1
      → fields.hostname ≡ name ++ 0 ∷ rest
      → Lacks 0 name
      → Lacks b':' name
      → length name ≤ max_name_length
      → blocks_name hash t name ≡ true
      → resolve_host hash names t junk fields.hostname ≡ ok (blocked, [])
  found_blocked t junk name rest fields size host z colon fits b =
      rw host (resolve_host-name hash names t junk name rest size z colon fits ∙ ap ok (rw b refl))

  -- the send of a response has failed on the way
  abbrev pub SendFailed : ℤ → Bytes → World → World → Type 0
  SendFailed fd response w after =
      (left : Bytes) × (try_send_in_chunks net fd (response ++ left) (pos (length response)) w
        ≡ ok (fail, after))

  ended_sending :
      (fd : ℤ) (response left : Bytes) (w after : World) (result : Status) (count : ℕ)
      → try_send_in_chunks net fd (response ++ left) (pos (length response)) w ≡ ok (result, after)
      → (result ≡ success) × (count ≡ length response) ⊎ (result ≡ fail)
      → (count ≡ length response) ⊎ SendFailed fd response w after
  ended_sending fd response left w after result count runs (inl (e, all)) = inl all
  ended_sending fd response left w after result count runs (inr e) =
      inr (left, runs ∙ ap (λ r. ok (r, after)) e)

  -- A GET request of version 1.1 for a blocked name is answered with 403 and the end of the
  -- connection: the client gets that response, or its beginning if sending it fails. The job is over, and
  -- the request is not handled, whatever handling would do.
  pub answer_request-blocked :
      (t : Table) (junk name rest : Bytes) (job : Job) (fields : Fields) (w : World)
      → no_socket job.client_socket_fd ≡ false
      → length junk ≡ max_name_length + 1
      → fields.version ≡ dot_one
      → fields.is_get ≡ true
      → fields.hostname ≡ name ++ 0 ∷ rest
      → Lacks 0 name
      → Lacks b':' name
      → length name ≤ max_name_length
      → blocks_name hash t name ≡ true
      → (after : World) × (count : ℕ) × (answer_request hash names net handle t junk job fields w
          ≡ ok (done (terminate, job, after)))
        × ((count ≡ length (forbidden fields.proxy_keep_alive))
            ⊎ SendFailed job.client_socket_fd (forbidden fields.proxy_keep_alive) w after)
        × (count ≤ length (forbidden fields.proxy_keep_alive))
        × (sent job.client_socket_fd after
            ≡ sent job.client_socket_fd w ++ take count (forbidden fields.proxy_keep_alive))
  answer_request-blocked t junk name rest job fields w s size v g host z colon fits b =
      let (b₁, b₂, left, e₁, e₂, e₃) = forbidden_written fields.proxy_keep_alive in
      let response = forbidden fields.proxy_keep_alive in
      let sending =
        try_send_in_chunks_lem net job.client_socket_fd (response ++ left) (length response)
          (omega (arith, length-append response left)) w s in
      (
        sending.after,
        sending.count,
        refusal_sent t junk job fields w sending.after sending.result b₁ b₂
            (response ++ left, length response) v g
            (found_blocked t junk name rest fields size host z colon fits b) e₁ e₂ e₃
            sending.returns,
        ended_sending job.client_socket_fd response left w sending.after sending.result
            sending.count sending.returns sending.whole,
        sending.bound,
        sending.gone
            ∙ ap (λ l. sent job.client_socket_fd w ++ l)
                (take_append-le sending.count response left sending.bound),
      )
