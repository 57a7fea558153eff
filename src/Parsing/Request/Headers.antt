-- ===== src/Parsing/Request/Headers.antt =====
-- The header loop of `parse_request_string`: its fuel, its steps, and what a Host header does.
use http_exercise.Base.{
  none, ℕ, zero, suc, ◌+◌, ◌≡◌, refl, ap, ◌∙◌, ◌∷◌, ◌++◌, some, arith, inl, inr, Option-cases,
  length, sym, [], ◌<◌, length-append, drop-length-append,
}
use mathlib.Core.List.{append_assoc}
use http_exercise.Exec.{Exec, ok, fault, ◌>>=◌, Exec-cases}
use http_exercise.CStr.{Bytes, strchr, starts_with_case_insensitive}
use http_exercise.Parsing.{matches_command_case_insensitive}
use http_exercise.CStr.Scan.{Lacks, strchr-found, strchr-none, strchr_bounds, strchr_beyond}
use http_exercise.Parsing.Request.{Fields, parse_header, parse_headers}

pub headers_step :
    (f : ℕ) (buf : Bytes) (a b : ℕ) (fields : Fields)
    → strchr buf a b'\n' ≡ ok (some b)
    → parse_headers (suc f) buf a fields
      ≡ (parse_header buf a b fields >>= λ read. parse_headers f buf (b + 1) read)
unfolding parse_headers
headers_step f buf a b fields e = rw (e, parse_headers)

-- What the loop over the headers does, round by round and with no fuel: it ends where no line is
-- left, or with undefined behaviour in the search for the next line or in a header.
pub data HeaderRounds (buf : Bytes) : ℕ → Fields → Exec Fields → Type 0 where
  no_line :
      {a : ℕ} {fields : Fields}
      → strchr buf a b'\n' ≡ ok none
      → HeaderRounds buf a fields (ok fields)
  bad_search :
      {a : ℕ} {fields : Fields} → strchr buf a b'\n' ≡ fault → HeaderRounds buf a fields fault
  bad_header :
      {a b : ℕ} {fields : Fields}
      → strchr buf a b'\n' ≡ ok (some b)
      → parse_header buf a b fields ≡ fault
      → HeaderRounds buf a fields fault
  next_line :
      {a b : ℕ} {fields read : Fields} {end : Exec Fields}
      → strchr buf a b'\n' ≡ ok (some b)
      → parse_header buf a b fields ≡ ok read
      → HeaderRounds buf (b + 1) read end
      → HeaderRounds buf a fields end

-- The loop over the headers ends, after as many rounds as there are lines: with fuel for each byte
-- from `divider_a` on, `parse_headers` returns what the rounds without fuel come to, and faults
-- only where a round does.
pub parse_headers-HeaderRounds :
    (f : ℕ) (buf : Bytes) (a : ℕ) (fields : Fields)
    → length buf < f + a
    → HeaderRounds buf a fields (parse_headers f buf a fields)
unfolding parse_headers
parse_headers-HeaderRounds zero buf a fields h =
    bad_search (strchr_beyond buf a b'\n' (omega arith))
parse_headers-HeaderRounds (suc f) buf a fields h = elim (Exec-cases (strchr buf a b'\n')) [
  | inl e ↦ rw (e, parse_headers) (bad_search e)
  | inr (found, e) ↦ elim (Option-cases found) [
    | inl n ↦ rw (e, n, parse_headers) (no_line (e ∙ ap ok n))
    | inr (b, s) ↦
        let at_b : strchr buf a b'\n' ≡ ok (some b) = e ∙ ap ok s in
        rw (headers_step f buf a b fields at_b) (elim (Exec-cases (parse_header buf a b fields)) [
          | inl bad ↦ rw bad (bad_header at_b bad)
          | inr (read, good) ↦ rw good (
              next_line at_b good (
                parse_headers-HeaderRounds f buf (b + 1) read
                  (omega (arith, strchr_bounds buf a b'\n' b at_b))))
        ])
  ]
]

-- The request ends behind its last complete line.
pub parse_headers_end :
    (f : ℕ) (pre partial rest : Bytes) (fields : Fields)
    → Lacks b'\n' partial
    → Lacks 0 partial
    → parse_headers (suc f) (pre ++ (partial ++ 0 ∷ rest)) (length pre) fields ≡ ok fields
unfolding parse_headers
parse_headers_end f pre partial rest fields n z =
    rw (strchr-none b'\n' pre partial rest (omega arith) n z)

blank_header :
    (pre rest : Bytes) (fields : Fields)
    → parse_header (pre ++ b'\r' ∷ b'\n' ∷ 0 ∷ rest) (length pre) (length pre + 1) fields
      ≡ ok fields
unfolding parse_header matches_command_case_insensitive starts_with_case_insensitive
blank_header pre rest fields = rw (drop-length-append pre (b'\r' ∷ b'\n' ∷ 0 ∷ rest)) refl

-- The empty line at the end of a request changes nothing.
pub parse_headers_blank :
    (f : ℕ) (pre rest : Bytes) (fields : Fields)
    → 0 < f
    → parse_headers (suc f) (pre ++ b'\r' ∷ b'\n' ∷ 0 ∷ rest) (length pre) fields ≡ ok fields
parse_headers_blank zero pre rest fields h = absurd (omega arith)
parse_headers_blank (suc g) pre rest fields h =
    headers_step (suc g) (pre ++ b'\r' ∷ b'\n' ∷ 0 ∷ rest) (length pre) (length pre + 1) fields
      (strchr-found b'\n' pre (b'\r' ∷ []) (0 ∷ rest) (omega arith) (omega arith))
    ∙ rw (blank_header pre rest fields) (
        ap (λ a. parse_headers (suc g) (pre ++ b'\r' ∷ b'\n' ∷ 0 ∷ rest) a fields) next
        ∙ ap (λ l. parse_headers (suc g) l (length (pre ++ b'\r' ∷ b'\n' ∷ [])) fields)
            (sym (append_assoc pre (b'\r' ∷ b'\n' ∷ []) (0 ∷ rest)))
        ∙ parse_headers_end g (pre ++ b'\r' ∷ b'\n' ∷ []) [] rest fields tt tt)
  where
    next : length pre + 1 + 1 ≡ length (pre ++ b'\r' ∷ b'\n' ∷ [])
    next = omega (arith, length-append pre (b'\r' ∷ b'\n' ∷ []))
