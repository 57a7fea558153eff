-- ===== src/Parsing/Request/Host.antt =====
-- What a Host header does to the host name.
use mathlib.Core.List.{append_assoc}
use mathlib.Core.Path.{subst}
use http_exercise.Base.{
  ℕ, ◌+◌, ◌-◌, ◌^◌, ◌<◌, ◌≡◌, ◌≢◌, refl, sym, ap, ◌∙◌, [], ◌∷◌, ◌++◌, some, arith, length,
  length-append, drop, drop-length-append, drop-add-append,
}
use http_exercise.Exec.{ok, fault}
use http_exercise.Constants.{max_name_length}
use http_exercise.CStr.{
  Bytes, codes, strchr, strncpy, store, size_diff, starts_with_case_insensitive,
}
use http_exercise.CStr.Scan.{Lacks, strchr-found}
use http_exercise.CStr.Copy.{strncpy_exact, strncpy_overflow, store-append}
use http_exercise.Parsing.{matches_command_case_insensitive}
use http_exercise.Parsing.Request.{Fields, skip_spaces, capture_host, parse_header}

abbrev pub host_field : Bytes
host_field = codes "Host: "

module _ (pre tail : Bytes) where
  abbrev at_host : Bytes
  at_host = pre ++ (host_field ++ tail)

  parse_header-host :
      (b : ℕ) (fields : Fields)
      → parse_header at_host (length pre) b fields ≡ capture_host at_host (length pre) b fields
  unfolding parse_header matches_command_case_insensitive starts_with_case_insensitive
  parse_header-host b fields = rw (drop-length-append pre (host_field ++ tail))

  space_found : strchr at_host (length pre) b' ' ≡ ok (some (length pre + 5))
  space_found = strchr-found b' ' pre (codes "Host:") tail (omega arith) (omega arith)

  after_space : drop (length pre + 5) at_host ≡ b' ' ∷ tail
  after_space = drop-add-append pre (host_field ++ tail) 5

skip_one :
    (at c : ℕ) (w tail : Bytes)
    → Lacks b' ' (w ++ c ∷ [])
    → skip_spaces at (b' ' ∷ (w ++ c ∷ tail)) ≡ ok (at + 1)
unfolding skip_spaces
skip_one at c [] tail h = ground arith
skip_one at c (x ∷ w) tail h = ground arith

module _ (pre w rest : Bytes) (c : ℕ) (fields : Fields) where
  -- "Host: ", the value, CR and LF
  abbrev pub host_line : Bytes
  host_line = pre ++ (host_field ++ (w ++ c ∷ b'\r' ∷ b'\n' ∷ rest))

  capture_host_lem :
      (o₁ o₂ : Bytes) (x y b : ℕ)
      → Lacks b' ' (w ++ c ∷ [])
      → Lacks 0 w
      → fields.hostname ≡ o₁ ++ x ∷ y ∷ o₂
      → length o₁ ≡ length w
      → length w < 2 ^ 64
      → b ≡ length pre + 6 + length w + 2
      → capture_host host_line (length pre) b fields
        ≡ ok (record fields { hostname = w ++ x ∷ 0 ∷ o₂ })
  unfolding capture_host
  capture_host_lem o₁ o₂ x y b sp z old same small e = rw (
    space_found pre (w ++ c ∷ b'\r' ∷ b'\n' ∷ rest),
    after_space pre (w ++ c ∷ b'\r' ∷ b'\n' ∷ rest),
    skip_one (length pre + 5) c w (b'\r' ∷ b'\n' ∷ rest) sp,
    len,
    copied,
    index,
    stored,
  )
    where
      len : size_diff b (length pre + 5 + 1 + 2) ≡ length w
      len = omega arith

      index : b - (length pre + 5 + 1) - 1 ≡ length w + 1
      index = omega arith

      front : length (pre ++ host_field) ≡ length pre + 5 + 1
      front = omega (arith, length-append pre host_field)

      regroup : host_line ≡ (pre ++ host_field) ++ (w ++ c ∷ b'\r' ∷ b'\n' ∷ rest)
      regroup = sym (append_assoc pre host_field (w ++ c ∷ b'\r' ∷ b'\n' ∷ rest))

      kept : drop (length w) fields.hostname ≡ x ∷ y ∷ o₂
      kept = rw (old, ← same) (drop-length-append o₁ (x ∷ y ∷ o₂))

      copied :
          strncpy fields.hostname host_line (length pre + 5 + 1) (length w) ≡ ok (w ++ x ∷ y ∷ o₂)
      copied =
          rw (regroup, ← front)
            (strncpy_exact fields.hostname (pre ++ host_field) w (c ∷ b'\r' ∷ b'\n' ∷ rest) z
              (omega (arith, ap length old, length-append o₁ (x ∷ y ∷ o₂))))
          ∙ ap (λ l. ok (w ++ l)) kept

      next : length (w ++ x ∷ []) ≡ length w + 1
      next = omega (arith, length-append w (x ∷ []))

      stored : store (w ++ x ∷ y ∷ o₂) (length w + 1) 0 ≡ ok (w ++ x ∷ 0 ∷ o₂)
      stored =
          subst (λ k. store (w ++ x ∷ y ∷ o₂) k 0 ≡ ok (w ++ x ∷ 0 ∷ o₂)) next
            (rw (← append_assoc w (x ∷ []) (y ∷ o₂), ← append_assoc w (x ∷ []) (0 ∷ o₂))
              (store-append (w ++ x ∷ []) o₂ y 0))

  -- A Host header with the value `w` and a last byte `c` copies `w` over the start of the host name,
  -- leaves the next byte `x` as it was, and ends the name behind it: the last byte of the value is
  -- lost.
  pub host_header :
      (o₁ o₂ : Bytes) (x y : ℕ)
      → Lacks b' ' (w ++ c ∷ [])
      → Lacks 0 w
      → fields.hostname ≡ o₁ ++ x ∷ y ∷ o₂
      → length o₁ ≡ length w
      → length fields.hostname ≡ max_name_length + 1
      → parse_header host_line (length pre) (length pre + 6 + length w + 2) fields
        ≡ ok (record fields { hostname = w ++ x ∷ 0 ∷ o₂ })
  host_header o₁ o₂ x y sp z old same size =
      parse_header-host pre (w ++ c ∷ b'\r' ∷ b'\n' ∷ rest) _ fields
      ∙ capture_host_lem o₁ o₂ x y _ sp z old same
          (omega (arith, ap length old, length-append o₁ (x ∷ y ∷ o₂))) refl

-- A Host header with a single byte before its newline, such as the CR of an empty value: the length
-- wraps round to `2^64 - 1`, and the copy runs out of the host name.
pub host_header_short :
    (pre rest : Bytes) (c : ℕ) (fields : Fields)
    → c ≢ b' '
    → length pre < 2 ^ 63
    → length fields.hostname ≡ max_name_length + 1
    → parse_header (pre ++ (host_field ++ c ∷ b'\n' ∷ rest)) (length pre) (length pre + 7) fields
      ≡ fault
host_header_short pre rest c fields sp small size =
    parse_header-host pre (c ∷ b'\n' ∷ rest) _ fields ∙ captured
  where
    wrapped : size_diff (length pre + 7) (length pre + 5 + 1 + 2) ≡ 2 ^ 64 - 1
    wrapped = omega arith

    captured :
        capture_host (pre ++ (host_field ++ c ∷ b'\n' ∷ rest)) (length pre) (length pre + 7) fields
        ≡ fault
    captured =
        unfold capture_host in
        rw (
          space_found pre (c ∷ b'\n' ∷ rest),
          after_space pre (c ∷ b'\n' ∷ rest),
          skip_one (length pre + 5) c [] (b'\n' ∷ rest) (sp, tt),
          wrapped,
          strncpy_overflow fields.hostname (pre ++ (host_field ++ c ∷ b'\n' ∷ rest))
              (length pre + 5 + 1) (2 ^ 64 - 1) (omega arith),
        )
