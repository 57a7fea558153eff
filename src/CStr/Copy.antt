-- ===== src/CStr/Copy.antt =====
-- What the stores and copies leave in a buffer that is given in parts.
use http_exercise.Base.{
  ℕ, zero, suc, ◌≤◌, ◌<◌, ◌≡◌, refl, ap, [], ◌∷◌, ◌++◌, arith, length, drop, drop-length-append,
  length-drop, ◌∙◌, length-append, ◌-◌, replicate, length-replicate, lt→ltb, le→ltb,
}
use http_exercise.CStr.{Bytes, store, copied, overwrite, strncpy}
use mathlib.Core.List.{append_assoc}
use http_exercise.Exec.{ok, fault}
use http_exercise.CStr.Scan.{Lacks}

pub store-append :
    (pre rest : Bytes) (v w : ℕ) → store (pre ++ v ∷ rest) (length pre) w ≡ ok (pre ++ w ∷ rest)
unfolding store
store-append [] rest v w = refl
store-append (x ∷ pre) rest v w = ground (arith, store-append pre rest v w)

-- `n` bytes with no NUL among them are copied as they are.
pub copied-exact : (xs rest : Bytes) → Lacks 0 xs → copied (length xs) (xs ++ rest) ≡ ok xs
unfolding copied
copied-exact [] rest h = refl
copied-exact (x ∷ xs) rest h = ground (arith, copied-exact xs rest h.1)

-- A NUL ends the copy, and NULs fill up the rest.
pub copied-padded :
    (n : ℕ) (xs rest : Bytes)
    → Lacks 0 xs
    → length xs < n
    → copied n (xs ++ 0 ∷ rest) ≡ ok (xs ++ 0 ∷ replicate (n - length xs - 1) 0)
unfolding copied
copied-padded zero xs rest z h = absurd (omega arith)
copied-padded (suc n) [] rest z h = ap (λ k. ok (0 ∷ replicate k 0)) (omega arith)
copied-padded (suc n) (x ∷ xs) rest z h =
    let same : suc n - suc (length xs) - 1 ≡ n - length xs - 1 = omega arith in
    rw same (ground (arith, copied-padded n xs rest z.1 (omega arith)))

pub overwrite-drop :
    (dst xs : Bytes) → length xs ≤ length dst → overwrite dst xs ≡ ok (xs ++ drop (length xs) dst)
unfolding overwrite
overwrite-drop [] [] h = refl
overwrite-drop (d ∷ dst) [] h = refl
overwrite-drop [] (x ∷ xs) h = absurd (omega arith)
overwrite-drop (d ∷ dst) (x ∷ xs) h =
    let h' : length xs ≤ length dst = omega arith in rw (overwrite-drop dst xs h')

-- `strncpy` of exactly the bytes `xs`: no NUL is written.
pub strncpy_exact :
    (dst pre xs rest : Bytes)
    → Lacks 0 xs
    → length xs ≤ length dst
    → strncpy dst (pre ++ (xs ++ rest)) (length pre) (length xs) ≡ ok (xs ++ drop (length xs) dst)
unfolding strncpy
strncpy_exact dst pre xs rest z h = rw (
  le→ltb (length dst) (length xs) h,
  drop-length-append pre (xs ++ rest),
  copied-exact xs rest z,
  overwrite-drop dst xs h,
)

-- `strncpy` of a string that is shorter than `n`: the rest of the `n` bytes is NULs.
pub strncpy_padded :
    (dst pre xs rest : Bytes) (n : ℕ)
    → Lacks 0 xs
    → length xs < n
    → n ≤ length dst
    → strncpy dst (pre ++ (xs ++ 0 ∷ rest)) (length pre) n
      ≡ ok (xs ++ 0 ∷ (replicate (n - length xs - 1) 0 ++ drop n dst))
unfolding strncpy
strncpy_padded dst pre xs rest n z h k = rw (
  le→ltb (length dst) n k,
  drop-length-append pre (xs ++ 0 ∷ rest),
  copied-padded n xs rest z h,
  overwrite-drop dst filled (omega (arith, full)),
  full,
  append_assoc xs (0 ∷ replicate (n - length xs - 1) 0) (drop n dst),
)
  where
    filled : Bytes
    filled = xs ++ 0 ∷ replicate (n - length xs - 1) 0

    full : length filled ≡ n
    full = omega (
      arith,
      length-append xs (0 ∷ replicate (n - length xs - 1) 0),
      length-replicate {A = ℕ} (n - length xs - 1) 0,
    )

-- More bytes than the destination has.
pub strncpy_overflow : (dst src : Bytes) (j n : ℕ) → length dst < n → strncpy dst src j n ≡ fault
unfolding strncpy
strncpy_overflow dst src j n h = rw (lt→ltb (length dst) n h)

-- a string over the start of a buffer
abbrev pub over : Bytes → Bytes → Bytes
over text buffer = text ++ 0 ∷ drop (suc (length text)) buffer

pub overwrite-over :
    (buffer text : Bytes)
    → length text < length buffer
    → overwrite buffer (text ++ 0 ∷ []) ≡ ok (over text buffer)
overwrite-over buffer text h =
    overwrite-drop buffer (text ++ 0 ∷ []) (omega (arith, length-append text (0 ∷ [])))
    ∙ rw (size, append_assoc text (0 ∷ [])) refl
  where
    size : length (text ++ 0 ∷ []) ≡ suc (length text)
    size = omega (arith, length-append text (0 ∷ []))

pub length-over :
    (buffer text : Bytes) → length text < length buffer → length (over text buffer) ≡ length buffer
length-over buffer text h = omega (
  arith,
  length-append text (0 ∷ drop (suc (length text)) buffer),
  length-drop buffer (suc (length text)) h,
)
