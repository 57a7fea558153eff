-- ===== src/CStr/Scan.antt =====
-- What `strchr`, `strrchr` and the comparisons return over a buffer that is given in parts.
use http_exercise.Base.{
  ℕ, ◌+◌, ◌≡◌, ◌≢◌, refl, ap, ◌∙◌, true, [], ◌∷◌, ◌++◌, Option, none, some, arith, length, drop,
  drop-length-append, length-drop, drop_of_length-le, ◌≤◌, ◌<◌,
}
use native.Mathlib.Decide.{dec_le}
use http_exercise.CStr.{
  Bytes, load, scan, strchr, rscan, cstr, starts_with, starts_with_case_insensitive,
}
use http_exercise.Exec.{ok, fault}

-- no byte of the list is `c`
abbrev pub Lacks : ℕ → Bytes → Type 0
Lacks c [] = Unit
Lacks c (x ∷ xs) = (x ≢ c) × Lacks c xs

pub Lacks-append : (c : ℕ) (xs ys : Bytes) → Lacks c xs → Lacks c ys → Lacks c (xs ++ ys)
Lacks-append c [] ys h k = k
Lacks-append c (x ∷ xs) ys h k = (h.0, Lacks-append c xs ys h.1 k)

pub scan-found :
    (c at : ℕ) (xs rest : Bytes)
    → Lacks c xs
    → Lacks 0 xs
    → scan c at (xs ++ c ∷ rest) ≡ ok (some (at + length xs))
unfolding scan
scan-found c at [] rest h z = ground arith
scan-found c at (x ∷ xs) rest h z = ground (arith, scan-found c (at + 1) xs rest h.1 z.1)

pub scan-none :
    (c at : ℕ) (xs rest : Bytes)
    → c ≢ 0
    → Lacks c xs
    → Lacks 0 xs
    → scan c at (xs ++ 0 ∷ rest) ≡ ok none
unfolding scan
scan-none c at [] rest n h z = ground arith
scan-none c at (x ∷ xs) rest n h z = ground (arith, scan-none c (at + 1) xs rest n h.1 z.1)

-- The first `c` at or after the offset behind `pre`.
pub strchr-found :
    (c : ℕ) (pre xs rest : Bytes)
    → Lacks c xs
    → Lacks 0 xs
    → strchr (pre ++ (xs ++ c ∷ rest)) (length pre) c ≡ ok (some (length pre + length xs))
unfolding strchr
strchr-found c pre xs rest h z =
    ap (scan c (length pre)) (drop-length-append pre (xs ++ c ∷ rest))
    ∙ scan-found c (length pre) xs rest h z

pub strchr-none :
    (c : ℕ) (pre xs rest : Bytes)
    → c ≢ 0
    → Lacks c xs
    → Lacks 0 xs
    → strchr (pre ++ (xs ++ 0 ∷ rest)) (length pre) c ≡ ok none
unfolding strchr
strchr-none c pre xs rest n h z =
    ap (scan c (length pre)) (drop-length-append pre (xs ++ 0 ∷ rest))
    ∙ scan-none c (length pre) xs rest n h z

pub rscan_stays :
    (c at : ℕ) (last : Option ℕ) (xs rest : Bytes)
    → c ≢ 0
    → Lacks c xs
    → Lacks 0 xs
    → rscan c at last (xs ++ 0 ∷ rest) ≡ ok last
unfolding rscan
rscan_stays c at last [] rest n h z = ground arith
rscan_stays c at last (x ∷ xs) rest n h z =
    ground (arith, rscan_stays c (at + 1) last xs rest n h.1 z.1)

pub rscan-found :
    (c at : ℕ) (last : Option ℕ) (xs ys rest : Bytes)
    → c ≢ 0
    → Lacks 0 xs
    → Lacks c ys
    → Lacks 0 ys
    → rscan c at last (xs ++ c ∷ (ys ++ 0 ∷ rest)) ≡ ok (some (at + length xs))
unfolding rscan
rscan-found c at last [] ys rest n z h k =
    ground (arith, rscan_stays c (at + 1) (some at) ys rest n h k)
rscan-found c at last (x ∷ xs) ys rest n z h k = ground (
  arith,
  rscan-found c (at + 1) (some at) xs ys rest n z.1 h k,
  rscan-found c (at + 1) last xs ys rest n z.1 h k,
)

pub load-append : (pre rest : Bytes) (v : ℕ) → load (pre ++ v ∷ rest) (length pre) ≡ ok v
unfolding load
load-append [] rest v = refl
load-append (x ∷ pre) rest v = load-append pre rest v

pub cstr-append : (xs rest : Bytes) → Lacks 0 xs → cstr (xs ++ 0 ∷ rest) ≡ ok xs
unfolding cstr
cstr-append [] rest h = refl
cstr-append (x ∷ xs) rest h = ground (arith, cstr-append xs rest h.1)

pub starts_with-append : (cs rest : Bytes) → starts_with (cs ++ rest) cs ≡ ok true
unfolding starts_with
starts_with-append [] rest = refl
starts_with-append (c ∷ cs) rest = ground (arith, starts_with-append cs rest)

pub starts_with_case_insensitive-append :
    (cs rest : Bytes) → starts_with_case_insensitive (cs ++ rest) cs ≡ ok true
unfolding starts_with_case_insensitive
starts_with_case_insensitive-append [] rest = refl
starts_with_case_insensitive-append (c ∷ cs) rest =
    ground (arith, starts_with_case_insensitive-append cs rest)

-- `strrchr(s, '\0')` is the end of the string.
pub rscan_end :
    (at : ℕ) (last : Option ℕ) (xs rest : Bytes)
    → Lacks 0 xs
    → rscan 0 at last (xs ++ 0 ∷ rest) ≡ ok (some (at + length xs))
unfolding rscan
rscan_end at last [] rest z = ground arith
rscan_end at last (x ∷ xs) rest z = ground (arith, rscan_end (at + 1) last xs rest z.1)

-- What `strchr` finds lies in the buffer, at or behind the place where the search began.
scan_bounds :
    (c at b : ℕ) (xs : Bytes) → scan c at xs ≡ ok (some b) → (at ≤ b) × (b < at + length xs)
unfolding scan
scan_bounds c at b [] e = absurd (ground arith)
scan_bounds c at b (x ∷ xs) e = ground (arith, scan_bounds c (at + 1) b xs)

pub strchr_bounds :
    (buf : Bytes) (i c b : ℕ) → strchr buf i c ≡ ok (some b) → (i ≤ b) × (b < length buf)
unfolding strchr
strchr_bounds buf i c b e = elim (dec_le i (length buf)) [
  | yes h ↦ omega (arith, scan_bounds c i b (drop i buf) e, length-drop buf i h)
  | no h ↦
      let past : drop i buf ≡ [] = drop_of_length-le buf i (omega arith) in
      absurd (let e' : scan c i [] ≡ ok (some b) = rw past at e in unfold scan in ground arith)
]

pub strchr_beyond : (buf : Bytes) (i c : ℕ) → length buf ≤ i → strchr buf i c ≡ fault
unfolding strchr scan
strchr_beyond buf i c h = rw (drop_of_length-le buf i h)

-- The same searches where the buffer and the offsets are given by equations.
pub strchr_at :
    {buf : Bytes} (c i j : ℕ) (pre xs rest : Bytes)
    → buf ≡ pre ++ (xs ++ c ∷ rest)
    → i ≡ length pre
    → j ≡ length pre + length xs
    → Lacks c xs
    → Lacks 0 xs
    → strchr buf i c ≡ ok (some j)
strchr_at c i j pre xs rest e at_i at_j h z = rw (e, at_i, at_j) (strchr-found c pre xs rest h z)
