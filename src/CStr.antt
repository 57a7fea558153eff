-- ===== src/CStr.antt =====
-- C memory as the program uses it: byte buffers, pointers into them as offsets, and the functions
-- of <string.h> that the code calls. An access outside a buffer is a fault, and so is a search
-- that runs off the end of a buffer with no NUL: the C standard leaves both undefined.

pub mod Scan
pub mod Copy
pub mod Atoi
use Prim.Native.Char.{code}
use Prim.Native.String
use Prim.Native.String.{String}
use http_exercise.Base.{
  ◌≡◌, ◌↔◌, arith, ℕ, zero, suc, ◌+◌, ◌-◌, ◌^◌, ◌%◌, Bool, true, false, ◌&&◌, List, [], ◌∷◌, ◌++◌,
  Option, none, some, ltb, leb, ◌==◌, if◌then◌else◌, length, drop, replicate,
}
use http_exercise.Exec.{Exec, ok, fault, ◌>>=◌}

abbrev pub Bytes : Type 0
Bytes = List ℕ

-- A string literal of the source, without its NUL.
abbrev pub codes : String → Bytes
codes String.[] = []
codes (String.◌∷◌ c s) = code c ∷ codes s

-- `buf[i]`
unfoldable pub load : Bytes → ℕ → Exec ℕ
load [] i = fault
load (x ∷ xs) zero = ok x
load (x ∷ xs) (suc i) = load xs i

-- `buf[i] = v`
unfoldable pub store : Bytes → ℕ → ℕ → Exec Bytes
store [] i v = fault
store (x ∷ xs) zero v = ok (v ∷ xs)
store (x ∷ xs) (suc i) v = do ys ← store xs i v; ok (x ∷ ys)

-- the search of `strchr` from offset `at` on, over the bytes from there
unfoldable pub scan : ℕ → ℕ → Bytes → Exec (Option ℕ)
scan c at [] = fault
scan c at (x ∷ xs) =
    let rest = scan c (at + 1) xs in
    if x == c then ok (some at) else if x == 0 then ok none else rest

-- `strchr(buf + i, c)`, as an offset into `buf`
unfoldable pub strchr : Bytes → ℕ → ℕ → Exec (Option ℕ)
strchr buf i c = scan c i (drop i buf)

-- the search of `strrchr`, with the last place found so far
unfoldable pub rscan : ℕ → ℕ → Option ℕ → Bytes → Exec (Option ℕ)
rscan c at last [] = fault
rscan c at last (x ∷ xs) =
    let rest = rscan c (at + 1) (if x == c then some at else last) xs in
    if x == 0 then ok (if c == 0 then some at else last) else rest

-- `strrchr(buf + i, c)`
unfoldable pub strrchr : Bytes → ℕ → ℕ → Exec (Option ℕ)
strrchr buf i c = rscan c i none (drop i buf)

-- The bytes before the NUL. A buffer with no NUL is no string.
unfoldable pub cstr : Bytes → Exec Bytes
cstr [] = fault
cstr (x ∷ xs) = let rest = cstr xs in if x == 0 then ok [] else (do s ← rest; ok (x ∷ s))

-- `strlen(buf + i)`
unfoldable pub strlen : Bytes → ℕ → Exec ℕ
strlen buf i = do s ← cstr (drop i buf); ok (length s)

-- what `strncpy` writes: `n` bytes, NULs after the first
unfoldable pub copied : ℕ → Bytes → Exec Bytes
copied zero xs = ok []
copied (suc n) [] = fault
copied (suc n) (x ∷ xs) =
    let rest = copied n xs in if x == 0 then ok (replicate (suc n) 0) else (do r ← rest; ok (x ∷ r))

-- the bytes of `xs` over those of `dst` from its start
unfoldable pub overwrite : Bytes → Bytes → Exec Bytes
overwrite dst [] = ok dst
overwrite [] (x ∷ xs) = fault
overwrite (d ∷ dst) (x ∷ xs) = do r ← overwrite dst xs; ok (x ∷ r)

-- `strncpy(dst, src + j, n)`. It always writes `n` bytes, so a `dst` that is shorter is a fault
-- whatever `src` holds.
unfoldable pub strncpy : Bytes → Bytes → ℕ → ℕ → Exec Bytes
strncpy dst src j n =
    if ltb (length dst) n then fault else (do bs ← copied n (drop j src); overwrite dst bs)

-- The difference of two pointers as the `size_t` argument of a call: below zero it wraps.
abbrev pub size_diff : ℕ → ℕ → ℕ
size_diff a b = (2 ^ 64 + a - b) % 2 ^ 64

-- `strncmp(target, command, strlen(command)) == 0`, over the bytes at `target`
unfoldable pub starts_with : Bytes → Bytes → Exec Bool
starts_with xs [] = ok true
starts_with [] (c ∷ cs) = fault
starts_with (x ∷ xs) (c ∷ cs) = let rest = starts_with xs cs in if x == c then rest else ok false

-- `tolower` in the C locale
abbrev pub to_lower : ℕ → ℕ
to_lower c = if leb b'A' c && leb c b'Z' then c + 32 else c

-- `strncasecmp(target, command, strlen(command)) == 0`
unfoldable pub starts_with_case_insensitive : Bytes → Bytes → Exec Bool
starts_with_case_insensitive xs [] = ok true
starts_with_case_insensitive [] (c ∷ cs) = fault
starts_with_case_insensitive (x ∷ xs) (c ∷ cs) =
    let rest = starts_with_case_insensitive xs cs in
    if to_lower x == to_lower c then rest else ok false

-- What `fgets(line, n + 1, stream)` reads: at most `n` bytes, up to and with the first newline; the bytes that
-- are read and those left in the stream.
unfoldable pub fgets_from : ℕ → Bytes → Bytes × Bytes
fgets_from zero stream = ([], stream)
fgets_from (suc n) [] = ([], [])
fgets_from (suc n) (x ∷ xs) =
    let rest = fgets_from n xs in if x == b'\n' then (x ∷ [], xs) else (x ∷ rest.0, rest.1)

-- The equality of strings by which a hash table finds a key.
unfoldable pub bytes_eq : Bytes → Bytes → Bool
bytes_eq [] [] = true
bytes_eq (x ∷ xs) (y ∷ ys) = x == y && bytes_eq xs ys
bytes_eq _ _ = false

pub bytes_eq_iff : (a b : Bytes) → (bytes_eq a b ≡ true) ↔ (a ≡ b)
unfolding bytes_eq
bytes_eq_iff (x ∷ a) (y ∷ b) = ground (arith, bytes_eq_iff a b)
bytes_eq_iff _ _ = ground arith
