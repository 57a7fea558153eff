-- ===== src/Parsing/Request/Path.antt =====
-- The trailing slash of a path.
use mathlib.Core.List.{append_assoc}
use http_exercise.Base.{
  ℕ, suc, ◌+◌, ◌≡◌, refl, ap, ◌∙◌, inl, inr, true, false, not, ◌&&◌, [], ◌∷◌, ◌++◌, none, some,
  arith, if◌then◌else◌, ◌==◌, ==_iff, Bool-cases, length, length-append,
}
use http_exercise.Exec.{ok}
use http_exercise.CStr.{Bytes, strrchr, rscan, cstr}
use http_exercise.CStr.Scan.{Lacks, rscan-found, rscan_end, cstr-append}
use http_exercise.CStr.Copy.{store-append}
use http_exercise.Parsing.Request.{strip_slash}

-- The path behind its first slash, without a slash at its end.
unfoldable pub cut_slash : Bytes → Bytes
cut_slash [] = []
cut_slash (x ∷ []) = if x == b'/' then [] else x ∷ []
cut_slash (x ∷ y ∷ ys) = x ∷ cut_slash (y ∷ ys)

cut_slash-at_end : (a : Bytes) → cut_slash (a ++ b'/' ∷ []) ≡ a
unfolding cut_slash
cut_slash-at_end [] = refl
cut_slash-at_end (x ∷ []) = refl
cut_slash-at_end (x ∷ y ∷ ys) = ap (◌∷◌ x) (cut_slash-at_end (y ∷ ys))

cut_slash-Lacks : (p : Bytes) → Lacks b'/' p → cut_slash p ≡ p
unfolding cut_slash
cut_slash-Lacks [] h = refl
cut_slash-Lacks (x ∷ []) h = ground arith
cut_slash-Lacks (x ∷ y ∷ ys) h = ap (◌∷◌ x) (cut_slash-Lacks (y ∷ ys) h.1)

cut_slash-inside : (a b : Bytes) (y : ℕ) → Lacks b'/' (y ∷ b) → cut_slash (a ++ y ∷ b) ≡ a ++ y ∷ b
unfolding cut_slash
cut_slash-inside [] b y h = cut_slash-Lacks (y ∷ b) h
cut_slash-inside (x ∷ []) b y h = ap (◌∷◌ x) (cut_slash-inside [] b y h)
cut_slash-inside (x ∷ z ∷ a) b y h = ap (◌∷◌ x) (cut_slash-inside (z ∷ a) b y h)

-- Either there is no slash, or there is a last one.
data LastSlash : Bytes → Type 0 where
  nowhere : {p : Bytes} → Lacks b'/' p → LastSlash p
  at_last : {p : Bytes} (a b : Bytes) → Lacks b'/' b → p ≡ a ++ b'/' ∷ b → LastSlash p

LastSlash-cons : (x : ℕ) {p : Bytes} → LastSlash p → LastSlash (x ∷ p)
LastSlash-cons x {p} (nowhere h) = elim (Bool-cases (x == b'/')) [
  | inl slash ↦ at_last [] p h (ap (λ c. c ∷ p) ((==_iff x b'/').0 slash))
  | inr other ↦ nowhere ((λ e. ground arith), h)
]
LastSlash-cons x (at_last a b h e) = at_last (x ∷ a) b h (ap (◌∷◌ x) e)

last_slash : (p : Bytes) → LastSlash p
last_slash [] = nowhere tt
last_slash (x ∷ p) = LastSlash-cons x (last_slash p)

Lacks-left : (c : ℕ) (a b : Bytes) → Lacks c (a ++ b) → Lacks c a
Lacks-left c [] b h = tt
Lacks-left c (x ∷ a) b h = (h.0, Lacks-left c a b h.1)

Lacks-right : (c : ℕ) (a b : Bytes) → Lacks c (a ++ b) → Lacks c b
Lacks-right c [] b h = h
Lacks-right c (x ∷ a) b h = Lacks-right c a b h.1

-- What `strip_slash` leaves of a path that is "/" and `p`.
abbrev pub Stripped : Bytes → Bytes → Type 0
Stripped p path =
    (path' : Bytes) × (strip_slash path ≡ ok path') × (cstr path' ≡ ok (b'/' ∷ cut_slash p))

module _ (p rest : Bytes) (z : Lacks 0 p) where
  whole : Bytes
  whole = b'/' ∷ (p ++ 0 ∷ rest)

  end_found : strrchr whole 0 0 ≡ ok (some (suc (length p)))
  unfolding strrchr whole
  end_found =
      rscan_end 0 none (b'/' ∷ p) rest (omega arith, z) ∙ ap (λ n. ok (some n)) (omega arith)

  unchanged :
      (slash : ℕ)
      → strrchr whole 0 b'/' ≡ ok (some slash)
      → (not (slash == 0) && (slash + 1) == suc (length p)) ≡ false
      → cut_slash p ≡ p
      → Stripped p whole
  unfolding strip_slash
  unchanged slash found test same = (
    whole,
    rw (found, end_found, test),
    unfold whole in rw (same, cstr-append (b'/' ∷ p) rest (omega arith, z)),
  )

  module _ (a b : Bytes) (h : Lacks b'/' b) (e : p ≡ a ++ b'/' ∷ b) where
    split : whole ≡ (b'/' ∷ a) ++ b'/' ∷ (b ++ 0 ∷ rest)
    unfolding whole
    split =
        ap (λ l. b'/' ∷ (l ++ 0 ∷ rest)) e ∙ ap (◌∷◌ b'/') (append_assoc a (b'/' ∷ b) (0 ∷ rest))

    slash_found : strrchr whole 0 b'/' ≡ ok (some (suc (length a)))
    unfolding strrchr
    slash_found =
        ap (rscan b'/' 0 none) split
        ∙ rscan-found b'/' 0 none (b'/' ∷ a) b rest (omega arith)
            (omega arith, Lacks-left 0 a (b'/' ∷ b) z') h (Lacks-right 0 a (b'/' ∷ b) z').1
        ∙ ap (λ n. ok (some n)) (omega arith)
      where
        z' : Lacks 0 (a ++ b'/' ∷ b)
        z' = rw e at z

    long : length p ≡ length a + suc (length b)
    long = ap length e ∙ length-append a (b'/' ∷ b)

  at_end : (a : Bytes) → p ≡ a ++ b'/' ∷ [] → Stripped p whole
  unfolding strip_slash
  at_end a e = (
    (b'/' ∷ a) ++ 0 ∷ 0 ∷ rest,
    rw (slash_found a [] tt e, end_found, test, split a [] tt e)
        (store-append (b'/' ∷ a) (0 ∷ rest) b'/' 0),
    rw (e, cut_slash-at_end)
        (cstr-append (b'/' ∷ a) (0 ∷ rest) (omega arith, Lacks-left 0 a (b'/' ∷ []) (rw e at z))),
  )
    where
      test : (not (suc (length a) == 0) && (suc (length a) + 1) == suc (length p)) ≡ true
      test = ground (arith, long a [] tt e)

  stripped : LastSlash p → Stripped p whole
  stripped (nowhere h) =
      unchanged 0
        (unfold strrchr whole in
          (rscan-found b'/' 0 none [] p rest (omega arith) tt h z
            ∙ ap (λ n. ok (some n)) (omega arith)))
        refl (cut_slash-Lacks p h)
  stripped (at_last a [] h e) = at_end a e
  stripped (at_last a (y ∷ ys) h e) =
      unchanged (suc (length a)) (slash_found a (y ∷ ys) h e) (ground (arith, long a (y ∷ ys) h e))
        (rw e
          (rw (← append_assoc a (b'/' ∷ []) (y ∷ ys)) (cut_slash-inside (a ++ b'/' ∷ []) ys y h)))

-- A slash at the end of a path is dropped, unless it is the only one; any other path stays.
pub strip_slash_lem : (p rest : Bytes) → Lacks 0 p → Stripped p (b'/' ∷ (p ++ 0 ∷ rest))
unfolding whole
strip_slash_lem p rest z = stripped p rest z (last_slash p)
