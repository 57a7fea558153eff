-- ===== src/CStr/Atoi.antt =====
-- `atoi` of <stdlib.h>: blanks, a sign and decimal digits. The standard leaves a value that is no
-- `int` undefined.
use http_exercise.Base.{
  ℕ, ◌+◌, ◌-◌, ◌*◌, ◌^◌, ◌≤◌, ◌<◌, ◌≡◌, refl, Bool, false, ◌&&◌, ◌||◌, [], ◌∷◌, ◌++◌, arith, ltb,
  leb, ◌==◌, lt→ltb, if◌then◌else◌,
}
use http_exercise.Base.Int.{ℤ, pos, sub_ℕ}
use http_exercise.Exec.{Exec, ok, fault, ◌>>=◌}
use http_exercise.CStr.{Bytes}

abbrev pub is_digit : ℕ → Bool
is_digit c = leb b'0' c && leb c b'9'

-- `isspace` in the C locale
abbrev pub is_space : ℕ → Bool
is_space c = c == b' ' || leb 9 c && leb c 13

unfoldable pub skip_white : Bytes → Exec Bytes
skip_white [] = fault
skip_white (x ∷ xs) = let rest = skip_white xs in if is_space x then rest else ok (x ∷ xs)

-- the number that the digits at the start of a buffer spell, behind those of `acc`
unfoldable pub digits : ℕ → Bytes → Exec ℕ
digits acc [] = fault
digits acc (x ∷ xs) =
    let rest = digits (acc * 10 + (x - b'0')) xs in if is_digit x then rest else ok acc

unfoldable pub signed : Bytes → Exec ℤ
signed [] = fault
signed (x ∷ xs) =
    if x == b'-'
    then (do n ← digits 0 xs; if leb n (2 ^ 31) then ok (sub_ℕ 0 n) else fault)
    else (do
      n ← if x == b'+' then digits 0 xs else digits 0 (x ∷ xs)
      if ltb n (2 ^ 31) then ok (pos n) else fault)

unfoldable pub atoi : Bytes → Exec ℤ
atoi xs = do text ← skip_white xs; signed text

-- a list of decimal digits, and the number that they spell behind `acc`
abbrev pub AreDigits : Bytes → Type 0
AreDigits [] = Unit
AreDigits (x ∷ xs) = (b'0' ≤ x) × (x ≤ b'9') × AreDigits xs

abbrev pub decimal : ℕ → Bytes → ℕ
decimal acc [] = acc
decimal acc (x ∷ xs) = decimal (acc * 10 + (x - b'0')) xs

pub digits-decimal :
    (acc : ℕ) (ds rest : Bytes) (x : ℕ)
    → AreDigits ds
    → is_digit x ≡ false
    → digits acc (ds ++ x ∷ rest) ≡ ok (decimal acc ds)
unfolding digits
digits-decimal acc [] rest x h n = rw n refl
digits-decimal acc (d ∷ ds) rest x h n =
    ground (arith, digits-decimal (acc * 10 + (d - b'0')) ds rest x h.2 n)

-- A blank, then digits of an `int`, then something else.
pub atoi-decimal :
    (d : ℕ) (ds rest : Bytes) (x : ℕ)
    → AreDigits (d ∷ ds)
    → decimal 0 (d ∷ ds) < 2 ^ 31
    → is_digit x ≡ false
    → atoi (b' ' ∷ d ∷ (ds ++ x ∷ rest)) ≡ ok (pos (decimal 0 (d ∷ ds)))
unfolding atoi skip_white signed
atoi-decimal d ds rest x h small n =
    let blank : is_space d ≡ false = ground arith in
    let minus : (d == b'-') ≡ false = ground arith in
    let plus : (d == b'+') ≡ false = ground arith in
    rw (blank, minus, plus, digits-decimal 0 (d ∷ ds) rest x h n, lt→ltb _ _ small) refl
