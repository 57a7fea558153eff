-- ===== src/Base/Lists.antt =====
-- Lists with native indices: C arrays and the abstract sequences that they stand for.
use Prim.Native.Nat.{ℕ, zero, suc, ◌+◌, ◌-◌, ◌≤◌, ◌<◌}
use mathlib.Core.Path.{◌≡◌, refl, sym, ap, ◌∙◌}
use mathlib.Core.Logic.{◌≢◌}
use mathlib.Core.Option.{Option, none, some}
use mathlib.Core.List.{List, [], ◌∷◌, ◌++◌}
use native.Mathlib.Omega.{arith}

module _ {ℓ} {A : Type ℓ} where
  abbrev pub length : List A → ℕ
  length [] = 0
  length (x ∷ xs) = suc (length xs)

  abbrev pub get_elem? : List A → ℕ → Option A
  get_elem? [] i = none
  get_elem? (x ∷ xs) zero = some x
  get_elem? (x ∷ xs) (suc i) = get_elem? xs i

  abbrev pub set : List A → ℕ → A → List A
  set [] i v = []
  set (x ∷ xs) zero v = v ∷ xs
  set (x ∷ xs) (suc i) v = x ∷ set xs i v

  abbrev pub take : ℕ → List A → List A
  take zero xs = []
  take (suc n) [] = []
  take (suc n) (x ∷ xs) = x ∷ take n xs

  abbrev pub drop : ℕ → List A → List A
  drop zero xs = xs
  drop (suc n) [] = []
  drop (suc n) (x ∷ xs) = drop n xs

  abbrev pub replicate : ℕ → A → List A
  replicate zero a = []
  replicate (suc n) a = a ∷ replicate n a

  pub length-append : (xs ys : List A) → length (xs ++ ys) ≡ length xs + length ys
  length-append [] ys = omega arith
  length-append (x ∷ xs) ys = omega (arith, length-append xs ys)

  pub length-replicate : (n : ℕ) (a : A) → length (replicate n a) ≡ n
  length-replicate zero a = refl
  length-replicate (suc n) a = ap suc (length-replicate n a)

  pub length-set : (xs : List A) (i : ℕ) (v : A) → length (set xs i v) ≡ length xs
  length-set [] i v = refl
  length-set (x ∷ xs) zero v = refl
  length-set (x ∷ xs) (suc i) v = ap suc (length-set xs i v)

  pub get_elem?-set_self :
      (xs : List A) (i : ℕ) (v : A) → i < length xs → get_elem? (set xs i v) i ≡ some v
  get_elem?-set_self [] i v h = absurd (omega arith)
  get_elem?-set_self (x ∷ xs) zero v h = refl
  get_elem?-set_self (x ∷ xs) (suc i) v h = get_elem?-set_self xs i v (omega arith)

  pub get_elem?-set_ne :
      (xs : List A) (i j : ℕ) (v : A) → i ≢ j → get_elem? (set xs i v) j ≡ get_elem? xs j
  get_elem?-set_ne [] i j v h = refl
  get_elem?-set_ne (x ∷ xs) zero zero v h = absurd (h refl)
  get_elem?-set_ne (x ∷ xs) zero (suc j) v h = refl
  get_elem?-set_ne (x ∷ xs) (suc i) zero v h = refl
  get_elem?-set_ne (x ∷ xs) (suc i) (suc j) v h = get_elem?-set_ne xs i j v (λ e. h (ap suc e))

  pub drop-length-append : (xs ys : List A) → drop (length xs) (xs ++ ys) ≡ ys
  drop-length-append [] ys = refl
  drop-length-append (x ∷ xs) ys = drop-length-append xs ys

  pub eq-nil_of_append-eq : (xs ys : List A) → xs ≡ xs ++ ys → ys ≡ []
  eq-nil_of_append-eq xs [] e = refl
  eq-nil_of_append-eq xs (y ∷ ys) e = absurd (omega (arith, ap length e, length-append xs (y ∷ ys)))

  pub lt-length_of_get_elem? :
      (xs : List A) (i : ℕ) {a : A} → get_elem? xs i ≡ some a → i < length xs
  lt-length_of_get_elem? [] i e = absurd (ground arith)
  lt-length_of_get_elem? (x ∷ xs) zero e = omega arith
  lt-length_of_get_elem? (x ∷ xs) (suc i) e = omega (arith, lt-length_of_get_elem? xs i e)

  pub get_elem?-length : (xs : List A) → get_elem? xs (length xs) ≡ none
  get_elem?-length [] = refl
  get_elem?-length (x ∷ xs) = get_elem?-length xs

  pub get_elem?-concat_self : (xs : List A) (a : A) → get_elem? (xs ++ a ∷ []) (length xs) ≡ some a
  get_elem?-concat_self [] a = refl
  get_elem?-concat_self (x ∷ xs) a = get_elem?-concat_self xs a

  pub get_elem?-concat_ne :
      (xs : List A) (a : A) (i : ℕ) → length xs ≢ i → get_elem? (xs ++ a ∷ []) i ≡ get_elem? xs i
  get_elem?-concat_ne [] a zero h = absurd (h refl)
  get_elem?-concat_ne [] a (suc i) h = refl
  get_elem?-concat_ne (x ∷ xs) a zero h = refl
  get_elem?-concat_ne (x ∷ xs) a (suc i) h = get_elem?-concat_ne xs a i (λ e. h (ap suc e))

  pub length-drop : (xs : List A) (n : ℕ) → n ≤ length xs → n + length (drop n xs) ≡ length xs
  length-drop xs zero h = omega arith
  length-drop [] (suc n) h = absurd (omega arith)
  length-drop (x ∷ xs) (suc n) h = omega (arith, length-drop xs n (omega arith))

  pub drop_of_length-le : (xs : List A) (n : ℕ) → length xs ≤ n → drop n xs ≡ []
  drop_of_length-le [] zero h = refl
  drop_of_length-le (x ∷ xs) zero h = absurd (omega arith)
  drop_of_length-le [] (suc n) h = refl
  drop_of_length-le (x ∷ xs) (suc n) h = drop_of_length-le xs n (omega arith)

  -- an index in range splits a list
  pub drop-eq-cons :
      (xs : List A) (n : ℕ) → n < length xs → (x : A) × (drop n xs ≡ x ∷ drop (suc n) xs)
  drop-eq-cons [] n h = absurd (omega arith)
  drop-eq-cons (x ∷ xs) zero h = (x, refl)
  drop-eq-cons (x ∷ xs) (suc n) h = drop-eq-cons xs n (omega arith)

  pub drop-add-append : (xs ys : List A) (n : ℕ) → drop (length xs + n) (xs ++ ys) ≡ drop n ys
  drop-add-append [] ys n = ap (λ k. drop k ys) (omega arith)
  drop-add-append (x ∷ xs) ys n =
      let e : suc (length xs) + n ≡ suc (length xs + n) = omega arith in
      ap (λ k. drop k (x ∷ (xs ++ ys))) e ∙ drop-add-append xs ys n

  pub drop_at :
      {buf : List A} (i : ℕ) (pre rest : List A)
      → buf ≡ pre ++ rest
      → i ≡ length pre
      → drop i buf ≡ rest
  drop_at i pre rest e at_i = rw (e, at_i) (drop-length-append pre rest)

  take-nil : (n : ℕ) → take n [] ≡ []
  take-nil zero = refl
  take-nil (suc n) = refl

  take-take : (m n : ℕ) (xs : List A) → m ≤ n → take m (take n xs) ≡ take m xs
  take-take zero n xs h = refl
  take-take (suc m) zero xs h = absurd (omega arith)
  take-take (suc m) (suc n) [] h = refl
  take-take (suc m) (suc n) (x ∷ xs) h = ap (λ l. x ∷ l) (take-take m n xs (omega arith))

  -- a piece of a prefix, behind what came before
  pub take-add :
      (i m n : ℕ) (xs : List A) → m ≤ n → take i xs ++ take m (take n (drop i xs)) ≡ take (i + m) xs
  take-add zero m n xs h = take-take m n xs h ∙ ap (λ k. take k xs) (omega arith)
  take-add (suc i) m n [] h = ap (take m) (take-nil n) ∙ take-nil m ∙ sym (take-nil (suc i + m))
  take-add (suc i) m n (x ∷ xs) h =
      let e : suc i + m ≡ suc (i + m) = omega arith in
      ap (λ l. x ∷ l) (take-add i m n xs h) ∙ sym (ap (λ k. take k (x ∷ xs)) e)

  pub length-take : (n : ℕ) (xs : List A) → n ≤ length xs → length (take n xs) ≡ n
  length-take zero xs h = refl
  length-take (suc n) [] h = absurd (omega arith)
  length-take (suc n) (x ∷ xs) h = ap suc (length-take n xs (omega arith))

  pub take-length-append : (xs ys : List A) → take (length xs) (xs ++ ys) ≡ xs
  take-length-append [] ys = refl
  take-length-append (x ∷ xs) ys = ap (λ l. x ∷ l) (take-length-append xs ys)

  pub take_append-le : (n : ℕ) (xs ys : List A) → n ≤ length xs → take n (xs ++ ys) ≡ take n xs
  take_append-le zero xs ys h = refl
  take_append-le (suc n) [] ys h = absurd (omega arith)
  take_append-le (suc n) (x ∷ xs) ys h = ap (λ l. x ∷ l) (take_append-le n xs ys (omega arith))

  pub take-add_length : (xs ys : List A) (n : ℕ) → take (length xs + n) (xs ++ ys) ≡ xs ++ take n ys
  take-add_length [] ys n = ap (λ k. take k ys) (omega arith)
  take-add_length (x ∷ xs) ys n =
      let e : suc (length xs) + n ≡ suc (length xs + n) = omega arith in
      ap (λ k. take k (x ∷ (xs ++ ys))) e ∙ ap (λ l. x ∷ l) (take-add_length xs ys n)

  pub length-take-le : (n : ℕ) (xs : List A) → length (take n xs) ≤ n
  length-take-le zero xs = omega arith
  length-take-le (suc n) [] = omega arith
  length-take-le (suc n) (x ∷ xs) = omega (arith, length-take-le n xs)

  pub drop-replicate : (k n : ℕ) (a : A) → k ≤ n → drop k (replicate n a) ≡ replicate (n - k) a
  drop-replicate zero n a h = ap (λ m. replicate m a) (omega arith)
  drop-replicate (suc k) zero a h = absurd (omega arith)
  drop-replicate (suc k) (suc n) a h =
      drop-replicate k n a (omega arith) ∙ ap (λ m. replicate m a) (omega arith)

  pub take-drop : (n : ℕ) (xs : List A) → take n xs ++ drop n xs ≡ xs
  take-drop zero xs = refl
  take-drop (suc n) [] = refl
  take-drop (suc n) (x ∷ xs) = ap (λ l. x ∷ l) (take-drop n xs)

  pub take_all : (xs : List A) → take (length xs) xs ≡ xs
  take_all [] = refl
  take_all (x ∷ xs) = ap (λ l. x ∷ l) (take_all xs)
