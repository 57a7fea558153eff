-- ===== src/Exec.antt =====
-- The result of running C code: a value, or a fault where the behaviour is undefined.
use http_exercise.Base.{◌≡◌, refl, ap, ◌⊎◌, inl, inr}

pub data Exec {ℓ} (A : Type ℓ) : Type ℓ where
  fault : Exec A
  ok : A → Exec A

infixl 5 ◌>>=◌
-- what comes after a fault does not run
abbrev pub ◌>>=◌ {ℓ κ} : {A : Type ℓ} {B : Type κ} → Exec A → (A → Exec B) → Exec B
fault >>= rest = fault
ok done >>= rest = rest done

pub Exec-cases {ℓ} : {A : Type ℓ} (run : Exec A) → (run ≡ fault) ⊎ ((a : A) × (run ≡ ok a))
Exec-cases fault = inl refl
Exec-cases (ok a) = inr (a, refl)

pub ok-injective {ℓ} : {A : Type ℓ} {a b : A} → ok a ≡ ok b → a ≡ b
ok-injective {a} e = ap (λ run. elim run [ fault ↦ a | ok x ↦ x ]) e
