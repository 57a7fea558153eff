-- ===== src/JobStack/Inversion.antt =====
-- Inversions: what a call that returned, waited or faulted says of the abstract call, and how a
-- call changes the number of items.
use mathlib.Core.Path.{subst}
use http_exercise.Base.{
  ◌+◌, ◌≤◌, ◌<◌, ◌≡◌, ◌≢◌, refl, ap, ◌∙◌, ◌⊎◌, [], ◌∷◌, some, arith, length, length-append,
}
use http_exercise.Exec.{Exec, ok, fault}
use http_exercise.Constants.{Status, success}
use http_exercise.JobStack.{Call, returns, waits, JobStack}
use http_exercise.JobStack.Spec
use http_exercise.JobStack.Spec.{Abstract}
use http_exercise.JobStack.Refine.{
  Represents, CallMatches, returned, waited, blocked, Matches, ran, faulted,
}

module _ {ℓ} {A : Type ℓ} where
  pub CallMatches-returns {κ} :
      {R : Type κ} {c : Call (JobStack A) R} {d : Call (Abstract A) R} {r : R} {s : JobStack A}
      → CallMatches R c d
      → c ≡ returns r s
      → (b : Abstract A) × (d ≡ returns r b) × Represents s b
  CallMatches-returns {s = t} (returned q {s} {a = b} z) e =
      let same : s ≡ t = cc in (b, cc, subst (λ u. Represents u b) same z)
  CallMatches-returns (waited z) e = absurd (ground arith)
  CallMatches-returns blocked e = absurd (ground arith)

  CallMatches-waits {κ} :
      {R : Type κ} {c : Call (JobStack A) R} {d : Call (Abstract A) R} {s : JobStack A}
      → CallMatches R c d
      → c ≡ waits s
      → (b : Abstract A) × (d ≡ waits b) × Represents s b
  CallMatches-waits (returned q z) e = absurd (ground arith)
  CallMatches-waits {s = t} (waited {s} {a = b} z) e =
      let same : s ≡ t = cc in (b, refl, subst (λ u. Represents u b) same z)
  CallMatches-waits blocked e = absurd (ground arith)

  Matches-ok {κ} :
      {R : Type κ} {m : Exec (Call (JobStack A) R)} {n : Exec (Call (Abstract A) R)}
      {c : Call (JobStack A) R}
      → Matches R m n
      → m ≡ ok c
      → (d : Call (Abstract A) R) × (n ≡ ok d) × CallMatches R c d
  Matches-ok {R} {c} (ran {c = c'} {d} z) e =
      let same : c' ≡ c = cc in (d, refl, subst (λ u. CallMatches R u d) same z)
  Matches-ok faulted e = absurd (ground arith)

  pub Matches-returns {κ} :
      {R : Type κ} {m : Exec (Call (JobStack A) R)} {n : Exec (Call (Abstract A) R)} {r : R}
      {s : JobStack A}
      → Matches R m n
      → m ≡ ok (returns r s)
      → (b : Abstract A) × (n ≡ ok (returns r b)) × Represents s b
  Matches-returns z e =
      let (d, e', c) = Matches-ok z e in
      let (b, q, t) = CallMatches-returns c refl in (b, e' ∙ ap ok q, t)

  pub Matches-waits {κ} :
      {R : Type κ} {m : Exec (Call (JobStack A) R)} {n : Exec (Call (Abstract A) R)}
      {s : JobStack A}
      → Matches R m n
      → m ≡ ok (waits s)
      → (b : Abstract A) × (n ≡ ok (waits b)) × Represents s b
  Matches-waits z e =
      let (d, e', c) = Matches-ok z e in
      let (b, q, t) = CallMatches-waits c refl in (b, e' ∙ ap ok q, t)

  pub Matches-fault {κ} :
      {R : Type κ} {m : Exec (Call (JobStack A) R)} {n : Exec (Call (Abstract A) R)}
      → Matches R m n
      → m ≡ fault
      → n ≡ fault
  Matches-fault (ran z) e = absurd (ground arith)
  Matches-fault faulted e = refl

  -- A call keeps the size and the bound of the abstract stack, and a push stays under the bound.
  abbrev pub Kept : Abstract A → Abstract A → Type 0
  Kept a b = (b.room ≡ a.room) × (b.bound ≡ a.bound)

  pub push-length :
      (a b : Abstract A) (x : A) (r : Status)
      → Spec.push a x ≡ ok (returns r b)
      → Kept a b × ((length b.items ≡ length a.items) ⊎ (length b.items ≤ a.bound))
  unfolding Spec.push
  push-length a b x r e = ground arith

  pub push-waits : (a b : Abstract A) (x : A) → Spec.push a x ≡ ok (waits b) → a ≡ b
  unfolding Spec.push
  push-waits a b x e = ground arith

  pub push_back-length :
      (a b : Abstract A) (x : A) (r : Status)
      → Spec.push_back a x ≡ ok (returns r b)
      → Kept a b × (length b.items ≤ length a.items + 1)
  unfolding Spec.push_back Spec.push_back_admitted
  push_back-length a b x r e = ground (arith, length-append a.items (x ∷ []))

  pub push_back_admitted-length :
      (a b : Abstract A) (x : A) (r : Status)
      → Spec.push_back_admitted a x ≡ ok (returns r b)
      → Kept a b × (length b.items ≤ length a.items + 1)
  unfolding Spec.push_back_admitted
  push_back_admitted-length a b x r e = ground (arith, length-append a.items (x ∷ []))

  pub pop-length :
      (a b : Abstract A) (x : A)
      → Spec.pop a ≡ ok (returns (success, some x) b)
      → Kept a b × (length b.items + 1 ≡ length a.items)
  unfolding Spec.pop
  pop-length a b x e = ground arith

  pub pop-waits : (a b : Abstract A) → Spec.pop a ≡ ok (waits b) → a ≡ b
  unfolding Spec.pop
  pop-waits a b e = ground arith

  pub signal_finish-length :
      (a b : Abstract A) (r : Status)
      → Spec.signal_finish a ≡ returns r b
      → Kept a b × (length b.items ≡ length a.items)
  unfolding Spec.signal_finish
  signal_finish-length a b r e = ground arith

  pub push-fault :
      (a : Abstract A) (x : A)
      → Spec.push a x ≡ fault
      → (length a.items < a.bound) × (a.room ≤ length a.items)
  unfolding Spec.push
  push-fault a x e = ground arith

  pub push_back-fault :
      (a : Abstract A) (x : A) → Spec.push_back a x ≡ fault → a.room ≤ length a.items
  unfolding Spec.push_back Spec.push_back_admitted
  push_back-fault a x e = ground arith

  pub push_back_admitted-fault :
      (a : Abstract A) (x : A) → Spec.push_back_admitted a x ≡ fault → a.room ≤ length a.items
  unfolding Spec.push_back_admitted
  push_back_admitted-fault a x e = ground arith

  pub pop-ne-fault : (a : Abstract A) → Spec.pop a ≢ fault
  unfolding Spec.pop
  pop-ne-fault a e = ground arith
