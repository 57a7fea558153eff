-- ===== src/JobStack/Run.antt =====
-- Interleavings: the calls of all threads on one stack, in the order in which they get the mutex.
use http_exercise.Base.{Bool, true, false, ◌≡◌, refl, List, [], ◌∷◌, Option, none, if◌then◌else◌}
use http_exercise.Exec.{Exec, ok, fault, ◌>>=◌}
use http_exercise.Constants.{Status, fail}
use http_exercise.JobStack
use http_exercise.JobStack.{
  Call, returns, waits, blocks, JobStack, job_stack_push, job_stack_push_back, job_stack_pop,
  job_stack_signal_finish, push_woken, pop_woken,
}
use http_exercise.JobStack.Spec
use http_exercise.JobStack.Spec.{Abstract}
use http_exercise.JobStack.Refine.{
  Represents, CallMatches, returned, waited, blocked, Matches, ran, faulted,
}
use http_exercise.JobStack.Pushes.{push_refines, push_back_refines, push_back_admitted_refines}
use http_exercise.JobStack.Pops.{
  pop_refines, signal_finish_refines, push_woken_refines, pop_woken_refines,
}

-- One call of some thread, or the rest of a call whose thread was woken. `push_back` reads `finished`
-- before it locks: it is also two operations, the read and the rest, with others between them.
pub data Op {ℓ} (A : Type ℓ) : Type ℓ where
  push push_back admit_push_back push_back_admitted : A → Op A
  pop signal_finish wake_push wake_pop : Op A

-- What the thread sees: a result, that it stands still, or that a push to the bottom goes on.
pub data Reply {ℓ} (A : Type ℓ) : Type ℓ where
  status : Status → Reply A
  item : Status → Option A → Reply A
  waiting stuck admitted : Reply A

module _ {ℓ} {A : Type ℓ} where
  -- a call seen as a reply and the stack after it
  abbrev outcome {κ} : {S : Type ℓ} {R : Type κ} → (R → Reply A) → S → Call S R → Reply A × S
  outcome f s (returns r t) = (f r, t)
  outcome f s (waits t) = (waiting, t)
  outcome f s blocks = (stuck, s)

  abbrev item_reply : Status × Option A → Reply A
  item_reply r = item r.0 r.1

  -- what the read of `finished` says
  abbrev admission : Bool → Reply A
  admission true = status fail
  admission false = admitted

  unfoldable pub step : JobStack A → Op A → Exec (Reply A × JobStack A)
  step s (push a) = do c ← job_stack_push s a; ok (outcome status s c)
  step s (push_back a) = do c ← job_stack_push_back s a; ok (outcome status s c)
  step s (admit_push_back a) = ok (admission s.is_finished, s)
  step s (push_back_admitted a) = do c ← JobStack.push_back_admitted s a; ok (outcome status s c)
  step s pop = do c ← job_stack_pop s; ok (outcome item_reply s c)
  step s signal_finish = ok (outcome status s (job_stack_signal_finish s))
  step s wake_push = ok (outcome status s (push_woken s))
  step s wake_pop = ok (outcome item_reply s (pop_woken s))

  unfoldable pub run : JobStack A → List (Op A) → Exec (List (Reply A))
  run s [] = ok []
  run s (op ∷ ops) = do r ← step s op; replies ← run r.1 ops; ok (r.0 ∷ replies)

  abbrev woken : Abstract A → Call (Abstract A) Status
  woken a = if a.locked then blocks else returns fail a

  abbrev woken_empty : Abstract A → Call (Abstract A) (Status × Option A)
  woken_empty a = if a.locked then blocks else returns (fail, none) a

  unfoldable pub spec_step : Abstract A → Op A → Exec (Reply A × Abstract A)
  spec_step s (push a) = do c ← Spec.push s a; ok (outcome status s c)
  spec_step s (push_back a) = do c ← Spec.push_back s a; ok (outcome status s c)
  spec_step s (admit_push_back a) = ok (admission s.is_finished, s)
  spec_step s (push_back_admitted a) = do c ← Spec.push_back_admitted s a; ok (outcome status s c)
  spec_step s pop = do c ← Spec.pop s; ok (outcome item_reply s c)
  spec_step s signal_finish = ok (outcome status s (Spec.signal_finish s))
  spec_step s wake_push = ok (outcome status s (woken s))
  spec_step s wake_pop = ok (outcome item_reply s (woken_empty s))

  unfoldable pub spec_run : Abstract A → List (Op A) → Exec (List (Reply A))
  spec_run s [] = ok []
  spec_run s (op ∷ ops) = do r ← spec_step s op; replies ← spec_run r.1 ops; ok (r.0 ∷ replies)

  data Steps : Exec (Reply A × JobStack A) → Exec (Reply A × Abstract A) → Type ℓ where
    stepped :
        (q : Reply A) {s : JobStack A} {a : Abstract A}
        → Represents s a
        → Steps (ok (q, s)) (ok (q, a))
    failed : Steps fault fault

  module _ {κ} {R : Type κ} (f : R → Reply A) {s : JobStack A} {a : Abstract A} where
    CallMatches-Steps :
        {c : Call (JobStack A) R} {d : Call (Abstract A) R}
        → Represents s a
        → CallMatches R c d
        → Steps (ok (outcome f s c)) (ok (outcome f a d))
    CallMatches-Steps z (returned r t) = stepped (f r) t
    CallMatches-Steps z (waited t) = stepped waiting t
    CallMatches-Steps z blocked = stepped stuck z

    Matches-Steps :
        {m : Exec (Call (JobStack A) R)} {n : Exec (Call (Abstract A) R)}
        → Represents s a
        → Matches R m n
        → Steps (m >>= λ c. ok (outcome f s c)) (n >>= λ d. ok (outcome f a d))
    Matches-Steps z (ran c) = CallMatches-Steps z c
    Matches-Steps z faulted = failed

  admission-Steps :
      {s : JobStack A} {a : Abstract A}
      → Represents s a
      → (b c : Bool) → b ≡ c
      → Steps (ok (admission b, s)) (ok (admission c, a))
  admission-Steps r b c e = rw e (stepped _ r)

  step-Steps :
      {s : JobStack A} {a : Abstract A} (op : Op A)
      → Represents s a
      → Steps (step s op) (spec_step a op)
  unfolding step spec_step
  step-Steps (push x) r = Matches-Steps status r (push_refines r x)
  step-Steps (push_back x) r = Matches-Steps status r (push_back_refines r x)
  step-Steps (admit_push_back x) r = admission-Steps r _ _ r.ended
  step-Steps (push_back_admitted x) r = Matches-Steps status r (push_back_admitted_refines r x)
  step-Steps pop r = Matches-Steps item_reply r (pop_refines r)
  step-Steps signal_finish r = CallMatches-Steps status r (signal_finish_refines r)
  step-Steps wake_push r = CallMatches-Steps status r (push_woken_refines r)
  step-Steps wake_pop r = CallMatches-Steps item_reply r (pop_woken_refines r)

  run_cons :
      {m : Exec (Reply A × JobStack A)} {n : Exec (Reply A × Abstract A)} (ops : List (Op A))
      → Steps m n
      → ((s : JobStack A) (a : Abstract A) → Represents s a → run s ops ≡ spec_run a ops)
      → (m >>= λ r. run r.1 ops >>= λ qs. ok (r.0 ∷ qs))
        ≡ (n >>= λ r. spec_run r.1 ops >>= λ qs. ok (r.0 ∷ qs))
  run_cons ops (stepped q r) ih = rw (ih _ _ r)
  run_cons ops failed ih = refl

  -- Whatever the threads call, and in whatever order they get the mutex, each sees what it would see
  -- of the abstract stack, also where others come between the read of `finished` and the lock of a
  -- `job_stack_push_back`: the same results, the same waits, the same standstill on a mutex that is
  -- never released, and no access outside the array unless the abstract stack has no room.
  pub run_refines :
      (ops : List (Op A)) {s : JobStack A} {a : Abstract A}
      → Represents s a
      → run s ops ≡ spec_run a ops
  unfolding run spec_run
  run_refines [] r = refl
  run_refines (op ∷ ops) r = run_cons ops (step-Steps op r) (λ s a z. run_refines ops z)
