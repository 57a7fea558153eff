-- ===== src/JobStack/Spec.antt =====
-- What thread-safe-job-stack.h promises: a stack of items with a second entrance at the bottom, a
-- bound that `push` respects and `push_back` does not, and an end. The array, the indices and the
-- condition variables are forgotten.
use http_exercise.Base.{
  ℕ, Bool, true, List, [], ◌∷◌, ◌++◌, Option, none, some, ltb, leb, if◌then◌else◌, length,
}
use http_exercise.Exec.{Exec, ok, fault}
use http_exercise.Constants.{Status, finished, success, fail}
use http_exercise.JobStack.{Call, returns, waits, blocks}

-- The items, the next to be popped first.
pub record Abstract {ℓ} (A : Type ℓ) : Type ℓ where
  pub items : List A
  pub room : ℕ
  pub bound : ℕ
  pub is_finished : Bool
  pub locked : Bool

module _ {ℓ} {A : Type ℓ} where
  unfoldable pub push : Abstract A → A → Exec (Call (Abstract A) Status)
  push s a =
      if s.locked
      then ok blocks
      else if s.is_finished
      then ok (returns finished (record s { locked = true }))
      else if leb s.bound (length s.items)
      then ok (waits s)
      else if ltb (length s.items) s.room
      then ok (returns success (record s { items = a ∷ s.items }))
      else fault

  unfoldable pub push_back_admitted : Abstract A → A → Exec (Call (Abstract A) Status)
  push_back_admitted s a =
      if s.locked
      then ok blocks
      else if ltb (length s.items) s.room
      then ok (returns success (record s { items = s.items ++ a ∷ [] }))
      else fault

  unfoldable pub push_back : Abstract A → A → Exec (Call (Abstract A) Status)
  push_back s a = if s.is_finished then ok (returns fail s) else push_back_admitted s a

  take_top : Abstract A → List A → Call (Abstract A) (Status × Option A)
  take_top s [] = if s.is_finished then returns (finished, none) s else waits s
  take_top s (a ∷ rest) = returns (success, some a) (record s { items = rest })

  unfoldable pub pop : Abstract A → Exec (Call (Abstract A) (Status × Option A))
  unfolding take_top
  pop s = if s.locked then ok blocks else ok (take_top s s.items)

  unfoldable pub signal_finish : Abstract A → Call (Abstract A) Status
  signal_finish s = if s.locked then blocks else returns success (record s { is_finished = true })
