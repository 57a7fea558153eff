-- ===== src/Thread/Closes.antt =====
-- Which records a thread closes, whatever answers it gets.
use http_exercise.Base.{ℕ, ◌≡◌, Bool, true, false, ◌++◌, ◌∷◌, Option, none, some}
use http_exercise.Exec.{Exec, fault, ok}
use http_exercise.CStr.{Bytes}
use http_exercise.Constants.{Status}
use http_exercise.Job.{Job, IsUnconnected}
use http_exercise.CacheRecord.{ActionStatus}
use http_exercise.CacheRecord.Grants.{Grants}
use http_exercise.Thread.{
  Queue, prefetches, Thread, done, crash, loops, time, get_record, record_name, close_record, push,
  parked_push, push_back, admitted_push_back, pop, parked_pop, signal_finish, print, close_fd,
  destruct, lift, lift_loop, ◌>>=◌,
}

-- a push of a prefetch
abbrev pub IsPrefetch : Queue → Job → Type 0
IsPrefetch q job = (q ≡ prefetches) × IsUnconnected job

-- what a thread holds behind a lookup
abbrev pub granted : ActionStatus → Option ℕ → Grants → Grants
granted action none g = g
granted action (some ptr) g = (ptr, action) ∷ g

module _ {A : Type 0} where
  -- A thread that holds the grants `g` closes only what it holds, and holds what `P` allows when it is
  -- done. A close of NULL is a crash, with nothing behind it. With `jobs` false it takes no job from a
  -- stack, neither puts one back nor destructs one, and pushes only prefetches.
  abbrev pub Closes : Bool → (Grants → A → Type 0) → Grants → Thread A → Type 0
  Closes jobs P g (done a) = P g a
  Closes jobs P g crash = Unit
  Closes jobs P g loops = Unit
  Closes jobs P g (time k) = (now : ℕ) → Closes jobs P g (k now)
  Closes jobs P g (get_record url k) =
      (action : ActionStatus) (ptr : Option ℕ) → Closes jobs P (granted action ptr g) (k action ptr)
  Closes jobs P g (record_name ptr k) = (name : Bytes) → Closes jobs P g (k name)
  Closes jobs P g (close_record none action t) = Unit
  Closes jobs P g (close_record (some ptr) action t) =
      (before : Grants) × (after : Grants) × (g ≡ before ++ (ptr, action) ∷ after)
      × Closes jobs P (before ++ after) t
  Closes jobs P g (push q job k) =
      (jobs ≡ false → IsPrefetch q job) × ((status : Status) → Closes jobs P g (k status))
  Closes jobs P g (parked_push q job k) =
      (jobs ≡ false → IsPrefetch q job) × ((status : Status) → Closes jobs P g (k status))
  Closes jobs P g (push_back q job k) =
      (jobs ≡ true) × ((status : Status) → Closes jobs P g (k status))
  Closes jobs P g (admitted_push_back q job k) =
      (jobs ≡ true) × ((status : Status) → Closes jobs P g (k status))
  Closes jobs P g (pop q k) =
      (jobs ≡ true) × ((status : Status) (job : Option Job) → Closes jobs P g (k status job))
  Closes jobs P g (parked_pop q k) =
      (jobs ≡ true) × ((status : Status) (job : Option Job) → Closes jobs P g (k status job))
  Closes jobs P g (signal_finish q t) = Closes jobs P g t
  Closes jobs P g (print text t) = Closes jobs P g t
  Closes jobs P g (close_fd fd t) = Closes jobs P g t
  Closes jobs P g (destruct job t) = (jobs ≡ true) × Closes jobs P g t

  pub Closes-lift :
      (jobs : Bool) (P : Grants → A → Type 0) (g : Grants) (run : Exec A)
      → ((a : A) → P g a)
      → Closes jobs P g (lift run)
  Closes-lift jobs P g fault h = tt
  Closes-lift jobs P g (ok a) h = h a

  pub Closes-lift_loop :
      (jobs : Bool) (P : Grants → A → Type 0) (g : Grants) (run : Exec (Option A))
      → ((a : A) → P g a)
      → Closes jobs P g (lift_loop run)
  Closes-lift_loop jobs P g fault h = tt
  Closes-lift_loop jobs P g (ok none) h = tt
  Closes-lift_loop jobs P g (ok (some a)) h = h a

-- a thread that goes on where another is done
pub Closes-bind :
    {A B : Type 0} (jobs : Bool) (P : Grants → A → Type 0) (Q : Grants → B → Type 0) (g : Grants)
    (t : Thread A) (rest : A → Thread B)
    → Closes jobs P g t
    → ((g' : Grants) (a : A) → P g' a → Closes jobs Q g' (rest a))
    → Closes jobs Q g (t >>= rest)
Closes-bind jobs P Q g (done a) rest h f = f g a h
Closes-bind jobs P Q g crash rest h f = tt
Closes-bind jobs P Q g loops rest h f = tt
Closes-bind jobs P Q g (time k) rest h f = λ now. Closes-bind jobs P Q _ (k now) rest (h now) f
Closes-bind jobs P Q g (get_record url k) rest h f =
    λ a p. Closes-bind jobs P Q _ (k a p) rest (h a p) f
Closes-bind jobs P Q g (record_name ptr k) rest h f =
    λ name. Closes-bind jobs P Q _ (k name) rest (h name) f
Closes-bind jobs P Q g (close_record none a t) rest h f = tt
Closes-bind jobs P Q g (close_record (some p) a t) rest (before, after, e, h) f =
    (before, after, e, Closes-bind jobs P Q (before ++ after) t rest h f)
Closes-bind jobs P Q g (push q job k) rest (e, h) f =
    (e, λ s. Closes-bind jobs P Q _ (k s) rest (h s) f)
Closes-bind jobs P Q g (parked_push q job k) rest (e, h) f =
    (e, λ s. Closes-bind jobs P Q _ (k s) rest (h s) f)
Closes-bind jobs P Q g (push_back q job k) rest (e, h) f =
    (e, λ s. Closes-bind jobs P Q _ (k s) rest (h s) f)
Closes-bind jobs P Q g (admitted_push_back q job k) rest (e, h) f =
    (e, λ s. Closes-bind jobs P Q _ (k s) rest (h s) f)
Closes-bind jobs P Q g (pop q k) rest (e, h) f =
    (e, λ s job. Closes-bind jobs P Q _ (k s job) rest (h s job) f)
Closes-bind jobs P Q g (parked_pop q k) rest (e, h) f =
    (e, λ s job. Closes-bind jobs P Q _ (k s job) rest (h s job) f)
Closes-bind jobs P Q g (signal_finish q t) rest h f = Closes-bind jobs P Q g t rest h f
Closes-bind jobs P Q g (print text t) rest h f = Closes-bind jobs P Q g t rest h f
Closes-bind jobs P Q g (close_fd fd t) rest h f = Closes-bind jobs P Q g t rest h f
Closes-bind jobs P Q g (destruct job t) rest (e, h) f = (e, Closes-bind jobs P Q g t rest h f)
