-- ===== src/Thread/Owns.antt =====
-- Which jobs a thread has, whatever answers it gets.
use http_exercise.Base.{ℕ, arith, ◌≡◌, refl, false, Option, none, some}
use http_exercise.Base.Int.{ℤ}
use http_exercise.CStr.{Bytes}
use http_exercise.Constants.{Status, success}
use http_exercise.Job.{Job}
use http_exercise.CacheRecord.{ActionStatus}
use http_exercise.CacheRecord.Grants.{Grants}
use http_exercise.Thread.Closes.{Closes, IsPrefetch}
use http_exercise.Thread.{
  Thread, done, crash, loops, time, get_record, record_name, close_record, push, parked_push,
  push_back, admitted_push_back, pop, parked_pop, signal_finish, print, close_fd, destruct, ◌>>=◌,
}

-- The job that a pop has handed out, by its descriptor.
abbrev pub popped : Status → Option Job → Option ℤ
popped success (some job) = some job.client_socket_fd
popped _ _ = none

-- The job that is left after it was put back, or was not.
abbrev pub put_back : ℤ → Status → Option ℤ
put_back fd success = none
put_back fd _ = some fd

-- A thread that has the job `h`, or none, pops only with none, destructs and puts back only the job
-- that it has, pushes only prefetches, and has what `P` allows when it is done.
module _ {A : Type 0} where
  abbrev pub Owns : (Option ℤ → A → Type 0) → Option ℤ → Thread A → Type 0
  Owns P h (done a) = P h a
  Owns P h crash = Unit
  Owns P h loops = Unit
  Owns P h (time k) = (now : ℕ) → Owns P h (k now)
  Owns P h (get_record url k) = (action : ActionStatus) (ptr : Option ℕ) → Owns P h (k action ptr)
  Owns P h (record_name ptr k) = (name : Bytes) → Owns P h (k name)
  Owns P h (close_record none action t) = Unit
  Owns P h (close_record (some ptr) action t) = Owns P h t
  Owns P h (push q job k) = IsPrefetch q job × ((status : Status) → Owns P h (k status))
  Owns P h (parked_push q job k) = IsPrefetch q job × ((status : Status) → Owns P h (k status))
  Owns P h (push_back q job k) =
      (h ≡ some job.client_socket_fd)
      × ((status : Status) → Owns P (put_back job.client_socket_fd status) (k status))
  Owns P h (admitted_push_back q job k) =
      (h ≡ some job.client_socket_fd)
      × ((status : Status) → Owns P (put_back job.client_socket_fd status) (k status))
  Owns P h (pop q k) =
      (h ≡ none)
      × ((status : Status) (job : Option Job) → Owns P (popped status job) (k status job))
  Owns P h (parked_pop q k) =
      (h ≡ none)
      × ((status : Status) (job : Option Job) → Owns P (popped status job) (k status job))
  Owns P h (signal_finish q t) = Owns P h t
  Owns P h (print text t) = Owns P h t
  Owns P h (close_fd fd t) = Owns P h t
  Owns P h (destruct job t) = (h ≡ some job.client_socket_fd) × Owns P none t

-- a thread that goes on where another is done
pub Owns-bind :
    {A B : Type 0} (P : Option ℤ → A → Type 0) (Q : Option ℤ → B → Type 0) (h : Option ℤ)
    (t : Thread A) (rest : A → Thread B)
    → Owns P h t
    → ((h' : Option ℤ) (a : A) → P h' a → Owns Q h' (rest a))
    → Owns Q h (t >>= rest)
Owns-bind P Q h (done a) rest o f = f h a o
Owns-bind P Q h crash rest o f = tt
Owns-bind P Q h loops rest o f = tt
Owns-bind P Q h (time k) rest o f = λ now. Owns-bind P Q _ (k now) rest (o now) f
Owns-bind P Q h (get_record url k) rest o f = λ a p. Owns-bind P Q _ (k a p) rest (o a p) f
Owns-bind P Q h (record_name ptr k) rest o f = λ name. Owns-bind P Q _ (k name) rest (o name) f
Owns-bind P Q h (close_record none a t) rest o f = tt
Owns-bind P Q h (close_record (some p) a t) rest o f = Owns-bind P Q h t rest o f
Owns-bind P Q h (push q job k) rest (e, o) f = (e, λ s. Owns-bind P Q _ (k s) rest (o s) f)
Owns-bind P Q h (parked_push q job k) rest (e, o) f = (e, λ s. Owns-bind P Q _ (k s) rest (o s) f)
Owns-bind P Q h (push_back q job k) rest (e, o) f = (e, λ s. Owns-bind P Q _ (k s) rest (o s) f)
Owns-bind P Q h (admitted_push_back q job k) rest (e, o) f =
    (e, λ s. Owns-bind P Q _ (k s) rest (o s) f)
Owns-bind P Q h (pop q k) rest (e, o) f = (e, λ s job. Owns-bind P Q _ (k s job) rest (o s job) f)
Owns-bind P Q h (parked_pop q k) rest (e, o) f =
    (e, λ s job. Owns-bind P Q _ (k s job) rest (o s job) f)
Owns-bind P Q h (signal_finish q t) rest o f = Owns-bind P Q h t rest o f
Owns-bind P Q h (print text t) rest o f = Owns-bind P Q h t rest o f
Owns-bind P Q h (close_fd fd t) rest o f = Owns-bind P Q h t rest o f
Owns-bind P Q h (destruct job t) rest (e, o) f = (e, Owns-bind P Q none t rest o f)

-- a thread keeps the job that it has
abbrev pub Keeps : {A : Type 0} → Option ℤ → Option ℤ → A → Type 0
Keeps h h' a = h' ≡ h

-- A thread that makes no call on jobs but to push prefetches keeps the one that it has.
pub Closes-Owns :
    {A : Type 0} (P : Grants → A → Type 0) (g : Grants) (h : Option ℤ) (t : Thread A)
    → Closes false P g t
    → Owns (Keeps h) h t
Closes-Owns P g h (done a) c = refl
Closes-Owns P g h crash c = tt
Closes-Owns P g h loops c = tt
Closes-Owns P g h (time k) c = λ now. Closes-Owns P g h (k now) (c now)
Closes-Owns P g h (get_record url k) c = λ a p. Closes-Owns P _ h (k a p) (c a p)
Closes-Owns P g h (record_name ptr k) c = λ name. Closes-Owns P g h (k name) (c name)
Closes-Owns P g h (close_record none a t) c = tt
Closes-Owns P g h (close_record (some p) a t) (before, after, e, c) = Closes-Owns P _ h t c
Closes-Owns P g h (push q job k) (e, c) = (e refl, λ s. Closes-Owns P g h (k s) (c s))
Closes-Owns P g h (parked_push q job k) (e, c) = (e refl, λ s. Closes-Owns P g h (k s) (c s))
Closes-Owns P g h (push_back q job k) (e, c) = absurd (ground arith)
Closes-Owns P g h (admitted_push_back q job k) (e, c) = absurd (ground arith)
Closes-Owns P g h (pop q k) (e, c) = absurd (ground arith)
Closes-Owns P g h (parked_pop q k) (e, c) = absurd (ground arith)
Closes-Owns P g h (signal_finish q t) c = Closes-Owns P g h t c
Closes-Owns P g h (print text t) c = Closes-Owns P g h t c
Closes-Owns P g h (close_fd fd t) c = Closes-Owns P g h t c
Closes-Owns P g h (destruct job t) (e, c) = absurd (ground arith)
