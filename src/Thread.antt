-- ===== src/Thread.antt =====
-- What one thread of the server does, seen from the others: it computes for itself, and calls the
-- structures that all threads share. A call names what it asks for and goes on with the answer, so
-- that the calls of several threads may come in any order.
pub mod Closes
pub mod Owns
pub mod Bears
use http_exercise.Base.{ℕ, Bool, true, false, Option, none, some}
use http_exercise.Base.Int.{ℤ}
use http_exercise.Exec.{Exec, ok, fault}
use http_exercise.Constants.{Status}
use http_exercise.CStr.{Bytes}
use http_exercise.Job.{Job}
use http_exercise.CacheRecord.{ActionStatus}

-- `client_job_stack` and `prefetch_job_stack`
pub data Queue : Type 0 where
  clients prefetches : Queue

-- `crash` is undefined behaviour, and `loops` a loop that has used up the fuel of the model. A thread
-- is parked behind a `pthread_cond_wait`, and admitted behind the read of `finished`. `destruct` is job_destruct, and `close_fd` a close elsewhere.
pub data Thread (A : Type 0) : Type 0 where
  done : A → Thread A
  crash loops : Thread A
  time : (ℕ → Thread A) → Thread A
  get_record : Bytes → (ActionStatus → Option ℕ → Thread A) → Thread A
  record_name : Option ℕ → (Bytes → Thread A) → Thread A
  close_record : Option ℕ → ActionStatus → Thread A → Thread A
  push parked_push push_back admitted_push_back : Queue → Job → (Status → Thread A) → Thread A
  pop parked_pop : Queue → (Status → Option Job → Thread A) → Thread A
  signal_finish : Queue → Thread A → Thread A
  print : Bytes → Thread A → Thread A
  close_fd : ℤ → Thread A → Thread A
  destruct : Job → Thread A → Thread A

infixl 5 ◌>>=◌
abbrev pub ◌>>=◌ : {A B : Type 0} → Thread A → (A → Thread B) → Thread B
done a >>= rest = rest a
crash >>= rest = crash
loops >>= rest = loops
time k >>= rest = time (λ now. k now >>= rest)
get_record url k >>= rest = get_record url (λ action ptr. k action ptr >>= rest)
record_name ptr k >>= rest = record_name ptr (λ name. k name >>= rest)
close_record ptr action t >>= rest = close_record ptr action (t >>= rest)
push q job k >>= rest = push q job (λ status. k status >>= rest)
parked_push q job k >>= rest = parked_push q job (λ status. k status >>= rest)
push_back q job k >>= rest = push_back q job (λ status. k status >>= rest)
admitted_push_back q job k >>= rest = admitted_push_back q job (λ status. k status >>= rest)
pop q k >>= rest = pop q (λ status job. k status job >>= rest)
parked_pop q k >>= rest = parked_pop q (λ status job. k status job >>= rest)
signal_finish q t >>= rest = signal_finish q (t >>= rest)
print text t >>= rest = print text (t >>= rest)
close_fd fd t >>= rest = close_fd fd (t >>= rest)
destruct job t >>= rest = destruct job (t >>= rest)

-- a computation of the thread's own
abbrev pub lift : {A : Type 0} → Exec A → Thread A
lift fault = crash
lift (ok a) = done a

-- a loop of the thread's own
abbrev pub lift_loop : {A : Type 0} → Exec (Option A) → Thread A
lift_loop fault = crash
lift_loop (ok none) = loops
lift_loop (ok (some a)) = done a
