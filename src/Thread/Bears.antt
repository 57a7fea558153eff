-- ===== src/Thread/Bears.antt =====
-- How many jobs of a kind a thread has, whatever answers it gets.
use http_exercise.Base.{List, [], ◌∷◌, ℕ, ◌+◌, ◌≤◌, ◌≡◌, ap, arith, Option, none, some}
use http_exercise.Base.Int.{ℤ, negsuc}
use http_exercise.CStr.{Bytes}
use http_exercise.Constants.{Status, success}
use http_exercise.Job.{Job}
use http_exercise.JobStack.Load.{popped_weight}
use http_exercise.CacheRecord.{ActionStatus}
use http_exercise.Thread.{
  Thread, done, crash, loops, time, get_record, record_name, close_record, push, parked_push,
  push_back, admitted_push_back, pop, parked_pop, signal_finish, print, close_fd, destruct,
}
use http_exercise.Thread.Owns.{Owns, popped, put_back}

module _ {A : Type 0} (weight : Job → ℕ) where
  -- A thread that has at most `n` of the weight parts with no more than that, but for what it pops.
  abbrev pub Bears : ℕ → Thread A → Type 0
  Bears n (done a) = Unit
  Bears n crash = Unit
  Bears n loops = Unit
  Bears n (time k) = (now : ℕ) → Bears n (k now)
  Bears n (get_record url k) = (action : ActionStatus) (ptr : Option ℕ) → Bears n (k action ptr)
  Bears n (record_name ptr k) = (name : Bytes) → Bears n (k name)
  Bears n (close_record none action t) = Unit
  Bears n (close_record (some ptr) action t) = Bears n t
  Bears n (push q job k) =
      (m : ℕ) × (weight job + m ≤ n)
      × Bears m (k success)
      × ((status : Status) → Bears n (k status))
  Bears n (parked_push q job k) =
      (m : ℕ) × (weight job + m ≤ n)
      × Bears m (k success)
      × ((status : Status) → Bears n (k status))
  Bears n (push_back q job k) =
      (m : ℕ) × (weight job + m ≤ n)
      × Bears m (k success)
      × ((status : Status) → Bears n (k status))
  Bears n (admitted_push_back q job k) =
      (m : ℕ) × (weight job + m ≤ n)
      × Bears m (k success)
      × ((status : Status) → Bears n (k status))
  Bears n (pop q k) =
      (status : Status) (job : Option Job)
      → Bears (popped_weight weight (status, job) + n) (k status job)
  Bears n (parked_pop q k) =
      (status : Status) (job : Option Job)
      → Bears (popped_weight weight (status, job) + n) (k status job)
  Bears n (signal_finish q t) = Bears n t
  Bears n (print text t) = Bears n t
  Bears n (close_fd fd t) = Bears n t
  Bears n (destruct job t) = (m : ℕ) × (weight job + m ≤ n) × Bears m t

  pub Bears-mono : (t : Thread A) (n n' : ℕ) → n ≤ n' → Bears n t → Bears n' t
  Bears-mono (done a) n n' h b = tt
  Bears-mono crash n n' h b = tt
  Bears-mono loops n n' h b = tt
  Bears-mono (time k) n n' h b = λ now. Bears-mono (k now) n n' h (b now)
  Bears-mono (get_record url k) n n' h b = λ a p. Bears-mono (k a p) n n' h (b a p)
  Bears-mono (record_name ptr k) n n' h b = λ name. Bears-mono (k name) n n' h (b name)
  Bears-mono (close_record none a t) n n' h b = tt
  Bears-mono (close_record (some p) a t) n n' h b = Bears-mono t n n' h b
  Bears-mono (push q job k) n n' h (m, e, b, f) =
      (m, omega arith, b, λ s. Bears-mono (k s) n n' h (f s))
  Bears-mono (parked_push q job k) n n' h (m, e, b, f) =
      (m, omega arith, b, λ s. Bears-mono (k s) n n' h (f s))
  Bears-mono (push_back q job k) n n' h (m, e, b, f) =
      (m, omega arith, b, λ s. Bears-mono (k s) n n' h (f s))
  Bears-mono (admitted_push_back q job k) n n' h (m, e, b, f) =
      (m, omega arith, b, λ s. Bears-mono (k s) n n' h (f s))
  Bears-mono (pop q k) n n' h b = λ s job. Bears-mono (k s job) _ _ (omega arith) (b s job)
  Bears-mono (parked_pop q k) n n' h b = λ s job. Bears-mono (k s job) _ _ (omega arith) (b s job)
  Bears-mono (signal_finish q t) n n' h b = Bears-mono t n n' h b
  Bears-mono (print text t) n n' h b = Bears-mono t n n' h b
  Bears-mono (close_fd fd t) n n' h b = Bears-mono t n n' h b
  Bears-mono (destruct job t) n n' h (m, e, b) = (m, omega arith, b)

  -- what a thread is about to hand over: to a stack, or to `job_destruct`
  abbrev pub in_hand : Thread A → ℕ
  in_hand (push q job k) = weight job
  in_hand (parked_push q job k) = weight job
  in_hand (push_back q job k) = weight job
  in_hand (admitted_push_back q job k) = weight job
  in_hand (destruct job t) = weight job
  in_hand _ = 0

  pub in_hand-le : (n : ℕ) (t : Thread A) → Bears n t → in_hand t ≤ n
  in_hand-le n (push q job k) (m, e, b, f) = omega arith
  in_hand-le n (parked_push q job k) (m, e, b, f) = omega arith
  in_hand-le n (push_back q job k) (m, e, b, f) = omega arith
  in_hand-le n (admitted_push_back q job k) (m, e, b, f) = omega arith
  in_hand-le n (destruct job t) (m, e, b) = omega arith
  in_hand-le n _ b = omega arith

  -- what threads have together
  abbrev pub AllBear : ℕ → List (Thread A) → Type 0
  AllBear b [] = Unit
  AllBear b (t ∷ ts) = (n : ℕ) × (m : ℕ) × (n + m ≤ b) × Bears n t × AllBear m ts

  -- what threads are about to hand over together
  abbrev pub in_hands : List (Thread A) → ℕ
  in_hands [] = 0
  in_hands (t ∷ ts) = in_hand t + in_hands ts

  pub in_hands-le : (b : ℕ) (ts : List (Thread A)) → AllBear b ts → in_hands ts ≤ b
  in_hands-le b [] all = omega arith
  in_hands-le b (t ∷ ts) (n, m, le, h, all) = omega (arith, in_hand-le n t h, in_hands-le m ts all)

-- a weight of the descriptor alone
abbrev pub by_fd : (ℤ → ℕ) → Job → ℕ
by_fd count job = count job.client_socket_fd

-- A thread that has at most one job has at most its weight, where a prefetch weighs nothing.
module _ (count : ℤ → ℕ) (none_free : count (negsuc 0) ≡ 0) where
  abbrev pub held_weight : Option ℤ → ℕ
  held_weight none = 0
  held_weight (some fd) = count fd

  popped-held :
      (status : Status) (job : Option Job)
      → held_weight (popped status job) ≤ popped_weight (by_fd count) (status, job)
  popped-held success (some job) = omega arith
  popped-held success none = omega arith
  popped-held _ job = omega arith

  put_back-held : (fd : ℤ) (status : Status) → held_weight (put_back fd status) ≤ count fd
  put_back-held fd success = omega arith
  put_back-held fd _ = omega arith

  abbrev Weighs : {A : Type 0} → Option ℤ → Thread A → Type 0
  Weighs h t = Bears (by_fd count) (held_weight h) t

  pub Owns-Bears :
      {A : Type 0} (P : Option ℤ → A → Type 0) (h : Option ℤ) (t : Thread A)
      → Owns P h t
      → Weighs h t
  Owns-Bears P h (done a) o = tt
  Owns-Bears P h crash o = tt
  Owns-Bears P h loops o = tt
  Owns-Bears P h (time k) o = λ now. Owns-Bears P h (k now) (o now)
  Owns-Bears P h (get_record url k) o = λ a p. Owns-Bears P h (k a p) (o a p)
  Owns-Bears P h (record_name ptr k) o = λ name. Owns-Bears P h (k name) (o name)
  Owns-Bears P h (close_record none a t) o = tt
  Owns-Bears P h (close_record (some p) a t) o = Owns-Bears P h t o
  Owns-Bears P h (push q job k) ((eq, e), o) = (
    held_weight h,
    omega (arith, ap count e, none_free),
    Owns-Bears P h (k success) (o success),
    λ s. Owns-Bears P h (k s) (o s),
  )
  Owns-Bears P h (parked_push q job k) ((eq, e), o) = (
    held_weight h,
    omega (arith, ap count e, none_free),
    Owns-Bears P h (k success) (o success),
    λ s. Owns-Bears P h (k s) (o s),
  )
  Owns-Bears P h (push_back q job k) (e, o) = (
    0,
    omega (arith, ap held_weight e),
    Owns-Bears P none (k success) (o success),
    λ s.
        Bears-mono (by_fd count) (k s) _ (held_weight h)
          (omega (arith, put_back-held job.client_socket_fd s, ap held_weight e))
          (Owns-Bears P (put_back job.client_socket_fd s) (k s) (o s)),
  )
  Owns-Bears P h (admitted_push_back q job k) (e, o) = (
    0,
    omega (arith, ap held_weight e),
    Owns-Bears P none (k success) (o success),
    λ s.
        Bears-mono (by_fd count) (k s) _ (held_weight h)
          (omega (arith, put_back-held job.client_socket_fd s, ap held_weight e))
          (Owns-Bears P (put_back job.client_socket_fd s) (k s) (o s)),
  )
  Owns-Bears P h (pop q k) (e, o) = λ s job.
      Bears-mono (by_fd count) (k s job) _ _ (omega (arith, popped-held s job))
        (Owns-Bears P (popped s job) (k s job) (o s job))
  Owns-Bears P h (parked_pop q k) (e, o) = λ s job.
      Bears-mono (by_fd count) (k s job) _ _ (omega (arith, popped-held s job))
        (Owns-Bears P (popped s job) (k s job) (o s job))
  Owns-Bears P h (signal_finish q t) o = Owns-Bears P h t o
  Owns-Bears P h (print text t) o = Owns-Bears P h t o
  Owns-Bears P h (close_fd fd t) o = Owns-Bears P h t o
  Owns-Bears P h (destruct job t) (e, o) =
      (0, omega (arith, ap held_weight e), Owns-Bears P none t o)
