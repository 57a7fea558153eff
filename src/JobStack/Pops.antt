-- ===== src/JobStack/Pops.antt =====
-- Each pop, each signal and the rest of each wait on the array stack matches the same call on the
-- abstract stack.
use http_exercise.Base.{
  suc, ◌-◌, ◌≡◌, refl, sym, ap, ◌∙◌, Bool, true, false, List, [], ◌∷◌, Option, none, some, arith,
  ◌==◌, if◌then◌else◌, Bool-cases, inl, inr, length,
}
use http_exercise.Exec.{ok}
use http_exercise.Constants.{Status, finished, success, fail}
use http_exercise.JobStack.{
  Cond, returns, blocks, JobStack, job_stack_get_item, cond_wait, cond_signal, cond_broadcast,
  job_stack_pop, job_stack_signal_finish, push_woken, pop_woken,
}
use http_exercise.JobStack.Spec
use http_exercise.JobStack.Spec.{Abstract}
use http_exercise.JobStack.Refine.{
  Holds, Represents, CallMatches, returned, waited, blocked, Matches, ran, job_stack_get_item_lem,
}
use http_exercise.JobStack.Pushes.{reflag, unlocked}

module _ {ℓ} {A : Type ℓ} {s : JobStack A} {a : Abstract A} (r : Represents s a) where
  -- the top item gone
  popped :
      (rest : List A) (x : A) (c d : Cond)
      → a.items ≡ x ∷ rest
      → Represents
          (record s { top = s.top - 1; mutex = false; not_empty = c; not_full = d })
          (record a { items = rest; locked = false })
  popped rest x c d e = record {
    holds = let h : Holds s.content_base (x ∷ rest) = rw e at r.holds in h.1;
    counts = omega (arith, r.counts, ap length e);
    room = r.room;
    bound = r.bound;
    ended = r.ended;
    held = refl;
  }

  emptied :
      (f : Bool) (c : Cond)
      → a.items ≡ []
      → Represents
          (record s { mutex = false; not_empty = c; is_finished = f })
          (record a { items = []; is_finished = f; locked = false })
  emptied f c e = record {
    holds = tt;
    counts = r.counts ∙ ap length e;
    room = r.room;
    bound = r.bound;
    ended = refl;
    held = refl;
  }

  pop_items :
      (items : List A)
      → a.items ≡ items
      → s.mutex ≡ false
      → Matches (Status × Option A) (job_stack_pop s) (Spec.pop a)
  unfolding job_stack_pop Spec.pop
  pop_items [] e m =
      let none_left : s.top ≡ 0 = r.counts ∙ ap length e in
      let test : (s.top == 0) ≡ true = ground arith in
      elim (Bool-cases s.is_finished) [
        | inl f ↦
            rw (m, sym r.held ∙ m, test, f, sym r.ended ∙ f, e)
              (ran (returned (finished, none) (emptied true s.not_empty e)))
        | inr f ↦
            rw (m, sym r.held ∙ m, test, f, sym r.ended ∙ f, e)
              (ran (waited (emptied false (cond_wait s.not_empty) e)))
      ]
  pop_items (x ∷ rest) e m =
      let some_left : s.top ≡ suc (length rest) = r.counts ∙ ap length e in
      let test : (s.top == 0) ≡ false = ground arith in
      let below : s.top - 1 ≡ length rest = omega arith in
      let h : Holds s.content_base (x ∷ rest) = rw e at r.holds in
      let got : job_stack_get_item s.content_base (s.top - 1) ≡ ok x =
        rw below (job_stack_get_item_lem s.content_base (length rest) h.0) in
      rw (m, sym r.held ∙ m, test, got, e)
        (ran (returned (success, some x) (popped rest x s.not_empty (cond_signal s.not_full) e)))

  -- `job_stack_pop` takes the top item; on an empty stack it waits, or returns FINISHED once the
  -- stack is finished.
  pub pop_refines : Matches (Status × Option A) (job_stack_pop s) (Spec.pop a)
  unfolding job_stack_pop Spec.pop
  pop_refines = elim (Bool-cases s.mutex) [
    | inl m ↦ rw (m, sym r.held ∙ m) (ran blocked)
    | inr m ↦ pop_items a.items refl m
  ]

  pub signal_finish_refines : CallMatches Status (job_stack_signal_finish s) (Spec.signal_finish a)
  unfolding job_stack_signal_finish Spec.signal_finish
  signal_finish_refines = elim (Bool-cases s.mutex) [
    | inl m ↦ rw (m, sym r.held ∙ m) blocked
    | inr m ↦
        rw (m, sym r.held ∙ m)
          (returned success (reflag r true false (cond_broadcast s.not_empty) s.not_full))
  ]

  pub push_woken_refines :
      CallMatches Status (push_woken s) (if a.locked then blocks else returns fail a)
  unfolding push_woken
  push_woken_refines = elim (Bool-cases s.mutex) [
    | inl m ↦ rw (m, sym r.held ∙ m) blocked
    | inr m ↦ rw (m, sym r.held ∙ m) (returned fail (unlocked r m _ _))
  ]

  pub pop_woken_refines :
      CallMatches
        (Status × Option A)
        (pop_woken s)
        (if a.locked then blocks else returns (fail, none) a)
  unfolding pop_woken
  pop_woken_refines = elim (Bool-cases s.mutex) [
    | inl m ↦ rw (m, sym r.held ∙ m) blocked
    | inr m ↦ rw (m, sym r.held ∙ m) (returned (fail, none) (unlocked r m _ _))
  ]
