-- ===== src/JobStack/Load.antt =====
-- What a stack holds, by a weight of its items, and how each call changes that.
use http_exercise.Base.{
  ℕ, zero, suc, ◌+◌, ◌≤◌, ◌≡◌, refl, ap, ◌∙◌, ◌⊎◌, inl, inr, List, [], ◌∷◌, ◌++◌, Option, some,
  arith, length, get_elem?, Bool, true, false, Bool-cases, if◌then◌else◌, ltb, leb,
}
use http_exercise.Exec.{Exec, ok, fault}
use http_exercise.Constants.{Status, success}
use http_exercise.JobStack.{
  Call, returns, waits, blocks, JobStack, job_stack_push, push_back_admitted, job_stack_pop,
  job_stack_signal_finish, push_woken, pop_woken,
}
use http_exercise.JobStack.Spec
use http_exercise.JobStack.Spec.{Abstract}
use http_exercise.JobStack.Refine.{
  Represents, Holds, CallMatches, returned, waited, blocked, Matches, ran, faulted,
}
use http_exercise.JobStack.Pushes.{push_refines, push_back_admitted_refines}
use http_exercise.JobStack.Pops.{pop_refines, signal_finish_refines}

module _ {A : Type 0} (weight : A → ℕ) where
  abbrev pub total : List A → ℕ
  total [] = 0
  total (a ∷ items) = weight a + total items

  abbrev slot_weight : Option (Option A) → ℕ
  slot_weight (some (some a)) = weight a
  slot_weight _ = 0

  -- the slots below the top
  abbrev below : List (Option A) → ℕ → ℕ
  below content zero = 0
  below content (suc i) = slot_weight (get_elem? content i) + below content i

  abbrev pub on_stack : JobStack A → ℕ
  on_stack s = below s.content_base s.top

  Holds-total :
      (content : List (Option A)) (items : List A)
      → Holds content items
      → below content (length items) ≡ total items
  Holds-total content [] h = refl
  Holds-total content (a ∷ items) (e, h) = rw (e, Holds-total content items h) refl

  pub Represents-total :
      {s : JobStack A} {a : Abstract A} → Represents s a → on_stack s ≡ total a.items
  Represents-total {s} {a} r =
      ap (below s.content_base) r.counts ∙ Holds-total s.content_base a.items r.holds

  total-snoc : (items : List A) (a : A) → total (items ++ a ∷ []) ≡ weight a + total items
  total-snoc [] a = refl
  total-snoc (b ∷ items) a = omega (arith, total-snoc items a)

  -- A push: on success the stack gets the item, and else it has no more than before.
  abbrev pub Takes : A → ℕ → ℕ → Status → Type 0
  Takes a before after status = (status ≡ success) × (after ≤ weight a + before) ⊎ (after ≤ before)

  -- what a pop hands out
  abbrev pub popped_weight : Status × Option A → ℕ
  popped_weight (success, some a) = weight a
  popped_weight _ = 0

  -- A pop takes what it hands out.
  abbrev pub Gives : ℕ → ℕ → Status × Option A → Type 0
  Gives before after r = after + popped_weight r ≤ before

  -- Where a call ends, it is related by `E` to what the stack holds; a wait adds nothing.
  abbrev pub Ends : {S R : Type 0} → (S → ℕ) → (ℕ → R → Type 0) → ℕ → Call S R → Type 0
  Ends load E before (returns r s) = E (load s) r
  Ends load E before (waits s) = load s ≤ before
  Ends load E before blocks = Unit

  abbrev pub AllEnd : {S R : Type 0} → (S → ℕ) → (ℕ → R → Type 0) → ℕ → Exec (Call S R) → Type 0
  AllEnd load E before fault = Unit
  AllEnd load E before (ok call) = Ends load E before call

  abbrev in_items : Abstract A → ℕ
  in_items a = total a.items

  CallMatches-Ends :
      {R : Type 0} (E : ℕ → R → Type 0) (before : ℕ) {c : Call (JobStack A) R}
      {d : Call (Abstract A) R}
      → CallMatches R c d
      → Ends in_items E before d
      → Ends on_stack E before c
  CallMatches-Ends E before (returned r z) e = rw (Represents-total z) e
  CallMatches-Ends E before (waited z) e = rw (Represents-total z) e
  CallMatches-Ends E before blocked e = tt

  Matches-AllEnd :
      {R : Type 0} (E : ℕ → R → Type 0) (before : ℕ) {m : Exec (Call (JobStack A) R)}
      {n : Exec (Call (Abstract A) R)}
      → Matches R m n
      → AllEnd in_items E before n
      → AllEnd on_stack E before m
  Matches-AllEnd E before (ran c) e = CallMatches-Ends E before c e
  Matches-AllEnd E before faulted e = tt

  -- a test whose two branches both end well
  ite-AllEnd :
      {R : Type 0} (E : ℕ → R → Type 0) (before : ℕ) (b : Bool) (m n : Exec (Call (Abstract A) R))
      → AllEnd in_items E before m
      → AllEnd in_items E before n
      → AllEnd in_items E before (if b then m else n)
  ite-AllEnd E before true m n d e = d
  ite-AllEnd E before false m n d e = e

  push-AllEnd :
      (a : Abstract A) (x : A) → AllEnd in_items (Takes x (in_items a)) (in_items a) (Spec.push a x)
  unfolding Spec.push
  push-AllEnd a x = ite-AllEnd (Takes x (in_items a)) (in_items a) a.locked _ _ tt (
      ite-AllEnd (Takes x (in_items a)) (in_items a) a.is_finished _ _ (inr (omega arith)) (
        ite-AllEnd (Takes x (in_items a)) (in_items a) (leb a.bound (length a.items)) _ _
          (omega arith)
          (ite-AllEnd (Takes x (in_items a)) (in_items a) (ltb (length a.items) a.room) _ _
            (inl (refl, omega arith)) tt)))

  push_back_admitted-AllEnd :
      (a : Abstract A) (x : A)
      → AllEnd in_items (Takes x (in_items a)) (in_items a) (Spec.push_back_admitted a x)
  unfolding Spec.push_back_admitted
  push_back_admitted-AllEnd a x = ite-AllEnd (Takes x (in_items a)) (in_items a) a.locked _ _ tt (
      ite-AllEnd (Takes x (in_items a)) (in_items a) (ltb (length a.items) a.room) _ _
        (inl (refl, omega (arith, total-snoc a.items x))) tt)

  pop-AllEnd : (a : Abstract A) → AllEnd in_items (Gives (in_items a)) (in_items a) (Spec.pop a)
  unfolding Spec.pop
  pop-AllEnd a = from_top a.items a.locked
    where
      from_top :
          (items : List A) (locked : Bool)
          → AllEnd in_items
              (Gives (total items))
              (total items)
              (Spec.pop (record a { items = items; locked = locked }))
      from_top items true = tt
      from_top [] false = elim (Bool-cases a.is_finished) [
        | inl f ↦ rw f (omega arith)
        | inr f ↦ rw f (omega arith)
      ]
      from_top (x ∷ items) false = omega arith

  signal_finish-Ends :
      (a : Abstract A)
      → Ends in_items (λ after (_ : Status). after ≤ in_items a) (in_items a) (Spec.signal_finish a)
  unfolding Spec.signal_finish
  signal_finish-Ends a = elim (Bool-cases a.locked) [ inl l ↦ rw l tt | inr l ↦ rw l (omega arith) ]

  module _ {s : JobStack A} {a : Abstract A} (r : Represents s a) where
    pub job_stack_push-Takes :
        (x : A) → AllEnd on_stack (Takes x (on_stack s)) (on_stack s) (job_stack_push s x)
    job_stack_push-Takes x =
        rw (Represents-total r)
          (Matches-AllEnd (Takes x (in_items a)) (in_items a) (push_refines r x) (push-AllEnd a x))

    pub push_back_admitted-Takes :
        (x : A) → AllEnd on_stack (Takes x (on_stack s)) (on_stack s) (push_back_admitted s x)
    push_back_admitted-Takes x = rw (Represents-total r) (
        Matches-AllEnd (Takes x (in_items a)) (in_items a) (push_back_admitted_refines r x)
          (push_back_admitted-AllEnd a x))

    pub job_stack_pop-Gives : AllEnd on_stack (Gives (on_stack s)) (on_stack s) (job_stack_pop s)
    job_stack_pop-Gives =
        rw (Represents-total r)
          (Matches-AllEnd (Gives (in_items a)) (in_items a) (pop_refines r) (pop-AllEnd a))

    pub job_stack_signal_finish-Ends :
        Ends on_stack
          (λ after (_ : Status). after ≤ on_stack s)
          (on_stack s)
          (job_stack_signal_finish s)
    job_stack_signal_finish-Ends = rw (Represents-total r) (
        CallMatches-Ends (λ after (_ : Status). after ≤ in_items a) (in_items a)
          (signal_finish_refines r) (signal_finish-Ends a))

    pub push_woken-Takes :
        (x : A) → Ends on_stack (Takes x (on_stack s)) (on_stack s) (push_woken s)
    unfolding push_woken
    push_woken-Takes x = elim (Bool-cases s.mutex) [
      | inl m ↦ rw m tt
      | inr m ↦ rw m (inr (omega arith))
    ]

    pub pop_woken-Gives : Ends on_stack (Gives (on_stack s)) (on_stack s) (pop_woken s)
    unfolding pop_woken
    pop_woken-Gives = elim (Bool-cases s.mutex) [ inl m ↦ rw m tt | inr m ↦ rw m (omega arith) ]
