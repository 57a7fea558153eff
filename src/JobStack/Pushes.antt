-- ===== src/JobStack/Pushes.antt =====
-- Each push on the array stack, and each push to its bottom, matches the same call on the abstract
-- stack.
use http_exercise.Base.{
  ◌+◌, ◌<◌, ◌≡◌, refl, sym, ◌∙◌, Bool, true, false, List, [], ◌∷◌, ◌++◌, Option, some, arith, ltb,
  leb, lt→ltb, le→ltb, Bool-cases, inl, inr, length, set, length-set, length-append,
  get_elem?-set_self,
}
use native.Mathlib.Decide.{dec_lt}
use http_exercise.Exec.{ok, fault}
use http_exercise.Constants.{Status, finished, success, fail}
use http_exercise.JobStack.{
  Cond, JobStack, job_stack_set_item, job_stack_push, cond_wait, cond_signal, shift_up,
  push_back_admitted, job_stack_push_back,
}
use http_exercise.JobStack.Spec
use http_exercise.JobStack.Spec.{Abstract}
use http_exercise.JobStack.Refine.{
  Represents, returned, waited, blocked, Matches, ran, faulted, Holds-set_above,
  job_stack_set_item_lem, job_stack_set_item_out, Shifted, shift_up-Shifted, shift_up_full,
  Holds-bottom,
}

module _ {ℓ} {A : Type ℓ} {s : JobStack A} {a : Abstract A} (r : Represents s a) where
  -- a change of the flags and the condition variables alone
  pub reflag :
      (f l : Bool) (c d : Cond)
      → Represents
          (record s { is_finished = f; mutex = l; not_empty = c; not_full = d })
          (record a { is_finished = f; locked = l })
  reflag f l c d = record {
    holds = r.holds;
    counts = r.counts;
    room = r.room;
    bound = r.bound;
    ended = refl;
    held = refl;
  }

  pub unlocked :
      s.mutex ≡ false
      → (c d : Cond)
      → Represents
          (record s { mutex = false; not_empty = c; not_full = d })
          (record a { locked = false })
  unlocked m c d = record {
    holds = r.holds;
    counts = r.counts;
    room = r.room;
    bound = r.bound;
    ended = r.ended;
    held = refl;
  }

  -- an item on top, and any condition variables
  pushed :
      (x : A) (c d : Cond)
      → s.top < length s.content_base
      → Represents
          (record s {
            content_base = set s.content_base s.top (some x);
            top = s.top + 1;
            mutex = false;
            not_empty = c;
            not_full = d;
            is_finished = false;
          })
          (record a { items = x ∷ a.items; is_finished = false; locked = false })
  pushed x c d h = record {
    holds = (
      rw (← r.counts) (get_elem?-set_self s.content_base s.top (some x) h),
      Holds-set_above s.content_base a.items s.top (some x) (omega (arith, r.counts)) r.holds,
    );
    counts = omega (arith, r.counts);
    room = length-set s.content_base s.top (some x) ∙ r.room;
    bound = r.bound;
    ended = refl;
    held = refl;
  }

  push_room :
      (x : A)
      → s.mutex ≡ false
      → s.is_finished ≡ false
      → leb s.max_job_count s.top ≡ false
      → Matches Status (job_stack_push s x) (Spec.push a x)
  unfolding job_stack_push Spec.push
  push_room x m f low =
      let low' : leb a.bound (length a.items) ≡ false = cc (r.bound, r.counts) in
      elim (dec_lt s.top (length s.content_base)) [
        | yes h ↦
            rw
              (
                m,
                sym r.held ∙ m,
                f,
                sym r.ended ∙ f,
                low,
                low',
                job_stack_set_item_lem s.content_base s.top x h,
                lt→ltb (length a.items) a.room (omega (arith, r.counts, r.room)),
              )
              (ran (returned success (pushed x (cond_signal s.not_empty) s.not_full h)))
        | no h ↦
            rw
              (
                m,
                sym r.held ∙ m,
                f,
                sym r.ended ∙ f,
                low,
                low',
                job_stack_set_item_out s.content_base s.top x (omega arith),
                le→ltb (length a.items) a.room (omega (arith, r.counts, r.room)),
              )
              faulted
      ]

  -- `job_stack_push` puts the item on top of the abstract stack, waits at the bound, and on a
  -- finished stack returns FINISHED with the mutex held.
  pub push_refines : (x : A) → Matches Status (job_stack_push s x) (Spec.push a x)
  unfolding job_stack_push Spec.push
  push_refines x = elim (Bool-cases s.mutex) [
    | inl m ↦ rw (m, sym r.held ∙ m) (ran blocked)
    | inr m ↦ elim (Bool-cases s.is_finished) [
      | inl f ↦
          rw (m, sym r.held ∙ m, f, sym r.ended ∙ f)
            (ran (returned finished (reflag true true s.not_empty s.not_full)))
      | inr f ↦ elim (Bool-cases (leb s.max_job_count s.top)) [
        | inl high ↦
            let high' : leb a.bound (length a.items) ≡ true = cc (r.bound, r.counts) in
            rw (m, sym r.held ∙ m, f, sym r.ended ∙ f, high, high')
              (ran (waited (reflag false false s.not_empty (cond_wait s.not_full))))
        | inr low ↦ push_room x m f low
      ]
    ]
  ]

  -- an item under the others
  sunk :
      (x : A) (c d : Cond) (moved : List (Option A))
      → length a.items < length s.content_base
      → Shifted s.content_base a.items moved
      → Represents
          (record s {
            content_base = set moved 0 (some x);
            top = s.top + 1;
            mutex = false;
            not_empty = c;
            not_full = d;
          })
          (record a { items = a.items ++ x ∷ []; locked = false })
  sunk x c d moved h z = record {
    holds = Holds-bottom moved a.items x (omega (arith, z.same_length)) z.up;
    counts = omega (arith, r.counts, length-append a.items (x ∷ []));
    room = length-set moved 0 (some x) ∙ z.same_length ∙ r.room;
    bound = r.bound;
    ended = r.ended;
    held = refl;
  }

  push_back_free :
      (x : A)
      → s.mutex ≡ false
      → Matches Status (push_back_admitted s x) (Spec.push_back_admitted a x)
  unfolding push_back_admitted Spec.push_back_admitted
  push_back_free x m = elim (dec_lt (length a.items) (length s.content_base)) [
    | yes h ↦
        let (moved, runs, z) = shift_up-Shifted s.content_base a.items h r.holds in
        let runs' : shift_up s.content_base s.top ≡ ok moved = rw r.counts runs in
        let stored : job_stack_set_item moved 0 x ≡ ok (set moved 0 (some x)) =
          job_stack_set_item_lem moved 0 x (omega (arith, z.same_length)) in
        rw
          (m, sym r.held ∙ m, runs', stored, lt→ltb (length a.items) a.room (omega (arith, r.room)))
          (ran (returned success (sunk x (cond_signal s.not_empty) s.not_full moved h z)))
    | no h ↦
        let full : ltb (length a.items) a.room ≡ false = ground (arith, r.room) in
        elim (shift_up_full s.content_base a.items (omega arith) r.holds) [
          | inl e ↦
              let e' : shift_up s.content_base s.top ≡ fault = rw r.counts e in
              rw (m, sym r.held ∙ m, full, e') faulted
          | inr (e, z) ↦
              let e' : shift_up s.content_base s.top ≡ ok s.content_base = rw r.counts e in
              let out : job_stack_set_item s.content_base 0 x ≡ fault =
                job_stack_set_item_out s.content_base 0 x (omega arith) in
              rw (m, sym r.held ∙ m, full, e', out) faulted
        ]
  ]

  push_back_blocked :
      (x : A)
      → s.mutex ≡ true
      → Matches Status (push_back_admitted s x) (Spec.push_back_admitted a x)
  unfolding push_back_admitted Spec.push_back_admitted
  push_back_blocked x m = rw (m, sym r.held ∙ m) (ran blocked)

  pub push_back_admitted_refines :
      (x : A) → Matches Status (push_back_admitted s x) (Spec.push_back_admitted a x)
  push_back_admitted_refines x = elim (Bool-cases s.mutex) [
    | inl m ↦ push_back_blocked x m
    | inr m ↦ push_back_free x m
  ]

  ended_alike : Represents (record s { is_finished = true }) (record a { is_finished = true })
  ended_alike = record {
    holds = r.holds;
    counts = r.counts;
    room = r.room;
    bound = r.bound;
    ended = refl;
    held = r.held;
  }

  -- `job_stack_push_back` puts the item under all others whatever the bound, and fails on a finished
  -- stack without looking at the mutex.
  pub push_back_refines : (x : A) → Matches Status (job_stack_push_back s x) (Spec.push_back a x)
  unfolding job_stack_push_back Spec.push_back
  push_back_refines x = elim (Bool-cases s.is_finished) [
    | inl f ↦ rw (f, sym r.ended ∙ f) (ran (returned fail ended_alike))
    | inr f ↦
        let open_now : a.is_finished ≡ false = sym r.ended ∙ f in
        let same = push_back_admitted_refines x in rw (f, open_now) (rw (f, open_now) at same)
  ]
