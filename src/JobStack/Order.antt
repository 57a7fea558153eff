-- ===== src/JobStack/Order.antt =====
-- The order in which jobs leave the stack.
use http_exercise.Base.{
  ◌≡◌, refl, ◌∙◌, false, List, [], ◌∷◌, ◌++◌, map, some, arith, leb, suc, ◌+◌, length, ◌<◌, lt→ltb,
}
use http_exercise.Exec.{ok}
use http_exercise.Constants.{success}
use http_exercise.JobStack.{JobStack}
use http_exercise.JobStack.Spec
use http_exercise.JobStack.Spec.{Abstract}
use http_exercise.JobStack.Refine.{Represents}
use http_exercise.JobStack.Run.{
  Op, push, push_back, pop, Reply, status, item, spec_step, spec_run, run, run_refines,
}

module _ {ℓ} {A : Type ℓ} where
  abbrev pub handed_out : A → Reply A
  handed_out a = item success (some a)

  abbrev pub pops : List A → List (Op A)
  pops = map (λ _. pop)

  drain_spec :
      (items : List A) (a : Abstract A)
      → a.items ≡ items
      → a.locked ≡ false
      → spec_run a (pops items) ≡ ok (map handed_out items)
  unfolding spec_run spec_step Spec.pop
  drain_spec [] a e l = refl
  drain_spec (x ∷ rest) a e l =
      rw (l, e) (rw (drain_spec rest (record a { items = rest; locked = false }) refl refl))

  push-push_back_abstract :
      (a : Abstract A) (x y : A)
      → a.locked ≡ false
      → a.is_finished ≡ false
      → length a.items < a.bound
      → length a.items + 1 < a.room
      → spec_run a (push x ∷ push_back y ∷ pops (x ∷ (a.items ++ y ∷ [])))
        ≡ ok (status success ∷ status success ∷ map handed_out (x ∷ (a.items ++ y ∷ [])))
  unfolding spec_run spec_step Spec.push Spec.push_back Spec.push_back_admitted
  push-push_back_abstract a x y l f b m =
      rw (l, f, low, lt→ltb (length a.items) a.room (omega arith))
        (rw (lt→ltb (suc (length a.items)) a.room (omega arith))
          (rw (drain_spec all after refl refl)))
    where
      low : leb a.bound (length a.items) ≡ false
      low = ground arith

      all : List A
      all = x ∷ (a.items ++ y ∷ [])

      after : Abstract A
      after = record a { items = all; locked = false; is_finished = false }

  -- On an open stack with room, under the bound, a job that is pushed is the first to leave and a
  -- job that is then pushed back is the last, behind all that were there.
  pub push-push_back_drain :
      {s : JobStack A} {a : Abstract A} (x y : A)
      → Represents s a
      → a.locked ≡ false
      → a.is_finished ≡ false
      → length a.items < a.bound
      → length a.items + 1 < a.room
      → run s (push x ∷ push_back y ∷ pops (x ∷ (a.items ++ y ∷ [])))
        ≡ ok (status success ∷ status success ∷ map handed_out (x ∷ (a.items ++ y ∷ [])))
  push-push_back_drain {a} x y r l f b m =
      run_refines (push x ∷ push_back y ∷ pops (x ∷ (a.items ++ y ∷ []))) r
      ∙ push-push_back_abstract a x y l f b m
