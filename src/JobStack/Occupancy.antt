-- ===== src/JobStack/Occupancy.antt =====
-- The promise of the reserve slots: as long as no more consumers than reserve slots hold a job,
-- `job_stack_push_back` finds room, and no call leaves the array.
use http_exercise.Base.{
  ℕ, suc, ◌+◌, ◌*◌, ◌≤◌, ◌<◌, ◌≡◌, refl, true, false, [], none, some, length, length-replicate,
}
use mathlib.Core.Path.{subst}
use mathlib.Core.Option.{some-injective}
use http_exercise.Exec.{ok}
use http_exercise.Constants.{Status, success}
use http_exercise.JobStack.{
  returns, waits, JobStack, pointers_per_job, job_stack_construct, job_stack_push,
  job_stack_push_back, push_back_admitted, job_stack_pop, job_stack_signal_finish,
}
use http_exercise.JobStack.Spec.{Abstract}
use http_exercise.JobStack.Refine.{Represents}

-- A stack and the number of jobs that consumers hold.
pub record Workshop {ℓ} (A : Type ℓ) : Type ℓ where
  pub stack : JobStack A
  pub in_hand : ℕ

module _ {ℓ} {A : Type ℓ} where
  -- what the abstract stack of a fresh array is
  abbrev pub fresh_spec : ℕ → ℕ → Abstract A
  fresh_spec max_jobs reserve_slots = record {
    items = [];
    room = (max_jobs + reserve_slots + 1) * pointers_per_job;
    bound = max_jobs;
    is_finished = false;
    locked = false;
  }

  pub construct-Represents :
      (max_jobs reserve_slots : ℕ) {s : JobStack A}
      → job_stack_construct true max_jobs reserve_slots ≡ some s
      → Represents s (fresh_spec max_jobs reserve_slots)
  unfolding job_stack_construct
  construct-Represents max_jobs reserve_slots e =
      subst (λ t. Represents t (fresh_spec max_jobs reserve_slots)) (some-injective _ _ e)
        (record {
          holds = tt;
          counts = refl;
          room = length-replicate ((max_jobs + reserve_slots + 1) * pointers_per_job) none;
          bound = refl;
          ended = refl;
          held = refl;
        })

module _ {ℓ} {A : Type ℓ} (workers : ℕ) where
  -- `workers` consumers, each with at most one job in hand, and any number of producers.
  pub data Step : Workshop A → Workshop A → Type ℓ where
    produce :
        {s : JobStack A} {h : ℕ} (x : A) (r : Status) {t : JobStack A}
        → job_stack_push s x ≡ ok (returns r t)
        → Step (record { stack = s; in_hand = h }) (record { stack = t; in_hand = h })
    producer_waits :
        {s : JobStack A} {h : ℕ} (x : A) {t : JobStack A}
        → job_stack_push s x ≡ ok (waits t)
        → Step (record { stack = s; in_hand = h }) (record { stack = t; in_hand = h })
    take_up :
        {s : JobStack A} {h : ℕ} (x : A) {t : JobStack A}
        → h < workers
        → job_stack_pop s ≡ ok (returns (success, some x) t)
        → Step (record { stack = s; in_hand = h }) (record { stack = t; in_hand = suc h })
    consumer_waits :
        {s : JobStack A} {h : ℕ} {t : JobStack A}
        → h < workers
        → job_stack_pop s ≡ ok (waits t)
        → Step (record { stack = s; in_hand = h }) (record { stack = t; in_hand = h })
    put_back :
        {s : JobStack A} {h : ℕ} (x : A) (r : Status) {t : JobStack A}
        → job_stack_push_back s x ≡ ok (returns r t)
        → Step (record { stack = s; in_hand = suc h }) (record { stack = t; in_hand = h })
    put_back_late :
        {s : JobStack A} {h : ℕ} (x : A) (r : Status) {t : JobStack A}
        → push_back_admitted s x ≡ ok (returns r t)
        → Step (record { stack = s; in_hand = suc h }) (record { stack = t; in_hand = h })
    destruct :
        {s : JobStack A} {h : ℕ}
        → Step (record { stack = s; in_hand = suc h }) (record { stack = s; in_hand = h })
    finish :
        {s : JobStack A} {h : ℕ} (r : Status) {t : JobStack A}
        → job_stack_signal_finish s ≡ returns r t
        → Step (record { stack = s; in_hand = h }) (record { stack = t; in_hand = h })

module _ {ℓ} {A : Type ℓ} (workers max_jobs reserve_slots : ℕ) (few : workers ≤ reserve_slots) where
  pub data Reach : Workshop A → Type ℓ where
    start :
        {s : JobStack A}
        → job_stack_construct true max_jobs reserve_slots ≡ some s
        → Reach (record { stack = s; in_hand = 0 })
    later : {v w : Workshop A} → Reach v → Step workers v w → Reach w

  -- Jobs on the stack and in hand together never exceed the bound and one for each worker.
  record Inv (w : Workshop A) : Type ℓ where
    spec : Abstract A
    represents : Represents w.stack spec
    bound : spec.bound ≡ max_jobs
    room : spec.room ≡ (max_jobs + reserve_slots + 1) * pointers_per_job
    hands : w.in_hand ≤ workers
    occupancy : length spec.items + w.in_hand ≤ max_jobs + workers
