-- ===== src/System/Calls.antt =====
-- The calls of one thread, seen from the cache table and from what the others hold.
use http_exercise.Base.{
  ℕ, ◌≡◌, refl, Bool, true, List, ◌∷◌, ◌++◌, inl, inr, Option, none, some, arith, get_elem?,
  Bool-cases, Option-cases, if◌then◌else◌,
}
use http_exercise.Base.Int.{ℤ, pos}
use http_exercise.Exec.{Exec, ok, fault, ◌>>=◌, Exec-cases}
use http_exercise.CStr.{Bytes}
use http_exercise.Job.{Job}
use http_exercise.JobStack.{Call, returns, waits, blocks, JobStack}
use http_exercise.UtHash.{UtHash}
use http_exercise.BlockTable.{TableElement}
use http_exercise.CacheRecord.{ActionStatus, CacheRecord, CacheTable, cache_record_get_or_create}
use http_exercise.CacheRecord.Grants.{
  Grants, Shared, readers_of, writers_of, readers_of-append, writers_of-append,
}
use http_exercise.CacheRecord.Share.{Granted, get_or_create-Granted}
use http_exercise.Thread.{Queue, clients, prefetches, Thread, get_record, record_name}
use http_exercise.Thread.Closes.{Closes}
use http_exercise.Worker.Main.Records.{Any}
use http_exercise.System.{ResourceInfo, stack_of, put_stack, after_call, step}

-- A grant counts wherever it stands in the list.
pub Shared-move :
    (records : List CacheRecord) (p : ℕ) (a : ActionStatus) (g h : Grants)
    → Shared records ((p, a) ∷ (g ++ h))
    → Shared records (g ++ (p, a) ∷ h)
Shared-move records p a g h s q =
    let (same_readers, same_writers) = counts q in rw (same_readers, same_writers) (s q)
  where
    counts :
        (q : ℕ)
        → (readers_of q (g ++ (p, a) ∷ h) ≡ readers_of q ((p, a) ∷ (g ++ h)))
          × (writers_of q (g ++ (p, a) ∷ h) ≡ writers_of q ((p, a) ∷ (g ++ h)))
    counts q = ground (
      arith,
      readers_of-append q g h,
      readers_of-append q g ((p, a) ∷ h),
      writers_of-append q g h,
      writers_of-append q g ((p, a) ∷ h),
    )

module _ (blocks_hash : UtHash TableElement) (hash : UtHash ℕ) (shell : Bytes → Bytes)
    (ttl : ℤ) where
  abbrev pub Info : Type 0
  Info = ResourceInfo blocks_hash hash shell ttl

  abbrev pub records_of : Info → List CacheRecord
  records_of s = s.cache_table.records

  pub put_stack-records :
      (q : Queue) (stack : JobStack Job) (s : Info)
      → records_of (put_stack blocks_hash hash shell ttl q stack s) ≡ records_of s
  unfolding put_stack
  put_stack-records clients stack s = refl
  put_stack-records prefetches stack s = refl

  module _ {A : Type 0} where
    -- A thread has made a step; other threads hold `pre` and `h`.
    abbrev pub Sound : Grants → Grants → Exec (Info × Thread A) → Type 0
    Sound pre h fault = Unit
    Sound pre h (ok (s, t)) =
        (g : Grants) × Closes true Any g t × Shared (records_of s) (pre ++ (g ++ h))

    module _ (pre g h : Grants) (s : Info) (sh : Shared (records_of s) (pre ++ (g ++ h))) where
      pub stayed :
          (s' : Info) (t : Thread A)
          → records_of s' ≡ records_of s
          → Closes true Any g t
          → Sound pre h (ok (s', t))
      stayed s' t e c = (g, c, rw e sh)

      pub after_call-Sound :
          {R : Type 0} (q : Queue) (go : R → Thread A) (parked here : Thread A)
          (call : Call (JobStack Job) R)
          → ((r : R) → Closes true Any g (go r))
          → Closes true Any g parked
          → Closes true Any g here
          → Sound pre h (ok (after_call blocks_hash hash shell ttl q s go parked here call))
      unfolding after_call
      after_call-Sound q go parked here (returns r stack) f p c =
          (g, f r, rw (put_stack-records q stack s) sh)
      after_call-Sound q go parked here (waits stack) f p c =
          (g, p, rw (put_stack-records q stack s) sh)
      after_call-Sound q go parked here blocks f p c = (g, c, sh)

      pub through :
          {B : Type 0} (run : Exec B) (rest : B → Exec (Info × Thread A))
          → ((b : B) → Sound pre h (rest b))
          → Sound pre h (run >>= rest)
      through fault rest f = tt
      through (ok b) rest f = f b

      pub get_record-Sound :
          (url : Bytes) (k : ActionStatus → Option ℕ → Thread A) (now later : ℕ)
          → Closes true Any g (get_record url k)
          → Sound pre h (step blocks_hash hash shell ttl now later s (get_record url k))
      unfolding step
      get_record-Sound url k now later c = elim (Exec-cases run) [
        | inl f ↦ rw f tt
        | inr ((a, none, t), e) ↦ rw e (g, c a none, rw e at granted)
        | inr ((a, some p, t), e) ↦
            rw e
              ((p, a) ∷ g, c a (some p), Shared-move t.records p a pre (g ++ h) (rw e at granted))
      ]
        where
          run : Exec (ActionStatus × Option ℕ × CacheTable hash shell ttl)
          run = cache_record_get_or_create hash shell ttl s.cache_table url (pos now) (pos later)

          granted : Granted hash shell ttl (pre ++ (g ++ h)) run
          granted =
              get_or_create-Granted hash shell ttl s.cache_table (pre ++ (g ++ h)) url (pos now)
                (pos later) sh

      pub record_name-Sound :
          (ptr : Option ℕ) (k : Bytes → Thread A) (now later : ℕ)
          → Closes true Any g (record_name ptr k)
          → Sound pre h (step blocks_hash hash shell ttl now later s (record_name ptr k))
      unfolding step
      record_name-Sound none k now later c = tt
      record_name-Sound (some p) k now later c =
          elim (Option-cases (get_elem? s.cache_table.records p)) [
            | inl dangling ↦ rw (dangling, Sound) tt
            | inr (r, e) ↦ rw (e, Sound) (g, c r.name, sh)
          ]

      pub stack_step :
          {R : Type 0} (q : Queue) (call : JobStack Job → Exec (Call (JobStack Job) R))
          (go : R → Thread A) (parked here : Thread A)
          → ((r : R) → Closes true Any g (go r))
          → Closes true Any g parked
          → Closes true Any g here
          → Sound pre h (
              stack_of blocks_hash hash shell ttl q s >>= λ stack. call stack >>= λ result.
              ok (after_call blocks_hash hash shell ttl q s go parked here result))
      stack_step q call go parked here f p c =
          through (stack_of blocks_hash hash shell ttl q s) _ (λ stack.
            through (call stack) _ (λ result. after_call-Sound q go parked here result f p c))

      pub woken_step :
          {R : Type 0} (q : Queue) (test : JobStack Job → Bool)
          (call : JobStack Job → Call (JobStack Job) R) (go : R → Thread A) (here : Thread A)
          → ((r : R) → Closes true Any g (go r))
          → Closes true Any g here
          → Sound pre h (
              stack_of blocks_hash hash shell ttl q s >>= λ stack.
              if test stack
              then ok (s, here)
              else ok (after_call blocks_hash hash shell ttl q s go here here (call stack)))
      woken_step q test call go here f c =
          through (stack_of blocks_hash hash shell ttl q s) _ (λ stack.
            elim (Bool-cases (test stack)) [
              | inl e ↦ rw e (g, c, sh)
              | inr e ↦ rw e (after_call-Sound q go here here (call stack) f c c)
            ])
