-- ===== src/System/Hang.antt =====
-- A stack whose mutex is never unlocked, in the running server.
use mathlib.Core.Option.{some-injective}
use http_exercise.Base.{
  Option, ℕ, zero, suc, ◌≡◌, refl, sym, ap, ◌∙◌, true, false, List, some, get_elem?,
}
use http_exercise.Exec.{ok, ok-injective}
use http_exercise.Constants.{Status, finished}
use http_exercise.CStr.{Bytes}
use http_exercise.Base.Int.{ℤ}
use http_exercise.Job.{Job}
use http_exercise.JobStack.{JobStack, job_stack_push, job_stack_pop}
use http_exercise.UtHash.{UtHash}
use http_exercise.BlockTable.{TableElement}
use http_exercise.Thread.{Queue, prefetches, Thread, push, pop}
use http_exercise.System.{stack_of, put_stack, after_call, step}
use http_exercise.System.Runs.{Info, Move, Reach, here, there, start, next}
use http_exercise.System.Held.{IsHeld, IsHeld-Preserved}
use http_exercise.System.Stays.{Has, Move-Has}

module _ (blocks_hash : UtHash TableElement) (hash : UtHash ℕ) (shell : Bytes → Bytes)
    (ttl : ℤ) where
  -- the mutex of a stack is held
  abbrev Locked : Queue → Info blocks_hash hash shell ttl → Type 0
  Locked = Has blocks_hash hash shell ttl IsHeld IsHeld-Preserved

  -- the state behind a push on a finished stack
  finally :
      (s : Info blocks_hash hash shell ttl) (stack : JobStack Job)
      → Locked prefetches
          (put_stack blocks_hash hash shell ttl prefetches (record stack { mutex = true }) s)
  unfolding stack_of put_stack
  finally s stack = record { stack = record stack { mutex = true }; is = refl; holds = refl }

  module _ {A : Type 0} where
    -- A thread that pops a locked stack stays where it is.
    pop_stays :
        (q : Queue) (s : Info blocks_hash hash shell ttl) (k : Status → Option Job → Thread A)
        (now later : ℕ)
        → Locked q s
        → step blocks_hash hash shell ttl now later s (pop q k) ≡ ok (s, pop q k)
    unfolding step job_stack_pop after_call
    pop_stays q s k now later l = rw (l.is, l.holds) refl

    Move-pop :
        (q : Queue) (i : ℕ) (k : Status → Option Job → Thread A)
        {s : Info blocks_hash hash shell ttl} {ts : List (Thread A)}
        {s' : Info blocks_hash hash shell ttl} {ts' : List (Thread A)}
        → Move blocks_hash hash shell ttl s ts s' ts'
        → Locked q s
        → get_elem? ts i ≡ some (pop q k)
        → get_elem? ts' i ≡ some (pop q k)
    Move-pop q zero k {s} (here now later e) l g =
        let same = rw (some-injective _ _ g) at e in
        ap some (sym (ap (λ r. r.1) (ok-injective (sym (pop_stays q s k now later l) ∙ same))))
    Move-pop q (suc i) k (here now later e) l g = g
    Move-pop q zero k (there m) l g = g
    Move-pop q (suc i) k (there m) l g = Move-pop q i k m l g

    hung :
        (q : Queue) (i : ℕ) (k : Status → Option Job → Thread A)
        (s : Info blocks_hash hash shell ttl) (ts : List (Thread A))
        {s' : Info blocks_hash hash shell ttl} {ts' : List (Thread A)}
        → Reach blocks_hash hash shell ttl s ts s' ts'
        → Locked q s
        → get_elem? ts i ≡ some (pop q k)
        → Locked q s' × (get_elem? ts' i ≡ some (pop q k))
    hung q i k s ts start l g = (l, g)
    hung q i k s ts (next r m) l g =
        let (l', g') = hung q i k s ts r l g in
        (Move-Has blocks_hash hash shell ttl IsHeld IsHeld-Preserved q m l', Move-pop q i k m l' g')

    push_finished :
        (s : Info blocks_hash hash shell ttl) (stack : JobStack Job) (job : Job)
        (k : Status → Thread A) (now later : ℕ)
        → stack_of blocks_hash hash shell ttl prefetches s ≡ ok stack
        → stack.is_finished ≡ true
        → stack.mutex ≡ false
        → step blocks_hash hash shell ttl now later s (push prefetches job k)
          ≡ ok (
            put_stack blocks_hash hash shell ttl prefetches (record stack { mutex = true }) s,
            k finished,
          )
    unfolding step job_stack_push after_call
    push_finished s stack job k now later e f m = rw (e, m, f) refl

    -- When the prefetch stack is finished, a worker that pushes one more prefetch gets FINISHED. From
    -- then on each thread that is about to pop the prefetch stack stands still: in every run, whatever
    -- the threads do and receive, it is at that call for ever.
    pub prefetch_after_finish_hangs :
        (s : Info blocks_hash hash shell ttl) (stack : JobStack Job) (job : Job)
        (k : Status → Thread A) (now later : ℕ)
        → stack_of blocks_hash hash shell ttl prefetches s ≡ ok stack
        → stack.is_finished ≡ true
        → stack.mutex ≡ false
        → (s₁ : Info blocks_hash hash shell ttl) × (step blocks_hash hash shell ttl now later s
              (push prefetches job k)
            ≡ ok (s₁, k finished))
          × ((i : ℕ) (k' : Status → Option Job → Thread A) (ts ts' : List (Thread A))
                (s' : Info blocks_hash hash shell ttl)
              → Reach blocks_hash hash shell ttl s₁ ts s' ts'
              → get_elem? ts i ≡ some (pop prefetches k')
              → get_elem? ts' i ≡ some (pop prefetches k'))
    prefetch_after_finish_hangs s stack job k now later e f m = (
      _,
      push_finished s stack job k now later e f m,
      λ i k' ts ts' s' r g. (hung prefetches i k' _ ts r (finally s stack) g).1,
    )
