-- ===== src/System/Runs.antt =====
-- Runs of the server: its threads take turns in any order.
use mathlib.Core.List.{append_assoc, append-nil}
use http_exercise.Base.{
  ℕ, ◌≡◌, refl, sym, true, List, [], ◌∷◌, ◌++◌, Option, none, some, arith, get_elem?,
}
use http_exercise.Base.Int.{ℤ, pos}
use http_exercise.Exec.{ok}
use http_exercise.CStr.{Bytes}
use http_exercise.UtHash.{UtHash}
use http_exercise.BlockTable.{TableElement}
use http_exercise.CacheRecord.{CacheRecord}
use http_exercise.CacheRecord.Grants.{Grants, Shared, Agrees}
use http_exercise.Thread.{Thread}
use http_exercise.Thread.Closes.{Closes}
use http_exercise.Worker.Main.Records.{Any}
use http_exercise.System.{ResourceInfo, step}
use http_exercise.System.Calls.{Sound}
use http_exercise.System.Records.{step-Sound}

-- a record as the table may hold it: nobody reads it while it is written
abbrev pub IsSettled : Option CacheRecord → Type 0
IsSettled none = Unit
IsSettled (some r) = (n : ℕ) × (r.readers ≡ pos n) × (r.write_in_progress ≡ true → n ≡ 0)

Agrees-IsSettled : (o : Option CacheRecord) (n m : ℕ) → Agrees o n m → IsSettled o
Agrees-IsSettled none n m a = tt
Agrees-IsSettled (some r) n m a = (n, a.0, λ w. ground (arith, a))

module _ (blocks_hash : UtHash TableElement) (hash : UtHash ℕ) (shell : Bytes → Bytes)
    (ttl : ℤ) where
  abbrev pub Info : Type 0
  Info = ResourceInfo blocks_hash hash shell ttl

  module _ {A : Type 0} where
    -- One of the threads makes a step.
    pub data Move : Info → List (Thread A) → Info → List (Thread A) → Type 0 where
      here :
          {s s' : Info} {t t' : Thread A} {ts : List (Thread A)} (now later : ℕ)
          → step blocks_hash hash shell ttl now later s t ≡ ok (s', t')
          → Move s (t ∷ ts) s' (t' ∷ ts)
      there :
          {s s' : Info} {t : Thread A} {ts ts' : List (Thread A)}
          → Move s ts s' ts'
          → Move s (t ∷ ts) s' (t ∷ ts')

    pub data Reach (s₀ : Info) (ts₀ : List (Thread A)) : Info → List (Thread A) → Type 0 where
      start : Reach s₀ ts₀ s₀ ts₀
      next :
          {s s' : Info} {ts ts' : List (Thread A)}
          → Reach s₀ ts₀ s ts
          → Move s ts s' ts'
          → Reach s₀ ts₀ s' ts'

    -- threads that have been granted nothing
    abbrev pub AllClose : List (Thread A) → Type 0
    AllClose [] = Unit
    AllClose (t ∷ ts) = Closes true Any [] t × AllClose ts

    -- Each thread holds grants that it keeps to, and the table agrees with all of them and `pre`.
    abbrev AllHold : Grants → List (Thread A) → Info → Type 0
    AllHold pre [] s = Shared s.cache_table.records pre
    AllHold pre (t ∷ ts) s = (g : Grants) × Closes true Any g t × AllHold (pre ++ g) ts s

    -- what the threads hold together, and that nothing else of the state matters to them
    record Together (pre : Grants) (ts : List (Thread A)) (s : Info) : Type 0 where
      held : Grants
      agrees : Shared s.cache_table.records (pre ++ held)
      again :
          (pre' : Grants) (s' : Info)
          → Shared s'.cache_table.records (pre' ++ held)
          → AllHold pre' ts s'

    together :
        (pre : Grants) (ts : List (Thread A)) (s : Info) → AllHold pre ts s → Together pre ts s
    together pre [] s a = record {
      held = [];
      agrees = rw (append-nil pre) a;
      again = λ pre' s' sh. rw (append-nil pre') at sh;
    }
    together pre (t ∷ ts) s (g, c, a) =
        let rest = together (pre ++ g) ts s a in
        record {
          held = g ++ rest.held;
          agrees = rw (sym (append_assoc pre g rest.held)) rest.agrees;
          again = λ pre' s' sh.
              (g, c, rest.again (pre' ++ g) s' (rw (append_assoc pre' g rest.held) sh));
        }

    Move-AllHold :
        {s s' : Info} {ts ts' : List (Thread A)} (pre : Grants)
        → Move s ts s' ts'
        → AllHold pre ts s
        → AllHold pre ts' s'
    Move-AllHold pre (there m) (g, c, a) = (g, c, Move-AllHold (pre ++ g) m a)
    Move-AllHold {s} {s'} pre (here {t} {t'} {ts} now later e) (g, c, a) =
        let rest = together (pre ++ g) ts s a in
        let sound : Sound blocks_hash hash shell ttl pre rest.held (ok (s', t')) = rw e at (
          step-Sound blocks_hash hash shell ttl pre g rest.held s t now later c
            (rw (sym (append_assoc pre g rest.held)) rest.agrees)) in
        (
          sound.0,
          sound.1,
          rest.again (pre ++ sound.0) s' (rw (append_assoc pre sound.0 rest.held) sound.2),
        )

    Reach-AllHold :
        {s₀ : Info} {ts₀ : List (Thread A)} {s : Info} {ts : List (Thread A)}
        → AllHold [] ts₀ s₀
        → Reach s₀ ts₀ s ts
        → AllHold [] ts s
    Reach-AllHold a start = a
    Reach-AllHold a (next r m) = Move-AllHold [] m (Reach-AllHold a r)

    -- threads that hold nothing yet, over an empty table
    AllHold-start :
        (ts : List (Thread A)) (s : Info)
        → s.cache_table.records ≡ []
        → AllClose ts
        → AllHold [] ts s
    AllHold-start [] s e c = rw e (λ p. (refl, refl))
    AllHold-start (t ∷ ts) s e c = ([], c.0, AllHold-start ts s e c.1)

    pub table_sound :
        {s₀ : Info} {ts₀ : List (Thread A)} {s : Info} {ts : List (Thread A)}
        → s₀.cache_table.records ≡ []
        → AllClose ts₀
        → Reach s₀ ts₀ s ts
        → (p : ℕ) → IsSettled (get_elem? s.cache_table.records p)
    table_sound {s₀} {ts₀} {s} {ts} e c r p =
        let all = together [] ts s (Reach-AllHold (AllHold-start ts₀ s₀ e c) r) in
        Agrees-IsSettled (get_elem? s.cache_table.records p) _ _ (all.agrees p)
