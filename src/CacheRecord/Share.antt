-- ===== src/CacheRecord/Share.antt =====
-- Readers and the writer of a cached file exclude one another, as long as clients close what they
-- were granted, once.
use native.Mathlib.Decide.{ℕ_discrete}
use mathlib.Core.Path.{subst}
use http_exercise.Base.{
  ℕ, ◌+◌, ◌≤◌, ◌≡◌, refl, List, [], ◌∷◌, ◌++◌, ◌⊎◌, inl, inr, Option, none, some, arith, ltb,
  Bool-cases, Option-cases, ==_refl, get_elem?-length, get_elem?-concat_self, get_elem?-concat_ne,
  length, get_elem?, set,
}
use http_exercise.Base.Int.{ℤ}
use http_exercise.Exec.{Exec, ok, fault, Exec-cases}
use http_exercise.CStr.{Bytes, cstr}
use http_exercise.UtHash.{UtHash}
use http_exercise.CacheRecord.{
  ActionStatus, should_write, CacheRecord, url_max_length, hash_command, hash_key, CacheTable,
  cache_table_create, cache_record_create, open_record, lookup_record, cache_record_get_or_create,
  close_record, cache_record_close,
}
use http_exercise.CacheRecord.Grants.{
  Grants, reads, writes, readers_of, writers_of, readers_of-append, writers_of-append, Agrees,
  Shared, open_record-Agrees, close_record-Agrees, Shared-set, grant_others, release_others,
}

module _ (hash : UtHash ℕ) (shell : Bytes → Bytes) (ttl : ℤ) where
  -- What clients may do: ask for a file, and close, in any order, what a call returned to them.
  pub data Step
      : CacheTable hash shell ttl → Grants → CacheTable hash shell ttl → Grants → Type 0 where
    ask :
        {t t' : CacheTable hash shell ttl} {g : Grants} (url : Bytes) (now later : ℤ)
        (a : ActionStatus) (p : ℕ)
        → cache_record_get_or_create hash shell ttl t url now later ≡ ok (a, some p, t')
        → Step t g t' ((p, a) ∷ g)
    refused :
        {t t' : CacheTable hash shell ttl} {g : Grants} (url : Bytes) (now later : ℤ)
        (a : ActionStatus)
        → cache_record_get_or_create hash shell ttl t url now later ≡ ok (a, none, t')
        → Step t g t' g
    close :
        {t t' : CacheTable hash shell ttl} {before after : Grants} (p : ℕ) (a : ActionStatus)
        (g h : Grants)
        → before ≡ g ++ (p, a) ∷ h
        → after ≡ g ++ h
        → cache_record_close hash shell ttl t (some p) a ≡ ok t'
        → Step t before t' after

  pub data Reach : CacheTable hash shell ttl → Grants → Type 0 where
    start : Reach (cache_table_create hash shell ttl) []
    later :
        {t t' : CacheTable hash shell ttl} {g g' : Grants}
        → Reach t g
        → Step t g t' g'
        → Reach t' g'

  ask_known :
      (t : CacheTable hash shell ttl) (g : Grants) (p : ℕ) (r : CacheRecord) (now late : ℤ)
      → Shared t.records g
      → get_elem? t.records p ≡ some r
      → let (a, r') = open_record hash shell ttl r now late in
        Shared (set t.records p r') ((p, a) ∷ g)
  ask_known t g p r now late s e =
      let (a, r') = open_record hash shell ttl r now late in
      Shared-set t.records p r r' g ((p, a) ∷ g) s e
        (rw (==_refl p) (
          open_record-Agrees hash shell ttl r now late (readers_of p g) (writers_of p g)
            (rw e at (s p))))
        (grant_others p a g)

  ask_new :
      (t : CacheTable hash shell ttl) (g : Grants) (key : Bytes) (now : ℤ)
      → Shared t.records g
      → Shared
          (t.records ++ cache_record_create hash shell ttl key now ∷ [])
          ((length t.records, should_write) ∷ g)
  unfolding cache_record_create
  ask_new t g key now s q = elim (ℕ_discrete (length t.records) q) [
    | yes here ↦
        subst (λ k. Agrees (get_elem? records' k) (readers_of k granted) (writers_of k granted))
          here (rw (get_elem?-concat_self, ==_refl (length t.records)) (ground (arith, fresh)))
    | no there ↦
        let same = grant_others (length t.records) should_write g q there in
        rw (get_elem?-concat_ne t.records _ q there, same.0, same.1) (s q)
  ]
    where
      granted : Grants
      granted = (length t.records, should_write) ∷ g

      records' : List CacheRecord
      records' = t.records ++ cache_record_create hash shell ttl key now ∷ []

      fresh : Agrees none (readers_of (length t.records) g) (writers_of (length t.records) g)
      fresh = rw get_elem?-length at (s (length t.records))

  -- what `cache_record_get_or_create` leaves, whatever it returns
  abbrev pub Granted : Grants → Exec (ActionStatus × Option ℕ × CacheTable hash shell ttl) → Type 0
  Granted g fault = Unit
  Granted g (ok (a, none, t)) = Shared t.records g
  Granted g (ok (a, some p, t)) = Shared t.records ((p, a) ∷ g)

  ask_key :
      (t : CacheTable hash shell ttl) (g : Grants) (key : Bytes) (now late : ℤ)
      → Shared t.records g
      → Granted g (lookup_record hash shell ttl t key now late)
  unfolding lookup_record
  ask_key t g key now late s = elim (Option-cases (hash.find_str key t.content)) [
    | inl absent ↦ rw (absent, Granted) (ask_new t g key now s)
    | inr (p, found) ↦
        rw (found, Granted)
          (elim (Option-cases (get_elem? t.records p)) [
            | inl dangling ↦ rw (dangling, Granted) tt
            | inr (r, e) ↦ rw (e, Granted) (ask_known t g p r now late s e)
          ])
  ]

  pub get_or_create-Granted :
      (t : CacheTable hash shell ttl) (g : Grants) (url : Bytes) (now late : ℤ)
      → Shared t.records g
      → Granted g (cache_record_get_or_create hash shell ttl t url now late)
  unfolding cache_record_get_or_create
  get_or_create-Granted t g url now late s = elim (Exec-cases (cstr url)) [
    | inl f ↦ rw f tt
    | inr (u, e) ↦ rw e (elim (Bool-cases (ltb url_max_length (length u))) [
      | inl long ↦ rw long s
      | inr short ↦ rw short (elim (Exec-cases (hash_key (shell (hash_command u)))) [
        | inl f ↦ rw f tt
        | inr (key, k) ↦ rw k (ask_key t g key now late s)
      ])
    ])
  ]

  abbrev pub Released : Grants → Exec (CacheTable hash shell ttl) → Type 0
  Released g fault = Unit
  Released g (ok t) = Shared t.records g

  readers_of-release :
      (p : ℕ) (a : ActionStatus) (g h : Grants)
      → (readers_of p (g ++ (p, a) ∷ h) ≡ reads a + readers_of p (g ++ h))
        × (writers_of p (g ++ (p, a) ∷ h) ≡ writes a + writers_of p (g ++ h))
  readers_of-release p a g h = ground (
    arith,
    readers_of-append p g h,
    readers_of-append p g ((p, a) ∷ h),
    writers_of-append p g h,
    writers_of-append p g ((p, a) ∷ h),
  )

  pub close-Released :
      (t : CacheTable hash shell ttl) (p : ℕ) (a : ActionStatus) (g h : Grants)
      → Shared t.records (g ++ (p, a) ∷ h)
      → Released (g ++ h) (cache_record_close hash shell ttl t (some p) a)
  unfolding cache_record_close
  close-Released t p a g h s = elim (Option-cases (get_elem? t.records p)) [
    | inl dangling ↦ rw (dangling, Released) tt
    | inr (r, e) ↦
        let n = readers_of p (g ++ h) in
        let m = writers_of p (g ++ h) in
        let counts = readers_of-release p a g h in
        let old : Agrees (some r) (reads a + n) (writes a + m) =
          rw (e, counts.0, counts.1) at (s p) in
        rw (e, Released)
          (Shared-set t.records p r (close_record hash shell ttl r a) (g ++ (p, a) ∷ h) (g ++ h) s e
            (close_record-Agrees hash shell ttl r a n m old) (release_others p a g h))
  ]

  Step-Shared :
      {t t' : CacheTable hash shell ttl} {g g' : Grants}
      → Step t g t' g'
      → Shared t.records g
      → Shared t'.records g'
  Step-Shared {t} {g} (ask url now late a p e) s =
      let done = get_or_create-Granted t g url now late s in rw e at done
  Step-Shared {t} {g} (refused url now late a e) s =
      let done = get_or_create-Granted t g url now late s in rw e at done
  Step-Shared {t} (close p a g h b c e) s =
      rw c (let done = close-Released t p a g h (λ q. rw b at (s q)) in rw e at done)

  Reach-Shared : {t : CacheTable hash shell ttl} {g : Grants} → Reach t g → Shared t.records g
  unfolding cache_table_create
  Reach-Shared start = λ p. (refl, refl)
  Reach-Shared (later r st) = Step-Shared st (Reach-Shared r)

  -- Of the clients that hold a record, in any order of calls from the empty table on, at most one may
  -- write it, and while one may write none may read.
  pub readers_exclude_writer :
      {t : CacheTable hash shell ttl} {g : Grants}
      → Reach t g
      → (p : ℕ) → (writers_of p g ≤ 1) × ((readers_of p g ≡ 0) ⊎ (writers_of p g ≡ 0))
  readers_exclude_writer {t} {g} r p = elim (Option-cases (get_elem? t.records p)) [
    | inl absent ↦
        let none_given : Agrees none (readers_of p g) (writers_of p g) =
          rw absent at (Reach-Shared r p) in
        ground (arith, none_given)
    | inr (c, e) ↦
        let given : Agrees (some c) (readers_of p g) (writers_of p g) =
          rw e at (Reach-Shared r p) in
        ground (arith, given)
  ]
