-- ===== src/CacheRecord/Grants.antt =====
-- What clients hold, and how a record agrees with the grants for it.
use native.Mathlib.Decide.{ℕ_discrete}
use http_exercise.Base.{
  ℕ, ◌+◌, ◌≡◌, ◌≢◌, List, [], ◌∷◌, ◌++◌, ◌⊎◌, Option, none, some, arith, ◌==◌, if◌then◌else◌,
  lt-length_of_get_elem?, get_elem?, set, get_elem?-set_self, get_elem?-set_ne,
}
use http_exercise.Base.Int.{ℤ, pos, ◌+ℤ◌, ◌-ℤ◌}
use http_exercise.CStr.{Bytes}
use http_exercise.UtHash.{UtHash}
use http_exercise.CacheRecord.{
  ActionStatus, unavailable, should_read, should_write, CacheRecord, open_record, close_record,
}

-- What clients hold: the pointer and the status that a call returned.
abbrev pub Grants : Type 0
Grants = List (ℕ × ActionStatus)

abbrev pub reads : ActionStatus → ℕ
reads should_read = 1
reads _ = 0

abbrev pub writes : ActionStatus → ℕ
writes should_write = 1
writes _ = 0

-- how many of the grants for `p` are to read, or to write
abbrev pub readers_of : ℕ → Grants → ℕ
readers_of p [] = 0
readers_of p ((q, a) ∷ g) = (if q == p then reads a else 0) + readers_of p g

abbrev pub writers_of : ℕ → Grants → ℕ
writers_of p [] = 0
writers_of p ((q, a) ∷ g) = (if q == p then writes a else 0) + writers_of p g

pub readers_of-append :
    (p : ℕ) (g h : Grants) → readers_of p (g ++ h) ≡ readers_of p g + readers_of p h
readers_of-append p [] h = omega arith
readers_of-append p ((q, a) ∷ g) h = omega (arith, readers_of-append p g h)

pub writers_of-append :
    (p : ℕ) (g h : Grants) → writers_of p (g ++ h) ≡ writers_of p g + writers_of p h
writers_of-append p [] h = omega arith
writers_of-append p ((q, a) ∷ g) h = omega (arith, writers_of-append p g h)

-- A record agrees with the grants for it, and they are one writer, or readers, or none. A pointer
-- that was never given out has no grants.
abbrev pub Agrees : Option CacheRecord → ℕ → ℕ → Type 0
Agrees none reading writing = (reading ≡ 0) × (writing ≡ 0)
Agrees (some r) reading writing =
    (r.readers ≡ pos reading)
    × ((if r.write_in_progress then 1 else 0) ≡ writing)
    × ((reading ≡ 0) ⊎ (writing ≡ 0))

abbrev pub Shared : List CacheRecord → Grants → Type 0
Shared records g = (p : ℕ) → Agrees (get_elem? records p) (readers_of p g) (writers_of p g)

pub Shared-set :
    (records : List CacheRecord) (p : ℕ) (r r' : CacheRecord) (g h : Grants)
    → Shared records g
    → get_elem? records p ≡ some r
    → Agrees (some r') (readers_of p h) (writers_of p h)
    → ((q : ℕ) → p ≢ q → (readers_of q h ≡ readers_of q g) × (writers_of q h ≡ writers_of q g))
    → Shared (set records p r') h
Shared-set records p r r' g h s e new others q = elim (ℕ_discrete p q) [
  | yes here ↦ rw (← here, get_elem?-set_self records p r' (lt-length_of_get_elem? records p e)) new
  | no there ↦
      let same = others q there in rw (get_elem?-set_ne records p q r' there, same.0, same.1) (s q)
]

pub grant_others :
    (p : ℕ) (a : ActionStatus) (g : Grants) (q : ℕ)
    → p ≢ q
    → (readers_of q ((p, a) ∷ g) ≡ readers_of q g) × (writers_of q ((p, a) ∷ g) ≡ writers_of q g)
grant_others p a g q h = ground arith

pub release_others :
    (p : ℕ) (a : ActionStatus) (g h : Grants) (q : ℕ)
    → p ≢ q
    → (readers_of q (g ++ h) ≡ readers_of q (g ++ (p, a) ∷ h))
      × (writers_of q (g ++ h) ≡ writers_of q (g ++ (p, a) ∷ h))
release_others p a g h q n = ground (
  arith,
  readers_of-append q g h,
  readers_of-append q g ((p, a) ∷ h),
  writers_of-append q g h,
  writers_of-append q g ((p, a) ∷ h),
)

module _ (hash : UtHash ℕ) (shell : Bytes → Bytes) (ttl : ℤ) where
  pub open_record-Agrees :
      (r : CacheRecord) (now later : ℤ) (n m : ℕ)
      → Agrees (some r) n m
      → let (a, r') = open_record hash shell ttl r now later in
        Agrees (some r') (reads a + n) (writes a + m)
  unfolding open_record ◌+ℤ◌
  open_record-Agrees r now later n m h = ground arith

  pub close_record-Agrees :
      (r : CacheRecord) (a : ActionStatus) (n m : ℕ)
      → Agrees (some r) (reads a + n) (writes a + m)
      → Agrees (some (close_record hash shell ttl r a)) n m
  unfolding close_record ◌-ℤ◌
  close_record-Agrees r should_write n m h = ground arith
  close_record-Agrees r should_read n m h = ground arith
  close_record-Agrees r unavailable n m h = ground arith
