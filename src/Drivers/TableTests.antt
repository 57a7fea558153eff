-- ===== src/Drivers/TableTests.antt =====
-- block-table-test.c and cache-record-test.c, with main of each.
use http_exercise.Base.{ℕ, Bool, List, [], ◌∷◌, ◌++◌, Option, none, some, get_elem?}
use http_exercise.Base.Int.{ℤ, pos, ◌+ℤ◌}
use http_exercise.Exec.{Exec, ok, fault, ◌>>=◌}
use http_exercise.CStr.{Bytes, codes}
use http_exercise.UtHash.{UtHash}
use http_exercise.BlockTable.{TableElement, block_table_create, block_table_add, block_table_check}
use http_exercise.CacheRecord.{
  ActionStatus, should_read, should_write, CacheTable, CacheRecord, cache_table_create,
  cache_record_get_or_create, cache_record_close,
}

-- a string literal as an argument
abbrev pub literal : Bytes → Bytes
literal text = text ++ 0 ∷ []

module _ (hash : UtHash TableElement) where
  -- What is printed for each of the four keys. `junk` is what malloc leaves in an element.
  unfoldable pub single_threaded_add_check_test : Bytes → Exec (List Bool)
  single_threaded_add_check_test junk = do
    one ← block_table_add hash junk (literal (codes "key1")) (block_table_create hash)
    two ← block_table_add hash junk (literal (codes "key2")) one.1
    three ← block_table_add hash junk (literal (codes "key3")) two.1
    first ← block_table_check hash (literal (codes "key1")) three.1
    second ← block_table_check hash (literal (codes "key2")) three.1
    third ← block_table_check hash (literal (codes "key3")) three.1
    fourth ← block_table_check hash (literal (codes "key4")) three.1
    ok (first ∷ second ∷ third ∷ fourth ∷ [])

-- The test sets CACHE_TTL to 1.
module _ (hash : UtHash ℕ) (shell : Bytes → Bytes) where
  abbrev Records : Type 0
  Records = CacheTable hash shell (pos 1)

  unfoldable pub ask_record : Records → ℤ → Exec (ActionStatus × Option ℕ × Records)
  ask_record table now =
      cache_record_get_or_create hash shell (pos 1) table
        (literal (codes "fake.url.com/first.cached.file")) now now

  -- the name that is printed; a null pointer has none
  unfoldable pub name_of : Option ℕ → Records → Exec Bytes
  name_of none table = fault
  name_of (some ptr) table = elim (get_elem? table.records ptr) [
    | none ↦ fault
    | some r ↦ ok r.name
  ]

  -- the names and statuses that are printed, and the record behind the sleep of two seconds
  unfoldable pub test_cache_record : ℤ → Exec (List (Bytes × ActionStatus) × Option CacheRecord)
  test_cache_record now = do
    a ← ask_record (cache_table_create hash shell (pos 1)) now
    name_a ← name_of a.1 a.2
    b ← ask_record a.2 now
    name_b ← name_of b.1 b.2
    written ← cache_record_close hash shell (pos 1) b.2 a.1 should_write
    c ← ask_record written now
    name_c ← name_of c.1 c.2
    d ← ask_record c.2 now
    name_d ← name_of d.1 d.2
    one_read ← cache_record_close hash shell (pos 1) d.2 d.1 should_read
    both_read ← cache_record_close hash shell (pos 1) one_read c.1 should_read
    let idle : Option CacheRecord = elim c.1 [
      | none ↦ none
      | some ptr ↦ get_elem? both_read.records ptr
    ]
    e ← ask_record both_read (now +ℤ pos 2)
    name_e ← name_of e.1 e.2
    last ← cache_record_close hash shell (pos 1) e.2 e.1 should_write
    ok ((name_a, a.0) ∷ (name_b, b.0) ∷ (name_c, c.0) ∷ (name_d, d.0) ∷ (name_e, e.0) ∷ [], idle)
