-- ===== src/Tests/Tables.antt =====
-- block-table-test.c and cache-record-test.c, on a hash table that is a list.
use http_exercise.Base.{
  ℕ, ◌≤◌, ◌≡◌, refl, ◌⊎◌, false, ◌||◌, List, [], ◌∷◌, ◌++◌, some, arith, replicate,
}
use http_exercise.Base.Int.{ℤ, pos, ◌+ℤ◌}
use http_exercise.Exec.{ok}
use http_exercise.Constants.{success}
use http_exercise.CStr.{Bytes, codes, cstr, bytes_eq, fgets_from}
use http_exercise.CStr.Scan.{Lacks}
use http_exercise.UtHash.{UtHash}
use http_exercise.Tests.HashTable.{list_hash, elements}
use http_exercise.BlockTable.{TableElement, block_table_add, block_table_check}
use http_exercise.BlockTable.Laws.{blocks_name, block_table_add-check, block_table_add_long}
use http_exercise.CacheRecord.{
  unavailable, should_read, should_write, hash_key, CacheTable, cache_table_create, lookup_record,
  cache_record_get_or_create, cache_record_close,
}
use http_exercise.CacheRecord.Grants.{readers_of, writers_of}
use http_exercise.CacheRecord.Share.{Reach, start, later, ask, readers_exclude_writer}
use http_exercise.CacheRecord.Reopen.{HasKey, first_life}

block_table_add-check_example :
    (t : List (Bytes × TableElement)) × (block_table_add elements
        (replicate 256 7)
        (codes "key1" ++ 0 ∷ [])
        []
      ≡ ok (success, t))
    × ((m tail : Bytes)
        → Lacks 0 m
        → block_table_check elements (m ++ 0 ∷ tail) t
          ≡ ok (bytes_eq (codes "key1") m || blocks_name elements [] m))
block_table_add-check_example =
    block_table_add-check elements (replicate 256 7) (codes "key1") [] [] refl (omega arith)
      (omega arith)

abbrev front : Bytes
front = replicate 255 b'a'

block_table_add_long_example :
    (t : List (Bytes × TableElement)) × (block_table_add elements
        (replicate 255 7 ++ 0 ∷ [])
        (front ++ (b'b' ∷ 0 ∷ []))
        []
      ≡ ok (success, t))
    × ((m : Bytes) → blocks_name elements t m ≡ (bytes_eq front m || blocks_name elements [] m))
    × (blocks_name elements t (front ++ b'b' ∷ []) ≡ false)
block_table_add_long_example =
    block_table_add_long elements (replicate 255 7) front (b'b' ∷ []) [] [] refl refl (omega arith)
      (omega arith) (λ e. ground arith) refl refl

-- a shell that answers every command alike
abbrev pub echo_shell : Bytes → Bytes
echo_shell _ = codes "0123456789abcdef0123456789abcdef  -\n"

abbrev pub pointers : UtHash ℕ
pointers = list_hash ℕ

abbrev pub url : Bytes
url = codes "host.org/a" ++ 0 ∷ []

pub url-HasKey : HasKey pointers echo_shell (pos 10) url (codes "0123456789abcdef0123456789abcde")
unfolding cstr hash_key fgets_from
url-HasKey = record {
  text = codes "host.org/a";
  is_text = refl;
  short = omega arith;
  is_key = refl;
}

abbrev no_records : CacheTable pointers echo_shell (pos 10)
no_records = record { content = []; records = [] }

first_life_example :
    (t₁ t₂ t₃ : CacheTable pointers echo_shell (pos 10)) × (cache_record_get_or_create pointers
        echo_shell
        (pos 10)
        no_records
        url
        (pos 100)
        (pos 100)
      ≡ ok (should_write, some 0, t₁))
    × ((n l : ℤ)
        → cache_record_get_or_create pointers echo_shell (pos 10) t₁ url n l
          ≡ ok (unavailable, some 0, t₁))
    × (cache_record_close pointers echo_shell (pos 10) t₁ (some 0) should_write ≡ ok t₂)
    × (cache_record_get_or_create pointers echo_shell (pos 10) t₂ url (pos 105) (pos 105)
        ≡ ok (should_read, some 0, t₃))
unfolding ◌+ℤ◌
first_life_example =
    first_life pointers echo_shell (pos 10) no_records (pos 100) (pos 100) (pos 105) (pos 105)
      url-HasKey refl

written-Reach :
    (t : CacheTable pointers echo_shell (pos 10)) × Reach pointers echo_shell
      (pos 10)
      t
      ((0, should_write) ∷ [])
unfolding cache_record_get_or_create cstr hash_key fgets_from lookup_record cache_table_create
written-Reach = (_, later start (ask url (pos 100) (pos 100) should_write 0 refl))

readers_exclude_writer_example :
    (writers_of 0 ((0, should_write) ∷ []) ≤ 1)
    × ((readers_of 0 ((0, should_write) ∷ []) ≡ 0) ⊎ (writers_of 0 ((0, should_write) ∷ []) ≡ 0))
readers_exclude_writer_example =
    readers_exclude_writer pointers echo_shell (pos 10) written-Reach.1 0
