-- ===== src/UtHash.antt =====
-- The calls of uthash.h, a library that the program includes: a table of elements under string
-- keys. HASH_FIND_STR finds an element by its key, HASH_ADD_STR adds one under a key that is not
-- in use, and a null pointer is the empty table.
use http_exercise.Base.{◌≡◌, ◌≢◌, Option, none, some}
use http_exercise.CStr.{Bytes}

pub record UtHash (V : Type 0) : Type 1 where
  pub Table : Type 0
  pub null : Table
  pub find_str : Bytes → Table → Option V
  pub add_str : Bytes → V → Table → Table
  pub find_str-null : (k : Bytes) → find_str k null ≡ none
  pub find_str-add_str_self :
      (k : Bytes) (v : V) (t : Table) → find_str k t ≡ none → find_str k (add_str k v t) ≡ some v
  pub find_str-add_str_ne :
      (k j : Bytes) (v : V) (t : Table)
      → find_str k t ≡ none
      → k ≢ j
      → find_str j (add_str k v t) ≡ find_str j t
