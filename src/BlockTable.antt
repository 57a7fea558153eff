-- ===== src/BlockTable.antt =====
-- block-table.c and block-table.h: the set of blocked host names. A call runs under the table's
-- mutex from its lookup to its update, so it is one step here.
pub mod Laws
use http_exercise.Base.{◌-◌, Bool, true, false, Option, none, some}
use http_exercise.Exec.{Exec, ok, fault, ◌>>=◌}
use http_exercise.Constants.{Status, success, max_name_length}
use http_exercise.CStr.{Bytes, cstr, strncpy}
use http_exercise.UtHash.{UtHash}

-- `struct table_element` without its hash handle: the buffer `name`
pub record TableElement : Type 0 where
  pub name : Bytes

module _ (hash : UtHash TableElement) where
  open hash use {Table, null, find_str, add_str}

  unfoldable pub block_table_create : Table
  block_table_create = null

  -- `junk` is what `malloc` leaves in the buffer of the new element, and `name` the caller's buffer.
  -- HASH_ADD_STR takes the key from the element.
  unfoldable pub block_table_add : Bytes → Bytes → Table → Exec (Status × Table)
  block_table_add junk name table = do
    buffer ← strncpy junk name 0 (max_name_length - 1)
    key ← cstr name
    elim (find_str key table) [
      | none ↦ (do
        stored ← cstr buffer
        ok (success, add_str stored (record { name = buffer }) table))
      | some _ ↦ ok (success, table)
    ]

  unfoldable pub block_table_check : Bytes → Table → Exec Bool
  block_table_check name table = do
    key ← cstr name
    ok (elim (find_str key table) [ none ↦ false | some _ ↦ true ])
