-- ===== src/Server/BlockList.antt =====
-- `load_block_list`: the names of a file, one in a line, go into the block table.
pub mod Loaded
use http_exercise.Base.{
  ℕ, zero, suc, ◌+◌, ◌-◌, List, [], ◌∷◌, ◌++◌, Option, none, some, length, drop,
}
use http_exercise.Exec.{Exec, ok, fault, ◌>>=◌}
use http_exercise.Constants.{Status, success, fail, max_url_size}
use http_exercise.CStr.{Bytes, strchr, store, overwrite, fgets_from}
use http_exercise.UtHash.{UtHash}
use http_exercise.BlockTable.{TableElement, block_table_add}

-- The newline that `fgets` has read is cut off.
unfoldable pub cut_line : Bytes → Exec Bytes
cut_line block_list_entry = do
  new_line_char ← strchr block_list_entry 0 b'\n'
  elim new_line_char [ none ↦ ok block_list_entry | some at ↦ store block_list_entry at 0 ]

module _ (hash : UtHash TableElement) where
  open hash use {Table}

  -- The loop over the lines of what is left of the file. `junk` is what `malloc` leaves in the
  -- element of each round and `block_list_entry` the line buffer. A line takes a byte or more of the file, so its
  -- length is fuel enough.
  unfoldable pub load_entries : ℕ → (ℕ → Bytes) → Bytes → Bytes → Table → Exec Table
  load_entries zero junk block_list_entry file table = fault
  load_entries (suc fuel) junk block_list_entry file table =
      let (line, left) = fgets_from (max_url_size - 1) file in
      elim line [
        | [] ↦ ok table
        | c ∷ more ↦ (do
          entry ← overwrite block_list_entry ((c ∷ more) ++ 0 ∷ [])
          name ← cut_line entry
          added ← block_table_add hash (junk fuel) name table
          load_entries fuel junk name left added.1)
      ]

  -- The file is `none` where it cannot be opened.
  unfoldable pub load_block_list :
      (ℕ → Bytes) → Bytes → Option Bytes → Table → Exec (Status × Table)
  load_block_list junk block_list_entry none table = ok (fail, table)
  load_block_list junk block_list_entry (some file) table = do
    loaded ← load_entries (suc (length file)) junk block_list_entry file table
    ok (success, loaded)
