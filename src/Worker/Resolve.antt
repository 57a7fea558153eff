-- ===== src/Worker/Resolve.antt =====
-- `resolve_host`: the address of a host, unless its name or all its addresses are blocked. The
-- linked list of addresses is a list, and a pointer into it what is left; NULL is the empty list.
pub mod Blocking
use http_exercise.Base.{
  ℕ, ◌+◌, ◌-◌, Bool, true, false, List, [], ◌∷◌, ◌++◌, Option, none, some, ltb, if◌then◌else◌,
  length, drop,
}
use http_exercise.Exec.{Exec, ok, fault, ◌>>=◌}
use http_exercise.Constants.{max_name_length}
use http_exercise.CStr.{Bytes, codes, cstr, strchr, store, overwrite}
use http_exercise.UtHash.{UtHash}
use http_exercise.Resolver.{Resolver}
use http_exercise.BlockTable.{TableElement, block_table_check}
use http_exercise.Worker.{HostStatus, host_ok, not_found, blocked}

-- `strcpy(dst, src)`
unfoldable pub strcpy : Bytes → Bytes → Exec Bytes
strcpy dst src = do s ← cstr src; overwrite dst (s ++ 0 ∷ [])

module _ (hash : UtHash TableElement) (names : Resolver) where
  open hash use {Table}
  open names use {Address, lookup, print}

  -- `inet_ntop(AF_INET, ..., server_name, MAX_NAME_LENGTH)`. A text with no room is not written.
  unfoldable pub inet_ntop : Address → Bytes → Exec Bytes
  inet_ntop address server_name =
      if ltb (length (print address)) max_name_length
      then overwrite server_name (print address ++ 0 ∷ [])
      else ok server_name

  -- the loop over the addresses
  unfoldable pub check_addresses : Table → Bytes → List Address → Exec (HostStatus × List Address)
  check_addresses table server_name [] = fault
  check_addresses table server_name (address ∷ []) = do
    name ← inet_ntop address server_name
    hit ← block_table_check hash name table
    if hit then ok (blocked, []) else ok (host_ok, address ∷ [])
  check_addresses table server_name (address ∷ next ∷ rest) = do
    name ← inet_ntop address server_name
    hit ← block_table_check hash name table
    if hit then check_addresses table name (next ∷ rest) else ok (host_ok, address ∷ next ∷ rest)

  -- From the check of the name on. `whole` is the local copy of the host name with its colon.
  unfoldable pub resolve_name : Table → Bytes → Bytes → Bytes → Exec (HostStatus × List Address)
  resolve_name table whole server_name server_port = do
    hit ← block_table_check hash server_name table
    if hit then ok (blocked, []) else (do
      name ← cstr server_name
      elim (lookup name server_port) [
        | none ↦ ok (not_found, [])
        | some found ↦ check_addresses table whole found
      ])

  -- `junk` is what the local buffer held before. The colon that is cut off is put back behind the
  -- lookup.
  unfoldable pub resolve_host : Table → Bytes → Bytes → Exec (HostStatus × List Address)
  resolve_host table junk hostname = do
    server_name ← strcpy junk hostname
    colon ← strchr server_name 0 b':'
    elim colon [
      | none ↦ resolve_name table server_name server_name (codes "http")
      | some c ↦ (do
        cut ← store server_name c 0
        server_port ← cstr (drop (c + 1) cut)
        resolve_name table server_name cut server_port)
    ]
