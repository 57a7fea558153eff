-- ===== src/CacheRecord.antt =====
-- cache-record.c and cache-record.h: which client may read a cached file and which may write it.
-- Records live on the heap and the table maps a key to a pointer, so a record that one thread
-- closes is the record that another finds. A call runs under the table's and the record's mutex.
pub mod Grants
pub mod Share
pub mod Reopen
use http_exercise.Base.{
  ℕ, ◌-◌, Bool, true, false, not, ◌&&◌, List, [], ◌∷◌, ◌++◌, Option, none, some, ltb, ◌==◌,
  if◌then◌else◌, length, get_elem?, set,
}
use http_exercise.Base.Int.{ℤ, pos, negsuc, ◌+ℤ◌, ◌-ℤ◌, ltb_ℤ}
use http_exercise.Exec.{Exec, ok, fault, ◌>>=◌}
use http_exercise.CStr.{Bytes, codes, cstr, fgets_from}
use http_exercise.UtHash.{UtHash}

-- `enum action_status`
pub data ActionStatus : Type 0 where
  unavailable should_read should_write : ActionStatus

-- `cache_record_t`, without its mutex and its hash handle
pub record CacheRecord : Type 0 where
  pub name : Bytes
  pub expiration_time : ℤ
  pub write_in_progress : Bool
  pub readers : ℤ

-- URL_MAX_LENGTH
abbrev pub url_max_length : ℕ
url_max_length = 2048

-- the shell command whose output names the record
abbrev pub hash_command : Bytes → Bytes
hash_command url = codes "echo \"" ++ (url ++ codes "\" | md5sum")

-- `fgets(hash_buffer, 32, hash_return)` and the NUL behind it. Where the shell prints nothing the
-- buffer stays as it was, undefined.
unfoldable pub hash_key : Bytes → Exec Bytes
hash_key output = elim ((fgets_from (32 - 1) output).0) [
  | [] ↦ fault
  | c ∷ line ↦ cstr ((c ∷ line) ++ 0 ∷ [])
]

abbrev pub is_zero : ℤ → Bool
is_zero (pos n) = n == 0
is_zero (negsuc n) = false

-- `ttl` is CACHE_TTL, and `shell` what a command prints.
module _ (hash : UtHash ℕ) (shell : Bytes → Bytes) (ttl : ℤ) where
  open hash use {Table, null, find_str, add_str}

  -- `cache_table_t`, and the records that `malloc` has given out, by their pointers
  pub record CacheTable : Type 0 where
    pub content : Table
    pub records : List CacheRecord

  unfoldable pub cache_table_create : CacheTable
  cache_table_create = record { content = null; records = [] }

  unfoldable pub cache_record_create : Bytes → ℤ → CacheRecord
  cache_record_create name now = record {
    name = name;
    expiration_time = now +ℤ ttl;
    write_in_progress = true;
    readers = pos 0;
  }

  -- What a client may do with a record that is there: the ladder under the record's mutex. `now` and
  -- `later` are what the two calls of `time` return.
  unfoldable pub open_record : CacheRecord → ℤ → ℤ → ActionStatus × CacheRecord
  open_record r now later =
      if ltb_ℤ r.expiration_time now && is_zero r.readers && not r.write_in_progress
      then (should_write, record r { write_in_progress = true; expiration_time = later +ℤ ttl })
      else if ltb_ℤ later r.expiration_time && not r.write_in_progress
      then (should_read, record r { readers = r.readers +ℤ pos 1 })
      else (unavailable, r)

  -- HASH_FIND_STR, and a new record or the ladder
  unfoldable pub lookup_record :
      CacheTable → Bytes → ℤ → ℤ → Exec (ActionStatus × Option ℕ × CacheTable)
  lookup_record table key now later = elim (find_str key table.content) [
    | none ↦ ok (
      should_write,
      some (length table.records),
      record {
        content = add_str key (length table.records) table.content;
        records = table.records ++ cache_record_create key now ∷ [];
      },
    )
    | some ptr ↦ elim (get_elem? table.records ptr) [
      | none ↦ fault
      | some r ↦
          let (action, r') = open_record r now later in
          ok (action, some ptr, record table { records = set table.records ptr r' })
    ]
  ]

  -- The status, the pointer that is returned (`none` for NULL), and the table after the call.
  unfoldable pub cache_record_get_or_create :
      CacheTable → Bytes → ℤ → ℤ → Exec (ActionStatus × Option ℕ × CacheTable)
  cache_record_get_or_create table url now later = do
    s ← cstr url
    if ltb url_max_length (length s)
        then ok (unavailable, none, table)
        else (do key ← hash_key (shell (hash_command s)); lookup_record table key now later)

  unfoldable pub close_record : CacheRecord → ActionStatus → CacheRecord
  close_record r should_write = record r { write_in_progress = false }
  close_record r should_read = record r { readers = r.readers -ℤ pos 1 }
  close_record r unavailable = r

  -- A null pointer faults at the record's mutex.
  unfoldable pub cache_record_close : CacheTable → Option ℕ → ActionStatus → Exec CacheTable
  cache_record_close table none status = fault
  cache_record_close table (some ptr) status = elim (get_elem? table.records ptr) [
    | none ↦ fault
    | some r ↦ ok (record table { records = set table.records ptr (close_record r status) })
  ]
