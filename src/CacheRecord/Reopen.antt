-- ===== src/CacheRecord/Reopen.antt =====
-- One file through its first life: created, written, closed, and asked for again.
use http_exercise.Base.{
  List, refl, ℕ, ◌≤◌, ◌≡◌, ap, ◌∙◌, ◌++◌, [], ◌∷◌, none, some, arith, if◌then◌else◌, le→ltb, length,
  get_elem?, set, get_elem?-set_self, get_elem?-concat_self, lt-length_of_get_elem?,
}
use http_exercise.Base.Int.{ℤ, ◌+ℤ◌, ltb_ℤ}
use http_exercise.Exec.{ok}
use http_exercise.CStr.{Bytes, cstr}
use http_exercise.UtHash.{UtHash}
use http_exercise.CacheRecord.{
  ActionStatus, unavailable, should_read, should_write, CacheRecord, url_max_length, hash_command,
  hash_key, CacheTable, cache_record_create, open_record, lookup_record, cache_record_get_or_create,
  close_record, cache_record_close,
}

-- What a client may do with a file that nobody uses: `now` and `later` are the two clock readings.
abbrev pub status_at : ℤ → ℤ → ℤ → ActionStatus
status_at expiration now later =
    if ltb_ℤ expiration now
    then should_write
    else if ltb_ℤ later expiration
    then should_read
    else unavailable

-- to put another element at the end
set-last : {A : Type 0} (xs : List A) (x y : A) → set (xs ++ x ∷ []) (length xs) y ≡ xs ++ y ∷ []
set-last [] x y = refl
set-last (z ∷ xs) x y = ap (λ l. z ∷ l) (set-last xs x y)

module _ (hash : UtHash ℕ) (shell : Bytes → Bytes) (ttl : ℤ) where
  open hash use {find_str, add_str, find_str-add_str_self}

  -- a URL that is short enough, and the key that the shell gives it
  pub record HasKey (url key : Bytes) : Type 0 where
    pub text : Bytes
    pub is_text : cstr url ≡ ok text
    pub short : length text ≤ url_max_length
    pub is_key : hash_key (shell (hash_command text)) ≡ ok key

  pub get_or_create-eq-lookup :
      (t : CacheTable hash shell ttl) {url key : Bytes} (now later : ℤ)
      → HasKey url key
      → cache_record_get_or_create hash shell ttl t url now later
        ≡ lookup_record hash shell ttl t key now later
  unfolding cache_record_get_or_create
  get_or_create-eq-lookup t now later h =
      rw (h.is_text, le→ltb url_max_length (length h.text) h.short, h.is_key)

  pub lookup_found :
      (t : CacheTable hash shell ttl) (key : Bytes) (p : ℕ) (r : CacheRecord) (now later : ℤ)
      → find_str key t.content ≡ some p
      → get_elem? t.records p ≡ some r
      → let (a, r') = open_record hash shell ttl r now later in
        lookup_record hash shell ttl t key now later
        ≡ ok (a, some p, record t { records = set t.records p r' })
  unfolding lookup_record
  lookup_found t key p r now later f e = rw (f, e, lookup_record)

  abbrev pub created : CacheTable hash shell ttl → Bytes → ℤ → CacheTable hash shell ttl
  created t key now = record {
    content = add_str key (length t.records) t.content;
    records = t.records ++ cache_record_create hash shell ttl key now ∷ [];
  }

  abbrev closed : CacheTable hash shell ttl → Bytes → ℤ → CacheTable hash shell ttl
  closed t key now = record (created t key now) {
    records =
        set (created t key now).records (length t.records)
          (close_record hash shell ttl (cache_record_create hash shell ttl key now) should_write);
  }

  pub lookup_absent :
      (t : CacheTable hash shell ttl) (key : Bytes) (now later : ℤ)
      → find_str key t.content ≡ none
      → lookup_record hash shell ttl t key now later
        ≡ ok (should_write, some (length t.records), created t key now)
  unfolding lookup_record
  lookup_absent t key now later f = rw (f, lookup_record)

  open_unused :
      (key : Bytes) (start now later : ℤ)
      → (open_record hash shell ttl
          (close_record hash shell ttl (cache_record_create hash shell ttl key start) should_write)
          now
          later).0
        ≡ status_at (start +ℤ ttl) now later
  unfolding open_record close_record cache_record_create
  open_unused key start now later = ground arith

  open_in_progress :
      (key : Bytes) (start now later : ℤ)
      → open_record hash shell ttl (cache_record_create hash shell ttl key start) now later
        ≡ (unavailable, cache_record_create hash shell ttl key start)
  unfolding open_record cache_record_create
  open_in_progress key start now later = ground arith

  -- The first client to ask for a URL gets a new record to write. As long as it has not closed the
  -- record each client that asks, at any time, is turned away and changes nothing, so that the
  -- next one finds the same table. When it closes the record the next one may read before the
  -- expiration time, must write after it, and is turned away in the very second of it. All of them
  -- get the same record.
  pub first_life :
      (t : CacheTable hash shell ttl) {url key : Bytes} (start late now later : ℤ)
      → HasKey url key
      → find_str key t.content ≡ none
      → let p = some (length t.records) in
        (t₁ t₂ t₃ : CacheTable hash shell ttl) × (cache_record_get_or_create hash shell ttl t url
            start late
          ≡ ok (should_write, p, t₁))
        × ((n l : ℤ)
            → cache_record_get_or_create hash shell ttl t₁ url n l ≡ ok (unavailable, p, t₁))
        × (cache_record_close hash shell ttl t₁ p should_write ≡ ok t₂)
        × (cache_record_get_or_create hash shell ttl t₂ url now later
            ≡ ok (status_at (start +ℤ ttl) now later, p, t₃))
  unfolding cache_record_close
  first_life t {url} {key} start late now later h f = (
    created t key start,
    closed t key start,
    _,
    get_or_create-eq-lookup t start late h ∙ lookup_absent t key start late f,
    λ n l. turned_away n l,
    rw (here, cache_record_close),
    get_or_create-eq-lookup (closed t key start) now later h
        ∙ lookup_found (closed t key start) key (length t.records) _ now later known there
        ∙ ap
            (λ (a : ActionStatus). ok (
              a,
              some (length t.records),
              record (closed t key start) {
                records =
                    set (closed t key start).records (length t.records)
                      (open_record hash shell ttl
                        (close_record hash shell ttl (cache_record_create hash shell ttl key start)
                          should_write)
                        now later).1;
              },
            ))
            (open_unused key start now later),
  )
    where
      known : find_str key (created t key start).content ≡ some (length t.records)
      known = find_str-add_str_self key (length t.records) t.content f

      here :
          get_elem? (created t key start).records (length t.records)
          ≡ some (cache_record_create hash shell ttl key start)
      here = get_elem?-concat_self t.records (cache_record_create hash shell ttl key start)

      there :
          get_elem? (closed t key start).records (length t.records)
          ≡ some (
              close_record hash shell ttl
                (cache_record_create hash shell ttl key start)
                should_write)
      there =
          get_elem?-set_self (created t key start).records (length t.records) _
            (lt-length_of_get_elem? (created t key start).records (length t.records) here)

      unchanged :
          set
            (created t key start).records
            (length t.records)
            (cache_record_create hash shell ttl key start)
          ≡ (created t key start).records
      unchanged = set-last t.records _ _

      turned_away :
          (n l : ℤ)
          → cache_record_get_or_create hash shell ttl (created t key start) url n l
            ≡ ok (unavailable, some (length t.records), created t key start)
      turned_away n l =
          get_or_create-eq-lookup (created t key start) n l h
          ∙ lookup_found (created t key start) key (length t.records) _ n l known here
          ∙ ap
              (λ (x : ActionStatus × CacheRecord). ok (
                x.0,
                some (length t.records),
                record (created t key start) {
                  records = set (created t key start).records (length t.records) x.1;
                },
              ))
              (open_in_progress key start n l)
          ∙ ap
              (λ (rs : List CacheRecord). ok (
                unavailable,
                some (length t.records),
                record (created t key start) { records = rs },
              ))
              unchanged
