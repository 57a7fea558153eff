-- ===== src/Worker/Handle/Stuck.antt =====
-- Requests after which a record stays open, or whose worker crashes.
use http_exercise.Base.{
  inl, inr, ℕ, ◌≡◌, refl, ap, ◌∙◌, true, false, List, [], ◌∷◌, Option, none, some, arith, get_elem?,
  set, get_elem?-set_self, lt-length_of_get_elem?,
}
use http_exercise.Base.Int.{ℤ}
use http_exercise.Exec.{ok, fault, Exec-cases}
use http_exercise.Constants.{Status, success, fail}
use http_exercise.CStr.{Bytes, strchr}
use http_exercise.Job.{Job}
use http_exercise.UtHash.{UtHash}
use http_exercise.BlockTable.{TableElement}
use http_exercise.CacheRecord.{
  ActionStatus, unavailable, should_write, CacheRecord, CacheTable, open_record,
  cache_record_get_or_create, cache_record_close,
}
use http_exercise.CacheRecord.Grants.{Grants}
use http_exercise.CacheRecord.Reopen.{HasKey, get_or_create-eq-lookup, lookup_found}
use http_exercise.Net.{Net}
use http_exercise.Resolver.{Resolver}
use http_exercise.Outside.{Outside}
use http_exercise.Thread.{Thread, done, close_record, print}
use http_exercise.Thread.Closes.{Closes}
use http_exercise.Worker.Send.{no_socket}
use http_exercise.Worker.Format.{cache_file_path, output_line, hit_or_miss}
use http_exercise.Worker.Handle.{fetch, answer_valid_request, report_lookup, handle_valid_request}
use http_exercise.System.{ResourceInfo, step}

-- A record that is being written is given to nobody, and stays as it is.
open_in_progress :
    (hash : UtHash ℕ) (shell : Bytes → Bytes) (ttl : ℤ) (r : CacheRecord) (now later : ℤ)
    → r.write_in_progress ≡ true
    → open_record hash shell ttl r now later ≡ (unavailable, r)
unfolding open_record
open_in_progress hash shell ttl r now later e = ground (arith, e)

module _ {names : Resolver} (net : Net) (outside : Outside names net) (junk : ℕ → Bytes)
    (thread_id : ℤ) where
  open net use {World, File}

  -- The thread has failed and holds its grant to write `p`.
  abbrev pub StillWrites : ℕ → Grants → Status × World → Type 0
  StillWrites p g r = (g ≡ (p, should_write) ∷ []) × (r.0 ≡ fail)

  fetch-StillWrites :
      (fuel : ℕ) (job : Job) (server : List names.Address) (path hostname : Bytes) (p : ℕ)
      (file : Option File) (w : World)
      → ((fd : ℤ) (address : names.Address) (w' : World)
          → (outside.connect fd address w').0 ≡ false)
      → Closes false (StillWrites p) ((p, should_write) ∷ []) (
          fetch net outside junk thread_id fuel job server path hostname should_write
            (some p)
            file
            w)
  unfolding fetch
  fetch-StillWrites fuel job [] path hostname p file w refused = tt
  fetch-StillWrites fuel job (address ∷ _) path hostname p file w refused =
      rw (refused (outside.socket w).0 address (outside.socket w).1) (refl, refl)

  report_lookup-StillWrites :
      (fuel : ℕ) (garbage : Option File) (job : Job) (server : List names.Address)
      (path hostname : Bytes) (w : World) (p : ℕ)
      → ((fd : ℤ) (address : names.Address) (w' : World)
          → (outside.connect fd address w').0 ≡ false)
      → Closes false (StillWrites p) ((p, should_write) ∷ []) (
          report_lookup net outside junk thread_id fuel garbage job server path hostname w
            should_write
            (some p))
  unfolding report_lookup answer_valid_request
  report_lookup-StillWrites fuel garbage job server path hostname w p refused = λ name.
      elim (Exec-cases (cache_file_path name)) [
        | inl f ↦ rw f tt
        | inr (file_path, e) ↦ rw e (
            fetch-StillWrites fuel job server path hostname p (outside.open_write file_path w).0
              (outside.open_write file_path w).1 refused)
      ]

  module _ (hash : UtHash ℕ) (shell : Bytes → Bytes) (ttl : ℤ) where
    open hash use {find_str}

    -- If no server can be reached, a worker that was granted to write a record fails and never closes
    -- it, whatever answers it gets. And as long as a record is not closed, each client that asks for
    -- its URL is turned away, at any time, and the record stays as it is.
    pub connect_refused_stuck :
        (fuel : ℕ) (garbage : Option File) (job : Job) (server : List names.Address)
        (path hostname : Bytes) (w : World) (p : ℕ) (t : CacheTable hash shell ttl)
        {url key : Bytes} {r : CacheRecord}
        → ((fd : ℤ) (address : names.Address) (w' : World)
            → (outside.connect fd address w').0 ≡ false)
        → HasKey hash shell ttl url key
        → find_str key t.content ≡ some p
        → get_elem? t.records p ≡ some r
        → r.write_in_progress ≡ true
        → Closes false (StillWrites p) ((p, should_write) ∷ []) (
            report_lookup net outside junk thread_id fuel garbage job server path hostname w
              should_write
              (some p))
          × ((now later : ℤ)
              → (t' : CacheTable hash shell ttl) × (cache_record_get_or_create hash shell ttl t url
                    now later
                  ≡ ok (unavailable, some p, t'))
                × (get_elem? t'.records p ≡ some r)
                × (t'.content ≡ t.content))
    connect_refused_stuck fuel garbage job server path hostname w p t {url} {key} {r} refused has
          found here busy =
        (
          report_lookup-StillWrites fuel garbage job server path hostname w p refused,
          λ now later. (
            record t { records = set t.records p r },
            get_or_create-eq-lookup hash shell ttl t now later has
                ∙ lookup_found hash shell ttl t key p r now later found here
                ∙ ap
                    (λ (x : ActionStatus × CacheRecord).
                      ok (x.0, some p, record t { records = set t.records p x.1 }))
                    (open_in_progress hash shell ttl r now later busy),
            get_elem?-set_self t.records p r (lt-length_of_get_elem? t.records p here),
            refl,
          ),
        )

  module _ (blocks_hash : UtHash TableElement) (hash : UtHash ℕ) (shell : Bytes → Bytes)
      (ttl : ℤ) where
    -- A prefetch whose path has a question mark is looked up nowhere. The worker prints a line, and
    -- its next call closes the null pointer, which is a crash whatever the state of the server.
    pub prefetch_query_crash :
        (fuel : ℕ) (garbage : Option File) (job : Job) (server : List names.Address)
        (path hostname : Bytes) (w : World) (q : ℕ)
        → no_socket job.client_socket_fd ≡ true
        → strchr path 0 b'?' ≡ ok (some q)
        → (line : Bytes) × (rest : Thread (Status × World)) × (handle_valid_request net outside junk
              thread_id fuel garbage job server path hostname w
            ≡ print line rest)
          × ((now later : ℕ) (s : ResourceInfo blocks_hash hash shell ttl)
              → step blocks_hash hash shell ttl now later s rest ≡ fault)
    unfolding handle_valid_request report_lookup answer_valid_request step cache_record_close
    prefetch_query_crash fuel garbage job server path hostname w q s e = (
      output_line thread_id job.client_socket_fd (hit_or_miss unavailable),
      close_record none unavailable (done (success, w)),
      rw (e, s) refl,
      λ now later st. refl,
    )
