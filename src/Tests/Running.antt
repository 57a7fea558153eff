-- ===== src/Tests/Running.antt =====
-- A server whose client asks for a page: its first steps, up to the record for the page.
use http_exercise.Base.{
  ℕ, zero, suc, ◌≤◌, ◌≡◌, refl, ◌++◌, Bool, true, false, List, [], ◌∷◌, none, some, arith, length,
  take, inl, inr,
}
use mathlib.Core.Option.{some-injective}
use http_exercise.Base.Int.{pos}
use http_exercise.Exec.{Exec, ok, fault, ◌>>=◌, Exec-cases}
use http_exercise.CStr.{Bytes, codes}
use http_exercise.Net.{Net}
use http_exercise.Outside.{Outside}
use http_exercise.CacheRecord.{CacheTable, should_write}
use http_exercise.Thread.{Thread, get_record}
use http_exercise.System.{ResourceInfo, step}
use http_exercise.System.Runs.{IsSettled, Move, here, there, Reach, start, next}
use http_exercise.Server.Main.Cache.{server_cache-IsSettled, server_threads}
use http_exercise.Server.Main.{
  accept_loop, listener, push_until_taken, thread_ids, worker_ids, shutdown_signal_handler,
}
use http_exercise.Worker.Process.{
  add_bytes, add_line, answer_request, empty_response, is_expired, process_job, read_request,
}
use http_exercise.System.{after_call, create_shared_resource, put_stack, stack_of, step}
use http_exercise.Worker.Handle.{
  after_file, after_relay, after_request, answer_valid_request, fetch, handle_valid_request,
  report_lookup,
}
use http_exercise.Worker.Main.{after_pop, after_push_back, dispose, handle, process, worker_main}
use http_exercise.BlockTable.{block_table_check, block_table_create}
use http_exercise.CStr.{
  bytes_eq, copied, cstr, overwrite, rscan, scan, starts_with, starts_with_case_insensitive, store,
  strchr, strlen, strncpy, strrchr,
}
use http_exercise.Worker.Format.{
  cache_file_path, output_line, print_digits, print_int, sprintf, url_buffer,
}
use http_exercise.CacheRecord.{
  cache_record_close, cache_record_create, cache_record_get_or_create, cache_table_create,
  close_record, hash_key, lookup_record, open_record,
}
use http_exercise.Parsing.Request.{
  capture_host, known_method, parse_header, parse_headers, parse_line, parse_method,
  parse_request_string, parse_url, request_method, request_version, split_url, strip_slash,
}
use http_exercise.Worker.Resolve.{check_addresses, inet_ntop, resolve_host, resolve_name, strcpy}
use http_exercise.JobStack.{
  cond_broadcast, cond_signal, cond_wait, job_stack_construct, job_stack_get_item, job_stack_pop,
  job_stack_push, job_stack_set_item, push_back_admitted,
}
use http_exercise.Worker.Send.{copy_into_buffer}
use http_exercise.Parsing.Request.Path.{cut_slash}
use http_exercise.Job.{job_clear_buffer, job_construct}
use http_exercise.Parsing.{matches_command, matches_command_case_insensitive}
use http_exercise.SafeFile.{safe_init, safe_write}
use http_exercise.Base.Int.{◌+ℤ◌}
use http_exercise.CStr.{fgets_from}
use http_exercise.CacheRecord.Reopen.{HasKey, created, get_or_create-eq-lookup, lookup_absent}
use http_exercise.Tests.HashTable.{elements}
use http_exercise.Tests.Pieces.{blank}
use http_exercise.Tests.Hosts.{local, two_addresses}
use http_exercise.Tests.Tables.{pointers, echo_shell}
use http_exercise.Tests.SlowNet.{Traffic, slow_net, nothing, send_two_kept}
use http_exercise.Tests.Disk.{slow_disk}
use http_exercise.Tests.Workers.{no_junk}
use http_exercise.Tests.Servers.{ready, ready-set_up, one_client}

abbrev page_request : Bytes
page_request = codes "GET http://h.o/a HTTP/1.1\r\n\r\n"

request-length : (n : ℕ) (bytes : Bytes) → length (take n bytes) ≤ n
request-length zero bytes = omega arith
request-length (suc n) [] = omega arith
request-length (suc n) (b ∷ bytes) = omega (arith, request-length n bytes)

receive_request :
    (n : ℕ) (t : Traffic) {bytes : Bytes}
    → some (take n page_request) ≡ some bytes
    → (length bytes ≤ n) × (t.2 ++ take n page_request ≡ t.2 ++ bytes)
receive_request n t e =
    let same : take n page_request ≡ _ = some-injective _ _ e in
    rw (← same) (request-length n page_request, refl)

-- the slow network, with a client that asks for a page
abbrev asking_net : Net
asking_net = record slow_net {
  recv = λ _ n t. (some (take n page_request), (t.0, t.1, t.2 ++ take n page_request));
  recv-sent = λ _ _ _ _. refl;
  recv-written = λ _ _ _ _. refl;
  recv_some = λ _ n t e. receive_request n t e;
}

abbrev asking_disk : Outside two_addresses asking_net
asking_disk = record {
  open_read = slow_disk.open_read;
  open_write = slow_disk.open_write;
  fread = slow_disk.fread;
  fclose = slow_disk.fclose;
  text = slow_disk.text;
  socket = slow_disk.socket;
  connect = slow_disk.connect;
  stored = slow_disk.stored;
  unread = slow_disk.unread;
  open_read-unread = λ _ _ _. refl;
  open_read-sent = λ _ _ _. refl;
  fread-bytes = λ _ _ _. refl;
  fread-unread = λ _ _ _. refl;
  fread-sent = λ _ _ _ _. refl;
  fclose-sent = λ _ _ _. refl;
  peek-unread = λ _ _ _. refl;
  send-unread = λ _ bytes _ t. (send_two_kept bytes t).0;
}

abbrev Info : Type 0
Info = ResourceInfo elements pointers echo_shell (pos 10)

-- one step of the thread at an index
abbrev turn : ℕ → Info → List (Thread Traffic) → Exec (Info × List (Thread Traffic))
turn i s [] = fault
turn zero s (t ∷ ts) =
    step elements pointers echo_shell (pos 10) 105 105 s t >>= λ r. ok (r.0, r.1 ∷ ts)
turn (suc i) s (t ∷ ts) = turn i s ts >>= λ r. ok (r.0, t ∷ r.1)

abbrev turns : List ℕ → Info → List (Thread Traffic) → Exec (Info × List (Thread Traffic))
turns [] s ts = ok (s, ts)
turns (i ∷ order) s ts = turn i s ts >>= λ r. turns order r.0 r.1

abbrev Moved : Info → List (Thread Traffic) → Exec (Info × List (Thread Traffic)) → Type 0
Moved s ts fault = Unit
Moved s ts (ok (s', ts')) = Move elements pointers echo_shell (pos 10) s ts s' ts'

turn-Moved : (i : ℕ) (s : Info) (ts : List (Thread Traffic)) → Moved s ts (turn i s ts)
turn-Moved i s [] = tt
turn-Moved zero s (t ∷ ts) =
    elim (Exec-cases (step elements pointers echo_shell (pos 10) 105 105 s t)) [
      | inl e ↦ rw e tt
      | inr (r, e) ↦ rw e (here 105 105 e)
    ]
turn-Moved (suc i) s (t ∷ ts) =
    let moved = turn-Moved i s ts in
    elim (Exec-cases (turn i s ts)) [ inl e ↦ rw e tt | inr (r, e) ↦ rw e (there (rw e at moved)) ]

abbrev Reached : Info → List (Thread Traffic) → Exec (Info × List (Thread Traffic)) → Type 0
Reached s ts fault = Unit
Reached s ts (ok (s', ts')) = Reach elements pointers echo_shell (pos 10) s ts s' ts'

turns-Reached :
    (order : List ℕ) (s₀ : Info) (ts₀ : List (Thread Traffic)) (s : Info)
    (ts : List (Thread Traffic))
    → Reach elements pointers echo_shell (pos 10) s₀ ts₀ s ts
    → Reached s₀ ts₀ (turns order s ts)
turns-Reached [] s₀ ts₀ s ts r = r
turns-Reached (i ∷ order) s₀ ts₀ s ts r =
    let moved = turn-Moved i s ts in
    elim (Exec-cases (turn i s ts)) [
      | inl e ↦ rw e tt
      | inr (now, e) ↦ rw e (turns-Reached order s₀ ts₀ now.0 now.1 (next r (rw e at moved)))
    ]

abbrev threads : List (Thread Traffic)
threads =
    server_threads elements pointers echo_shell (pos 10) asking_net asking_disk local no_junk blank
      none 3 9 ready.block_table nothing 9 one_client

abbrev ran : Exec (Info × List (Thread Traffic)) → Bool
ran fault = false
ran (ok r) = true

abbrev result : Exec (Info × List (Thread Traffic)) → Info × List (Thread Traffic)
result fault = (ready, [])
result (ok r) = r

Reached-result :
    (run : Exec (Info × List (Thread Traffic)))
    → ran run ≡ true
    → Reached ready threads run
    → Reach elements pointers echo_shell (pos 10) ready threads (result run).0 (result run).1
Reached-result fault e r = absurd (ground arith)
Reached-result (ok now) e r = r

-- The listener greets and pushes the connection; a worker takes it, reads the clock twice and the
-- request, and is about to ask for the record of the page.
abbrev begun : Exec (Info × List (Thread Traffic))
begun = turns (0 ∷ 0 ∷ 1 ∷ 1 ∷ 1 ∷ []) ready threads

abbrev page_key : Bytes
page_key = codes "0123456789abcdef0123456789abcde"

-- the second thread asks for the record of the page
abbrev Asks : List (Thread Traffic) → Type 0
Asks (t ∷ get_record url k ∷ ts) = cstr url ≡ ok (codes "h.o/a")
Asks _ = false ≡ true

abbrev empty_table : CacheTable pointers echo_shell (pos 10)
empty_table = record { content = []; records = [] }

begun_computed :
    (ran begun ≡ true) × Asks (result begun).1 × ((result begun).0.cache_table ≡ empty_table)
unfolding accept_loop add_bytes add_line after_call after_file after_pop after_push_back after_relay
    after_request answer_request answer_valid_request block_table_check block_table_create bytes_eq
    cache_file_path cache_record_close cache_record_create cache_record_get_or_create
    cache_table_create capture_host check_addresses close_record cond_broadcast cond_signal
    cond_wait copied copy_into_buffer create_shared_resource cstr cut_slash dispose empty_response
    fetch handle handle_valid_request hash_key inet_ntop is_expired job_clear_buffer job_construct
    job_stack_construct job_stack_get_item job_stack_pop job_stack_push job_stack_set_item
    known_method listener lookup_record matches_command matches_command_case_insensitive open_record
    output_line overwrite parse_header parse_headers parse_line parse_method parse_request_string
    parse_url print_digits print_int process process_job push_back_admitted push_until_taken
    put_stack read_request report_lookup request_method request_version resolve_host resolve_name
    rscan safe_init safe_write scan split_url sprintf stack_of starts_with
    starts_with_case_insensitive step store strchr strcpy strip_slash strlen strncpy strrchr
    thread_ids url_buffer worker_ids worker_main ◌+ℤ◌ shutdown_signal_handler
begun_computed = (refl, refl, refl)

begun-Reach :
    Reach elements pointers echo_shell (pos 10) ready threads (result begun).0 (result begun).1
begun-Reach =
    Reached-result begun begun_computed.0
      (turns-Reached (0 ∷ 0 ∷ 1 ∷ 1 ∷ 1 ∷ []) ready threads ready threads start)

abbrev page_table : CacheTable pointers echo_shell (pos 10)
page_table = created pointers echo_shell (pos 10) empty_table page_key (pos 105)

page-HasKey :
    (url : Bytes) → cstr url ≡ ok (codes "h.o/a") → HasKey pointers echo_shell (pos 10) url page_key
unfolding hash_key fgets_from cstr
page-HasKey url e = record { text = codes "h.o/a"; is_text = e; short = omega arith; is_key = refl }

asked :
    (s : Info) (ts : List (Thread Traffic))
    → Asks ts
    → s.cache_table ≡ empty_table
    → (ts' : List (Thread Traffic)) × (turn 1 s ts
        ≡ ok (record s { cache_table = page_table }, ts'))
unfolding step
asked s (t ∷ get_record url k ∷ ts) e none_yet = (
  t ∷ k should_write (some 0) ∷ ts,
  rw
      (
        none_yet,
        get_or_create-eq-lookup pointers echo_shell (pos 10) empty_table (pos 105) (pos 105)
            (page-HasKey url e),
        lookup_absent pointers echo_shell (pos 10) empty_table page_key (pos 105) (pos 105) refl,
      )
      refl,
)
asked s _ e none_yet = absurd (ground arith)

asked_step :
    (s : Info) (ts : List (Thread Traffic))
    → Asks ts
    → s.cache_table ≡ empty_table
    → (ts' : List (Thread Traffic)) × Move elements pointers echo_shell
        (pos 10)
        s
        ts
        (record s { cache_table = page_table })
        ts'
asked_step s ts e none_yet =
    let moved = turn-Moved 1 s ts in
    let (ts', runs) = asked s ts e none_yet in (ts', rw runs at moved)

server_cache-IsSettled_example : IsSettled (
    some (record {
      name = page_key;
      expiration_time = pos 115;
      write_in_progress = true;
      readers = pos 0;
    }))
unfolding cache_record_create ◌+ℤ◌
server_cache-IsSettled_example =
    server_cache-IsSettled elements pointers echo_shell (pos 10) asking_net asking_disk local
      no_junk blank none 3 9 true true [] (λ _. []) [] none nothing 9 one_client ready-set_up
      (next begun-Reach
        (asked_step (result begun).0 (result begun).1 begun_computed.1 begun_computed.2).1)
      0
