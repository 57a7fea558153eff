-- ===== src/Tests/Drivers.antt =====
-- The test drivers, run.
use http_exercise.Base.{
  zero, suc, ℕ, ◌≡◌, ◌≢◌, ◌<◌, refl, true, false, Bool, List, [], ◌∷◌, Option, none, some, arith,
  replicate, get_elem?, set, if◌then◌else◌, length,
}
use http_exercise.Base.Int.{ℤ, pos, negsuc}
use http_exercise.Exec.{Exec, ok, fault, ◌>>=◌}
use http_exercise.Constants.{max_name_length}
use http_exercise.CStr.{Bytes, codes, bytes_eq}
use http_exercise.CStr.Scan.{Lacks}
use http_exercise.Parsing.{malformed}
use http_exercise.Resolver.{Resolver}
use http_exercise.Worker.{HostStatus}
use http_exercise.CacheRecord.{ActionStatus, CacheRecord}
use http_exercise.Thread.{Thread}
use http_exercise.System.{ResourceInfo, create_shared_resource, step}
use http_exercise.Drivers.ParsingTest.{
  Printed, test_parse_response_string, test_parse_request_string,
}
use http_exercise.Drivers.TableTests.{single_threaded_add_check_test, test_cache_record}
use http_exercise.Drivers.HostTests.{test_resolving_sites, test_blocked_sites}
use http_exercise.Drivers.StackTest.{thread_main, stack_test_main}
use http_exercise.CStr.{
  bytes_eq, copied, cstr, fgets_from, load, overwrite, rscan, scan, starts_with,
  starts_with_case_insensitive, store, strchr, strlen, strncpy, strrchr,
}
use http_exercise.Parsing.{matches_command, matches_command_case_insensitive}
use http_exercise.Parsing.Request.{
  capture_host, known_method, parse_header, parse_headers, parse_line, parse_method,
  parse_request_string, parse_url, request_method, request_version, skip_spaces, split_url,
  strip_slash,
}
use http_exercise.Drivers.ParsingTest.{
  request_case, request_cases, response_cases, test_parse_request_string,
  test_parse_response_string,
}
use http_exercise.CStr.Atoi.{atoi, digits, signed, skip_white}
use http_exercise.Parsing.Response.{
  content_length_at, find_content_length, find_double_end, parse_response_header,
}
use http_exercise.BlockTable.{block_table_add, block_table_check, block_table_create}
use http_exercise.Drivers.TableTests.{
  ask_record, name_of, single_threaded_add_check_test, test_cache_record,
}
use http_exercise.CacheRecord.{
  cache_record_close, cache_record_create, cache_record_get_or_create, cache_table_create,
  close_record, hash_key, lookup_record, open_record,
}
use http_exercise.Worker.Resolve.{check_addresses, inet_ntop, resolve_host, resolve_name, strcpy}
use http_exercise.Drivers.HostTests.{statuses, test_blocked_sites, test_resolving_sites}
use http_exercise.System.{
  after_call, create_shared_resource, free_shared_resource, put_stack, stack_of, step,
}
use http_exercise.SafeFile.{safe_close, safe_init, safe_write}
use http_exercise.JobStack.{
  cond_broadcast, cond_signal, cond_wait, job_stack_construct, job_stack_destruct,
  job_stack_get_item, job_stack_pop, job_stack_push, job_stack_push_back, push_back_admitted,
  job_stack_set_item, job_stack_signal_finish, pop_woken, push_woken, shift_up,
}
use http_exercise.Job.{job_clear_buffer, job_construct, job_destruct}
use http_exercise.Drivers.StackTest.{
  after_test_pop, push_all, push_with_output, stack_test_main, thread_main,
}
use http_exercise.Base.Int.{◌+ℤ◌, ◌-ℤ◌}
use http_exercise.Constants.{success}
use http_exercise.Parsing.{dot_one}
use http_exercise.CacheRecord.{unavailable, should_read, should_write}
use http_exercise.Worker.{host_ok, not_found, blocked}
use http_exercise.Tests.HashTable.{elements}
use http_exercise.Tests.Tables.{pointers, echo_shell}

abbrev buffer : Bytes
buffer = replicate 4097 0

abbrev lengths : Exec (List (ℤ × ℤ))
lengths = test_parse_response_string buffer

abbrev printed : Exec (List Printed)
printed = test_parse_request_string (
  buffer,
  record {
    is_get = false;
    hostname = replicate 2048 0;
    path = replicate 2048 0;
    version = malformed;
    proxy_keep_alive = false;
  },
)

abbrev found : Exec (List Bool)
found = single_threaded_add_check_test elements (replicate 256 7)

abbrev cached : Exec (List (Bytes × ActionStatus) × Option CacheRecord)
cached = test_cache_record pointers echo_shell (pos 100)

-- one address for the sites that exist, and another for the site of the test
abbrev site_text : ℕ → Bytes
site_text zero = codes "127.0.0.1"
site_text (suc n) = codes "23.31.83.227"

site_text-Lacks : (n : ℕ) → Lacks 0 (site_text n)
site_text-Lacks zero = omega arith
site_text-Lacks (suc n) = omega arith

site_text-fits : (n : ℕ) → length (site_text n) < max_name_length
site_text-fits zero = omega arith
site_text-fits (suc n) = omega arith

abbrev site : Bytes → Option (List ℕ)
site name =
    if bytes_eq name (codes "no.such.site.com.cn")
    then none
    else if bytes_eq name (codes "foo.prinmath.com")
    then some (1 ∷ [])
    else some (0 ∷ [])

site_found : (name : Bytes) → site name ≢ some []
site_found name e = ground (arith, e)

abbrev sites : Resolver
sites = record {
  Address = ℕ;
  lookup = λ name _. site name;
  print = site_text;
  lookup_some = λ name _. site_found name;
  print_text = site_text-Lacks;
  print_fits = site_text-fits;
}

abbrev resolved : Exec (List HostStatus)
resolved = test_resolving_sites elements sites (replicate 257 0) (replicate 256 7)

abbrev refused : Exec (List HostStatus)
refused = test_blocked_sites elements sites (replicate 257 0) (replicate 256 7)

abbrev Info : Type 0
Info = ResourceInfo elements pointers echo_shell (pos 1)

-- the threads take their steps in a given order
abbrev schedule : List ℕ → Info → List (Thread (Unit {0})) → Exec (Info × List (Thread (Unit {0})))
schedule [] s ts = ok (s, ts)
schedule (i ∷ order) s ts = elim (get_elem? ts i) [
  | none ↦ fault
  | some t ↦ (do
    r ← step elements pointers echo_shell (pos 1) 0 0 s t
    schedule order r.0 (set ts i r.1))
]

-- what has been printed when one job has gone round once
abbrev output : Exec Bytes
output = do
  last ←
      schedule (0 ∷ 0 ∷ 1 ∷ 1 ∷ 1 ∷ 1 ∷ 1 ∷ 1 ∷ 0 ∷ 1 ∷ [])
        (create_shared_resource elements pointers echo_shell (pos 1) true true [] 2 1)
        (stack_test_main 3 (1 ∷ []) ∷ thread_main 9 ∷ [])
  ok last.0.std_out.file_o

-- The second request is not of a version that the parser knows, so its buffers are those of the first.
requests_printed :
    printed
    ≡ ok (
        record {
          result = success;
          is_get = true;
          url = codes "/index.html";
          hostname = codes "none.exist.com";
          version = dot_one;
          keep_alive = true;
        }
        ∷ record {
          result = success;
          is_get = true;
          url = codes "/index.html";
          hostname = codes "none.exist.com";
          version = malformed;
          keep_alive = true;
        }
        ∷ record {
          result = success;
          is_get = true;
          url = codes "/file.jpg";
          hostname = codes "prefetch.job.com";
          version = dot_one;
          keep_alive = false;
        }
        ∷ record {
          result = success;
          is_get = true;
          url = codes "/file.jpg";
          hostname = codes "lazy.request.no.host";
          version = dot_one;
          keep_alive = false;
        }
        ∷ record {
          result = success;
          is_get = true;
          url = codes "/file.jpg";
          hostname = codes "host.name.funky.port:2684";
          version = dot_one;
          keep_alive = false;
        }
        ∷ record {
          result = success;
          is_get = true;
          url = codes "/";
          hostname = codes "all.i.have.is.hostname.com";
          version = dot_one;
          keep_alive = false;
        }
        ∷ [])
unfolding load store scan strchr rscan strrchr cstr strlen copied overwrite strncpy starts_with
    starts_with_case_insensitive fgets_from bytes_eq matches_command
    matches_command_case_insensitive request_version known_method request_method strip_slash
    split_url skip_spaces capture_host parse_header parse_headers parse_url parse_method parse_line
    parse_request_string request_case request_cases test_parse_request_string response_cases
    test_parse_response_string
requests_printed = refl

lengths_printed :
    lengths
    ≡ ok (
        (pos 291, pos 3348)
        ∷ (pos 207, pos 214)
        ∷ (pos 139, negsuc 0)
        ∷ (pos 21, pos 9)
        ∷ (pos 289, pos 41)
        ∷ [])
unfolding load store scan strchr rscan strrchr cstr strlen copied overwrite strncpy starts_with
    starts_with_case_insensitive fgets_from bytes_eq skip_white digits signed atoi matches_command
    matches_command_case_insensitive content_length_at find_content_length find_double_end
    parse_response_header request_case request_cases test_parse_request_string response_cases
    test_parse_response_string
lengths_printed = refl

keys_found : found ≡ ok (true ∷ true ∷ true ∷ false ∷ [])
unfolding load store scan strchr rscan strrchr cstr strlen copied overwrite strncpy starts_with
    starts_with_case_insensitive fgets_from bytes_eq block_table_create block_table_add
    block_table_check single_threaded_add_check_test ask_record name_of test_cache_record
keys_found = refl

abbrev key : Bytes
key = codes "0123456789abcdef0123456789abcde"

cache_printed :
    cached
    ≡ ok (
      (key, should_write)
          ∷ (key, unavailable)
          ∷ (key, should_read)
          ∷ (key, should_read)
          ∷ (key, should_write)
          ∷ [],
      some (record {
        name = key;
        expiration_time = pos 101;
        write_in_progress = false;
        readers = pos 0;
      }),
    )
unfolding ◌+ℤ◌ ◌-ℤ◌ load store scan strchr rscan strrchr cstr strlen copied overwrite strncpy
    starts_with starts_with_case_insensitive fgets_from bytes_eq hash_key cache_table_create
    cache_record_create open_record lookup_record cache_record_get_or_create close_record
    cache_record_close single_threaded_add_check_test ask_record name_of test_cache_record
cache_printed = refl

sites_resolved : resolved ≡ ok (host_ok ∷ host_ok ∷ not_found ∷ host_ok ∷ [])
unfolding load store scan strchr rscan strrchr cstr strlen copied overwrite strncpy starts_with
    starts_with_case_insensitive fgets_from bytes_eq block_table_create block_table_add
    block_table_check strcpy inet_ntop check_addresses resolve_name resolve_host statuses
    test_resolving_sites test_blocked_sites
sites_resolved = refl

sites_refused : refused ≡ ok (blocked ∷ blocked ∷ host_ok ∷ [])
unfolding load store scan strchr rscan strrchr cstr strlen copied overwrite strncpy starts_with
    starts_with_case_insensitive fgets_from bytes_eq block_table_create block_table_add
    block_table_check strcpy inet_ntop check_addresses resolve_name resolve_host statuses
    test_resolving_sites test_blocked_sites
sites_refused = refl

job_goes_round : output ≡ ok (codes "pushing\npopping\nfinishing\n")
unfolding load store scan strchr rscan strrchr cstr strlen copied overwrite strncpy starts_with
    starts_with_case_insensitive fgets_from bytes_eq create_shared_resource free_shared_resource
    stack_of put_stack after_call step safe_init safe_close safe_write cond_wait cond_signal
    cond_broadcast job_stack_construct job_stack_destruct job_stack_get_item job_stack_set_item
    job_stack_push shift_up job_stack_push_back push_back_admitted job_stack_pop
    job_stack_signal_finish push_woken pop_woken job_clear_buffer job_construct job_destruct
    after_test_pop thread_main push_with_output push_all stack_test_main block_table_create
    block_table_add block_table_check
job_goes_round = refl
