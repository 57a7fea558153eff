-- ===== src/Tests/Workers.antt =====
-- Workers at work: a cache hit, a server that cannot be reached, a prefetch that crashes.
use http_exercise.Base.{
  ℕ, ◌≡◌, refl, true, false, List, [], ◌∷◌, ◌++◌, none, some, arith, length-replicate, replicate,
  get_elem?,
}
use http_exercise.Base.Int.{ℤ, pos, negsuc}
use http_exercise.Exec.{ok, fault}
use http_exercise.Constants.{Status, enqueue}
use http_exercise.CStr.{Bytes, codes, strchr, scan, bytes_eq}
use http_exercise.Job.{Job}
use http_exercise.CacheRecord.{unavailable, should_write, CacheTable, cache_record_get_or_create}
use http_exercise.Thread.{Thread, done, crash, print, push, clients}
use http_exercise.Thread.Closes.{Closes}
use http_exercise.Thread.Owns.{Owns}
use http_exercise.Worker.Handle.{send_file, report_lookup, handle_valid_request}
use http_exercise.Worker.Handle.Settled.{Handled}
use http_exercise.Worker.Handle.Releases.{handle_valid_request-Closes}
use http_exercise.Worker.Handle.Hit.{Served, send_file_lem}
use http_exercise.Worker.Handle.Stuck.{StillWrites, connect_refused_stuck, prefetch_query_crash}
use http_exercise.Worker.Process.{process_job}
use http_exercise.Worker.Process.Forever.{failed_accept_forever}
use http_exercise.Worker.Main.{worker_main}
use http_exercise.Server.Main.{accept_loop}
use http_exercise.Parsing.Request.{Fields}
use http_exercise.BlockTable.{TableElement}
use http_exercise.Worker.Main.Jobs.{Nothing, worker_main-Owns}
use http_exercise.System.{ResourceInfo, step}
use http_exercise.Tests.HashTable.{elements}
use http_exercise.Tests.Hosts.{two_addresses, listed, local}
use http_exercise.Tests.Pieces.{blank}
use http_exercise.Tests.Tables.{pointers, echo_shell, url, url-HasKey}
use http_exercise.Tests.SlowNet.{Traffic, slow_net, nothing}
use http_exercise.Tests.Disk.{slow_disk}

abbrev pub no_junk : ℕ → Bytes
no_junk _ = replicate 2049 0

abbrev client : Job
client = record {
  client_socket_fd = pos 5;
  request = replicate 4097 0;
  request_tail = 0;
  expiration_time = 0;
}

abbrev prefetch : Job
prefetch = record client { client_socket_fd = negsuc 0 }

abbrev path : Bytes
path = codes "/a" ++ 0 ∷ []

abbrev query : Bytes
query = codes "/a?b" ++ 0 ∷ []

abbrev host : Bytes
host = codes "host.org" ++ 0 ∷ []

abbrev servers : List ℕ
servers = 0 ∷ []

handle_valid_request-Closes_example :
    Closes true (Handled slow_net slow_disk no_junk (pos 100) true nothing []) [] (
      handle_valid_request slow_net slow_disk no_junk
        (pos 100)
        9
        none
        client
        servers
        path
        host
        nothing)
handle_valid_request-Closes_example =
    handle_valid_request-Closes slow_net slow_disk no_junk (pos 100) true [] 9 none client servers
      path host nothing

abbrev file_left : Traffic
file_left = ([], codes "hello", [])

send_file_lem_example :
    Served slow_net slow_disk no_junk
      (pos 100)
      (pos 5)
      refl
      tt
      (codes "hello")
      []
      (send_file slow_net slow_disk no_junk (pos 100) 6 (pos 5) tt (replicate 4097 0) file_left)
send_file_lem_example =
    send_file_lem slow_net slow_disk no_junk (pos 100) (pos 5) refl tt 6 (replicate 4097 0)
      file_left (length-replicate {A = ℕ} 4097 0) (omega arith)

worker_main-Owns_example : Owns Nothing none (
    worker_main elements slow_net slow_disk local no_junk blank none listed
      (pos 100)
      true
      3
      9
      nothing)
worker_main-Owns_example =
    worker_main-Owns elements slow_net slow_disk local no_junk blank none listed (pos 100) true 3 9
      nothing

abbrev crashing : Job → List ℕ → Bytes → Bytes → Traffic → Thread (Status × Traffic)
crashing _ _ _ _ _ = crash

failed_accept_forever_example :
    (job : Job) × (k : Status → Thread Traffic) × (accept_loop 9
        (pos 0)
        ((negsuc 0, false) ∷ (pos 5, false) ∷ [])
        (done nothing)
      ≡ push clients job k)
    × ((table : List (Bytes × TableElement)) (junk : Bytes) (locals : Fields) (now later : ℕ)
          (w : Traffic)
        → process_job elements two_addresses slow_net crashing table junk locals now later job w
          ≡ ok (done (enqueue, job, w)))
failed_accept_forever_example =
    failed_accept_forever elements two_addresses slow_net crashing 8 false ((pos 5, false) ∷ [])
      (done nothing)

abbrev writing : CacheTable pointers echo_shell (pos 10)
writing = record {
  content = (codes "0123456789abcdef0123456789abcde", 0) ∷ [];
  records =
      record {
        name = codes "0123456789abcdef0123456789abcde";
        expiration_time = pos 110;
        write_in_progress = true;
        readers = pos 0;
      }
      ∷ [];
}

connect_refused_stuck_example :
    Closes false (StillWrites slow_net slow_disk no_junk (pos 100) 0) ((0, should_write) ∷ []) (
      report_lookup slow_net slow_disk no_junk
        (pos 100)
        9
        none
        client
        servers
        path
        host
        nothing
        should_write
        (some 0))
    × ((now later : ℤ)
        → (t' : CacheTable pointers echo_shell (pos 10)) × (cache_record_get_or_create pointers
              echo_shell
              (pos 10)
              writing
              url
              now
              later
            ≡ ok (unavailable, some 0, t'))
          × (get_elem? t'.records 0 ≡ get_elem? writing.records 0)
          × (t'.content ≡ writing.content))
unfolding bytes_eq
connect_refused_stuck_example =
    connect_refused_stuck slow_net slow_disk no_junk (pos 100) pointers echo_shell (pos 10) 9 none
      client servers path host nothing 0 writing (λ _ _ _. refl) url-HasKey refl refl refl

prefetch_query_crash_example :
    (line : Bytes) × (rest : Thread (Status × Traffic)) × (handle_valid_request slow_net slow_disk
        no_junk
        (pos 200)
        9
        none
        prefetch
        servers
        query
        host
        nothing
      ≡ print line rest)
    × ((now later : ℕ) (s : ResourceInfo elements pointers echo_shell (pos 10))
        → step elements pointers echo_shell (pos 10) now later s rest ≡ fault)
unfolding strchr scan
prefetch_query_crash_example =
    prefetch_query_crash slow_net slow_disk no_junk (pos 200) elements pointers echo_shell (pos 10)
      9 none prefetch servers query host nothing 2 refl refl
