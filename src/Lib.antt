-- ===== src/Lib.antt =====
-- HTTP-exercise: a caching, prefetching HTTP proxy in C (README.md).
--
-- A listener thread (server.c) accepts connections and pushes each as a job on a bounded stack.
-- Worker threads (worker.c) pop jobs, read and parse requests (parsing.c), refuse the hosts of a
-- block table (block-table.c), and serve a file from the cache or fetch it, as a table of cache
-- records (cache-record.c) allows. A worker puts a connection that is kept alive back at the bottom
-- of the stack, and pushes a job for every link of a page that it fetched.
--
-- The files and what they model:
--   Base             numbers, Boolean tests and lists that all parts share
--   Exec             the result of running C code: a value, or a fault where C leaves the behaviour
--                    undefined
--   CStr             byte buffers, offsets for pointers, and the functions of string.h and stdio.h
--   Constants        constants.h: `Status` and the sizes
--   Job              job.c, job.h: `Job`, job_construct, job_clear_buffer, job_destruct
--   JobStack         thread-safe-job-stack.c: `JobStack` is job_stack_t, one function per call. The
--                    mutex is a flag and a condition variable two counters; a call returns, waits or
--                    blocks. `push_woken` and `pop_woken` are what a call does behind its wait, and
--                    `push_back_admitted` what job_stack_push_back does behind its read of `finished`,
--                    which is before the lock.
--     Spec           the abstract stack that the calls promise: a list with its top first
--     Refine, Pushes, Pops, Run
--                    how the array holds the list, and the refinement of each call and of any
--                    interleaving of calls
--     Inversion, Occupancy, Load
--                    what the calls do to the number of jobs, to the reserve slots, and to the number
--                    of jobs of a kind
--     Order, Deadlock
--                    the order of jobs, and the push on a finished stack
--   UtHash           the macros of uthash.h that the code calls, as a parameter with laws
--   BlockTable       block-table.c: block_table_create, block_table_add, block_table_check
--   CacheRecord      cache-record.c: cache_table_create, cache_record_create,
--                    cache_record_get_or_create, cache_record_close, over a heap of records.
--                    `lookup_record` and `open_record` are the parts of the third under the table's
--                    and the record's mutex.
--     Grants, Share  what clients hold, and that readers and the writer exclude one another
--     Reopen         the life of a new record
--   Parsing          parsing.c: matches_command, matches_command_case_insensitive
--     Request        parse_request_string, a function per section of it
--     Request/Headers, Host, Path, Line, Target, Url
--                    its loop over the headers, the Host header, the slash at the end of a path, the
--                    request line, and the whole call
--     Response       parse_response_header; Response/Lengths the lengths that it finds
--     Href           find_href; Href/Link the link that it finds
--   Resolver         getaddrinfo and inet_ntop, as a parameter with laws
--   Net              sockets and files, as a parameter with laws
--   Worker           worker.c: `HostStatus`
--     Resolve        resolve_host; Resolve/Blocking what it refuses
--     Send           try_send_in_chunks, cache_and_send, copy_into_buffer; Send/Sent what they send
--     Relay          the part of handle_valid_request that relays a response; Relay/Relayed what the
--                    client and the cache file have got, Relay/Silent a server that stops early
--     Process        process_job, with `handle` for handle_valid_request; Process/Pieces how a
--                    request line is gathered; Process/Refused what a client gets who is refused;
--                    Process/Outcomes how the call may end; Process/Forever the job of a failed accept
--     Prefetch       dispatch_prefetch_jobs: its jobs; Prefetch/Roundtrip what they ask for,
--                    Prefetch/Unconnected that they have no connection
--     Format         the texts that handle_valid_request writes
--     Handle         handle_valid_request, a function for each part of it, and the pushes of
--                    dispatch_prefetch_jobs; Handle/Settled, Handle/Releases the records that it
--                    closes; Handle/Unmoved, Handle/Hit what a client gets from the cache;
--                    Handle/Stuck requests that end badly
--     Main           worker_main; Main/Records the records that a worker closes; Main/Jobs what
--                    becomes of its jobs
--   SafeFile         thread-safe-file.c: `SafeFile` is safe_file_t; safe_init, safe_close, safe_write
--   Thread           what a thread does, as a tree of its calls on shared structures with a branch
--                    for each answer; Thread/Closes, Owns and Bears which records and jobs it has
--   System           `ResourceInfo` is struct resource_info; create_shared_resource,
--                    free_shared_resource, and the step of a thread on what all share
--     Calls, Records, Runs
--                    runs of many threads, and the cache table in them
--     Kept, Stays, Held, Hang, Represented
--                    what no call ends: a mutex that stays held, the list that a stack stands for
--     Loads, Conserved
--                    the jobs of a kind that are on the stacks and with the threads
--   Outside          the files and connections that a worker opens, as a parameter with laws
--   Server           server.c
--     BlockList      load_block_list; BlockList/Loaded what it puts into the table
--     Main           main and shutdown_signal_handler: start_up, set_up, worker_ids, `listener` for
--                    the thread of main up to the joins, shut_down behind them
--     Main/Cache, Main/Stacks, Main/Connections
--                    the cache table, the stacks and the connections of the server that main sets up
--   SlowClient       slow-client.c: writestr, main; SlowClient/Sent what they have sent
--   Experiment       simple-client-experiment.c, test-client-experiment.c; Experiment/Overflow the
--                    end of their buffer
--   Drivers          the test programs
--     ParsingTest    parsing-test.c: its requests and responses
--     TableTests     block-table-test.c, cache-record-test.c
--     HostTests      resolve-host-test.c
--     StackTest      job-stack-test.c: the threads and the pushes of main
--   Tests            runs on concrete inputs; Tests/Drivers runs the test programs
--
-- A call under a mutex is one step: the mutexes of the tables, of the output and of getaddrinfo are
-- released on every path, so they are left out of the state, while that of the job stack is part of
-- it. A worker is a `Thread`: what it computes for itself and does with its sockets and files is a
-- function of the world that it sees, and each call on a shared structure is a node that waits for an
-- answer. What is shown of a `Thread` holds for all answers. In a run of the system the answers are
-- those of the structures, and the threads take turns in any order; what other threads do to the
-- files and sockets of a thread between two of its calls is left out. The links of a page are found
-- before the first is pushed.
--
-- Bounds: the loops of parse_request_string, parse_response_header, find_href (bytes of the buffer
-- and of the file), try_send_in_chunks (bytes to send) and load_block_list (bytes of the file) run
-- on fuel, one more than what each round makes smaller by a byte or more. Fuel that runs out there is
-- a fault, so a smaller number would show as undefined behaviour. Differences of pointers
-- that become a size are taken modulo 2 ^ 64. Counters (top, readers) and times are unbounded: they
-- would overflow only past 2 ^ 31 jobs or readers. The sums of lengths in the relay of a response are
-- C ints, whose overflow is a fault.
--
-- The relay loop ends only while the server keeps sending, so it returns `none` where its fuel runs
-- out, and so do the loop over a cached file (one round for each chunk) and that of the slow client.
-- A thread that has used up its fuel is `loops`; worker_main counts its rounds and its relays.
--
-- Parameters: uthash.h (a vendored library), the shell that runs md5sum, the clock, CACHE_TTL,
-- whether malloc succeeds, the name service, sockets and files, what accept returns and when a signal
-- comes, and what fresh memory and unset variables hold.
--
-- Not modelled: the lines that process_job, dispatch_prefetch_jobs, the start of main and a failed
-- send inside the relay loop print, what is printed under DEBUG_THREADS, pauses and time limits, and the two
-- tests of find_href, which read files. The start of the stack test is left out too. Descriptors are not
-- tracked: closing one changes no state of the model.
pub mod Base
pub mod Exec
pub mod CStr
pub mod Constants
pub mod Job
pub mod JobStack
pub mod UtHash
pub mod BlockTable
pub mod CacheRecord
pub mod Parsing
pub mod Tests
pub mod Resolver
pub mod Net
pub mod Worker
pub mod Server
pub mod SafeFile
pub mod Thread
pub mod Outside
pub mod System
pub mod SlowClient
pub mod Experiment
pub mod Drivers
