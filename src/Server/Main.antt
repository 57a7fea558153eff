-- ===== src/Server/Main.antt =====
-- `main` and the signal handler: the server is started, takes connections, and shuts down.
pub mod Cache
pub mod Stacks
pub mod Connections
use http_exercise.Base.{
  ℕ, zero, suc, ◌+◌, ◌-◌, ◌%◌, ◌^◌, Bool, true, false, not, List, [], ◌∷◌, ◌++◌, Option, none, some,
  ltb, ◌==◌, map, if◌then◌else◌, length, get_elem?,
}
use http_exercise.Base.Int.{ℤ, pos, negsuc}
use http_exercise.Exec.{Exec, ok, fault, ◌>>=◌}
use http_exercise.Constants.{
  Status, fail, client_worker_threads, prefetch_worker_threads, client_job_stack_size,
}
use http_exercise.CStr.{Bytes, codes}
use http_exercise.CStr.Atoi.{atoi}
use http_exercise.Job.{Job, job_construct}
use http_exercise.UtHash.{UtHash}
use http_exercise.BlockTable.{TableElement}
use http_exercise.CacheRecord.{is_zero}
use http_exercise.SafeFile.{safe_write}
use http_exercise.Server.BlockList.{load_block_list}
use http_exercise.Thread.{Thread, done, loops, push, signal_finish, print, clients, prefetches}
use http_exercise.Worker.Send.{no_socket}
use http_exercise.Worker.Process.{is_fail}
use http_exercise.System.{ResourceInfo, create_shared_resource, free_shared_resource}

-- the value of SHOULD_SHUTDOWN behind a signal
unfoldable pub shutdown_signal_handler : ℤ → ℤ
shutdown_signal_handler sig_num = pos 1

-- The start: the program ends with an exit code, or listens on a socket with a CACHE_TTL.
pub data Startup : Type 0 where
  exits : ℕ → Startup
  listens : ℤ → ℤ → Startup

-- `htons`, up to the order of the bytes: a port has 16 bits
unfoldable pub htons : ℤ → ℕ
htons (pos n) = n % 2 ^ 16
htons (negsuc n) = 2 ^ 16 - 1 - n % 2 ^ 16

-- CACHE_TTL is a global variable and begins as 0.
unfoldable pub cache_ttl : List Bytes → Exec ℤ
cache_ttl (program ∷ port ∷ timeout ∷ []) = atoi timeout
cache_ttl _ = ok (pos 0)

-- `socket` is what socket returns, and `bind` whether a port is free.
unfoldable pub start_up : ℤ → (ℕ → Bool) → List Bytes → Exec Startup
start_up socket bind [] = ok (exits 1)
start_up socket bind (program ∷ []) = ok (exits 1)
start_up socket bind (program ∷ port ∷ more) = do
  ttl ← cache_ttl (program ∷ port ∷ more)
  if no_socket socket
      then ok (exits 1)
      else (do number ← atoi port; ok (if bind (htons number) then listens socket ttl else exits 1))

-- for (i = first; i < first + count; i++): the copies of a struct with the id and the kind of each worker
unfoldable pub thread_ids : ℕ → ℕ → ℕ → Bool → List (ℤ × Bool)
thread_ids zero first base is_client = []
thread_ids (suc count) first base is_client =
    (pos (first + base), is_client) ∷ thread_ids count (suc first) base is_client

unfoldable pub worker_ids : List (ℤ × Bool)
worker_ids =
    thread_ids client_worker_threads 0 100 true
    ++ thread_ids prefetch_worker_threads client_worker_threads 200 false

-- while (ret_status == FAIL), with at most so many pushes
unfoldable pub push_until_taken : {A : Type 0} → ℕ → Job → Thread A → Thread A
push_until_taken zero new_job again = loops
push_until_taken (suc pushes) new_job again =
    let retry = push_until_taken pushes new_job again in
    push clients new_job (λ ret_status. if is_fail ret_status then retry else again)

-- The loop over the connections, for what each call of accept returns and whether a signal comes
-- meanwhile. Where the list ends the thread waits in accept.
unfoldable pub accept_loop : {A : Type 0} → ℕ → ℤ → List (ℤ × Bool) → Thread A → Thread A
accept_loop pushes should_shutdown [] again = if is_zero should_shutdown then loops else again
accept_loop pushes should_shutdown ((connected_fd, signal) ∷ accepts) again =
    let rest =
      accept_loop pushes (if signal then shutdown_signal_handler (pos 15) else should_shutdown)
        accepts again in
    if is_zero should_shutdown
    then push_until_taken pushes (job_construct connected_fd) rest
    else again

-- from the spawn of the workers on, until they are joined
unfoldable pub listener : {A : Type 0} → ℕ → List (ℤ × Bool) → A → Thread A
listener pushes accepts end = print (codes "Server listening for connection\n") (
    accept_loop pushes (pos 0) accepts (
      print (codes "Shutdown signal received\n")
        (signal_finish clients (signal_finish prefetches (done end)))))

module _ (blocks_hash : UtHash TableElement) (hash : UtHash ℕ) (shell : Bytes → Bytes)
    (ttl : ℤ) where
  -- what the threads share when the workers are spawned
  unfoldable pub set_up :
      Bool
      → Bool
      → Bytes
      → (ℕ → Bytes)
      → Bytes
      → Option Bytes
      → Exec (ResourceInfo blocks_hash hash shell ttl)
  set_up first second stdout junk block_list_entry block_list_file =
      let created =
        create_shared_resource blocks_hash hash shell ttl first second stdout client_job_stack_size
          client_worker_threads in
      do
        loaded ←
            load_block_list blocks_hash junk block_list_entry block_list_file created.block_table
        ok (record created { block_table = loaded.1 })

  -- behind the last pthread_join
  unfoldable pub shut_down :
      ResourceInfo blocks_hash hash shell ttl → Exec (ResourceInfo blocks_hash hash shell ttl)
  shut_down resource = do
    std_out ← safe_write resource.std_out (codes "Shutdown complete. Good Bye!\n" ++ 0 ∷ [])
    free_shared_resource blocks_hash hash shell ttl (record resource { std_out = std_out })
