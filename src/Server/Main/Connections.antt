-- ===== src/Server/Main/Connections.antt =====
-- The connections that the running server has accepted.
use mathlib.Core.Path.{subst}
use http_exercise.Base.{
  ℕ, zero, suc, ◌+◌, ◌≤◌, ◌≡◌, refl, Bool, true, List, [], ◌∷◌, Option, none, arith, Bool-cases,
  inl, inr, ◌==◌, if◌then◌else◌, map,
}
use http_exercise.Base.Int.{ℤ, pos, negsuc}
use http_exercise.Exec.{ok, Exec-cases, ok-injective}
use http_exercise.CStr.{Bytes}
use http_exercise.Job.{Job, job_construct, job_clear_buffer}
use http_exercise.JobStack.{job_stack_construct}
use http_exercise.UtHash.{UtHash}
use http_exercise.BlockTable.{TableElement, block_table_create}
use http_exercise.CacheRecord.{is_zero}
use http_exercise.Net.{Net}
use http_exercise.Outside.{Outside}
use http_exercise.Resolver.{Resolver}
use http_exercise.Parsing.Request.{Fields}
use http_exercise.Thread.{Thread}
use http_exercise.Thread.Bears.{AllBear, in_hands, Bears, Bears-mono, by_fd, Owns-Bears}
use http_exercise.Worker.Process.{is_fail}
use http_exercise.Worker.Main.Jobs.{Nothing, worker_main-Owns}
use http_exercise.Server.BlockList.{load_block_list}
use http_exercise.Server.Main.{worker_ids, push_until_taken, accept_loop, listener, set_up}
use http_exercise.Server.Main.Cache.{worker, server_threads}
use http_exercise.Server.Main.Stacks.{set_up-Sound}
use http_exercise.System.{ResourceInfo, create_shared_resource}
use http_exercise.System.Runs.{Reach}
use http_exercise.System.Loads.{load}
use http_exercise.System.Conserved.{jobs_bounded}

-- whether a descriptor is the connection `n`; -1 is none
abbrev pub count_fd : ℕ → ℤ → ℕ
count_fd n (pos m) = if m == n then 1 else 0
count_fd n (negsuc m) = 0

-- the jobs of the connection `n`
abbrev pub of_connection : ℕ → Job → ℕ
of_connection n = by_fd (count_fd n)

-- how often accept returns `n`
abbrev pub accepted : ℕ → List (ℤ × Bool) → ℕ
accepted n [] = 0
accepted n ((fd, signal) ∷ accepts) = count_fd n fd + accepted n accepts

module _ {A : Type 0} (n : ℕ) where
  push_until_taken-Bears :
      (pushes : ℕ) (job : Job) (last : Thread A) (m : ℕ)
      → Bears (of_connection n) m last
      → Bears (of_connection n) (of_connection n job + m) (push_until_taken pushes job last)
  unfolding push_until_taken
  push_until_taken-Bears zero job last m b = tt
  push_until_taken-Bears (suc pushes) job last m b = (
    m,
    omega arith,
    b,
    λ status. elim (Bool-cases (is_fail status)) [
      | inl e ↦ rw e (push_until_taken-Bears pushes job last m b)
      | inr e ↦ rw e (Bears-mono (of_connection n) last m _ (omega arith) b)
    ],
  )

  accept_loop-Bears :
      (again : Thread A)
      → ((m : ℕ) → Bears (of_connection n) m again)
      → (pushes : ℕ) (accepts : List (ℤ × Bool)) (should_shutdown : ℤ)
      → Bears
          (of_connection n)
          (accepted n accepts)
          (accept_loop pushes should_shutdown accepts again)
  unfolding accept_loop job_construct job_clear_buffer
  accept_loop-Bears again c pushes [] flag = elim (Bool-cases (is_zero flag)) [
    | inl e ↦ rw e tt
    | inr e ↦ rw e (c 0)
  ]
  accept_loop-Bears again c pushes ((fd, signal) ∷ accepts) flag =
      elim (Bool-cases (is_zero flag)) [
        | inl e ↦ rw e (
            push_until_taken-Bears pushes (job_construct fd) _ (accepted n accepts)
              (accept_loop-Bears again c pushes accepts _))
        | inr e ↦ rw e (c _)
      ]

  listener-Bears :
      (pushes : ℕ) (accepts : List (ℤ × Bool)) (end : A)
      → Bears (of_connection n) (accepted n accepts) (listener pushes accepts end)
  unfolding listener
  listener-Bears pushes accepts end = accept_loop-Bears _ (λ m. tt) pushes accepts (pos 0)

module _ (blocks_hash : UtHash TableElement) (hash : UtHash ℕ) (shell : Bytes → Bytes) (ttl : ℤ)
    {names : Resolver} (net : Net) (outside : Outside names net) (junk_name : Bytes)
    (junk : ℕ → Bytes) (locals : Fields) (garbage : Option net.File) (rounds fuel : ℕ) where
  workers-AllBear :
      (n : ℕ) (table : blocks_hash.Table) (w : net.World) (ids : List (ℤ × Bool))
      → AllBear (of_connection n) 0 (
          map
            (worker blocks_hash hash shell ttl net outside junk_name junk locals garbage rounds fuel
              table w)
            ids)
  workers-AllBear n table w [] = tt
  workers-AllBear n table w ((thread_id, is_client) ∷ ids) = (
    0,
    0,
    omega arith,
    Owns-Bears (count_fd n) refl Nothing none
        (worker blocks_hash hash shell ttl net outside junk_name junk locals garbage rounds fuel
          table w (thread_id, is_client))
        (worker_main-Owns blocks_hash net outside junk_name junk locals garbage table thread_id
          is_client rounds fuel w),
    workers-AllBear n table w ids,
  )

  -- no job is on a stack when the workers are spawned
  set_up-load :
      (weight : Job → ℕ) (stdout : Bytes) (junk_element : ℕ → Bytes) (entry : Bytes)
      (file : Option Bytes) {s : ResourceInfo blocks_hash hash shell ttl}
      → set_up blocks_hash hash shell ttl true true stdout junk_element entry file ≡ ok s
      → load blocks_hash hash shell ttl weight s ≡ 0
  unfolding set_up create_shared_resource job_stack_construct
  set_up-load weight stdout junk_element entry file e =
      elim (Exec-cases
        (load_block_list blocks_hash junk_element entry file (block_table_create blocks_hash))) [
          | inl f ↦ absurd (ground (arith, rw f at e))
          | inr (loaded, l) ↦
              let made = rw l at e in
              subst
                (λ (s : ResourceInfo blocks_hash hash shell ttl).
                  load blocks_hash hash shell ttl weight s ≡ 0)
                (ok-injective made) refl
        ]

  -- Of the server as it is set up when both stacks could be allocated, with its listener and its
  -- eight workers, in any interleaving of their calls and whatever they receive: the jobs of a
  -- connection that are on the two stacks, and those that a thread is about to push, put back or
  -- destruct, are together no more than the times that accept returns its descriptor. If it
  -- returns it once, at most one thread at a time is about to do so, and then no stack has it.
  pub server_jobs_bounded :
      (stdout : Bytes) (junk_element : ℕ → Bytes) (entry : Bytes) (file : Option Bytes)
      (w : net.World) (pushes : ℕ) (accepts : List (ℤ × Bool))
      {s₀ : ResourceInfo blocks_hash hash shell ttl} {s : ResourceInfo blocks_hash hash shell ttl}
      {ts : List (Thread net.World)}
      → set_up blocks_hash hash shell ttl true true stdout junk_element entry file ≡ ok s₀
      → Reach blocks_hash hash shell ttl s₀
          (server_threads blocks_hash hash shell ttl net outside junk_name junk locals garbage
            rounds fuel s₀.block_table w pushes accepts)
          s
          ts
      → (n : ℕ)
      → load blocks_hash hash shell ttl (of_connection n) s + in_hands (of_connection n) ts
        ≤ accepted n accepts
  server_jobs_bounded stdout junk_element entry file w pushes accepts {s₀} e r n = omega (
    arith,
    set_up-load (of_connection n) stdout junk_element entry file e,
    jobs_bounded blocks_hash hash shell ttl (of_connection n) (accepted n accepts)
        (λ q. set_up-Sound blocks_hash hash shell ttl q stdout junk_element entry file e)
        (
          accepted n accepts,
          0,
          omega arith,
          listener-Bears n pushes accepts w,
          workers-AllBear n s₀.block_table w worker_ids,
        )
        r,
  )
