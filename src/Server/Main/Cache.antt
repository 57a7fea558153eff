-- ===== src/Server/Main/Cache.antt =====
-- The cache table of the running server.
use http_exercise.Base.{
  ℕ, zero, suc, ◌≡◌, ap, sym, Bool, true, List, [], ◌∷◌, Option, Bool-cases, inl, inr, arith,
  get_elem?, map,
}
use http_exercise.Base.Int.{ℤ, pos}
use http_exercise.Exec.{ok, Exec-cases, ok-injective}
use http_exercise.CStr.{Bytes}
use http_exercise.Job.{Job, job_construct}
use http_exercise.UtHash.{UtHash}
use http_exercise.BlockTable.{TableElement, block_table_create}
use http_exercise.CacheRecord.{is_zero, cache_table_create}
use http_exercise.Net.{Net}
use http_exercise.Outside.{Outside}
use http_exercise.Resolver.{Resolver}
use http_exercise.Parsing.Request.{Fields}
use http_exercise.Thread.{Thread}
use http_exercise.Thread.Closes.{Closes}
use http_exercise.Worker.Process.{is_fail}
use http_exercise.Worker.Main.{worker_main}
use http_exercise.Worker.Main.Records.{Any, worker_main-Closes}
use http_exercise.Server.BlockList.{load_block_list}
use http_exercise.Server.Main.{worker_ids, push_until_taken, accept_loop, listener, set_up}
use http_exercise.System.{ResourceInfo, create_shared_resource}
use http_exercise.System.Runs.{Reach, AllClose, IsSettled, table_sound}

module _ {A : Type 0} (again : Thread A) (c : Closes true Any [] again) where
  push_until_taken-Closes :
      (pushes : ℕ) (job : Job) (last : Thread A)
      → Closes true Any [] last
      → Closes true Any [] (push_until_taken pushes job last)
  unfolding push_until_taken
  push_until_taken-Closes zero job last l = tt
  push_until_taken-Closes (suc pushes) job last l = (
    λ only. absurd (ground arith),
    λ status. elim (Bool-cases (is_fail status)) [
      | inl e ↦ rw e (push_until_taken-Closes pushes job last l)
      | inr e ↦ rw e l
    ],
  )

  accept_loop-Closes :
      (pushes : ℕ) (accepts : List (ℤ × Bool)) (should_shutdown : ℤ)
      → Closes true Any [] (accept_loop pushes should_shutdown accepts again)
  unfolding accept_loop
  accept_loop-Closes pushes [] flag = elim (Bool-cases (is_zero flag)) [
    | inl e ↦ rw e tt
    | inr e ↦ rw e c
  ]
  accept_loop-Closes pushes ((fd, signal) ∷ accepts) flag = elim (Bool-cases (is_zero flag)) [
    | inl e ↦
        rw e (
          push_until_taken-Closes pushes (job_construct fd) _ (accept_loop-Closes pushes accepts _))
    | inr e ↦ rw e c
  ]

listener-Closes :
    {A : Type 0} (pushes : ℕ) (accepts : List (ℤ × Bool)) (end : A)
    → Closes true Any [] (listener pushes accepts end)
unfolding listener
listener-Closes pushes accepts end = accept_loop-Closes _ tt pushes accepts (pos 0)

module _ (blocks_hash : UtHash TableElement) (hash : UtHash ℕ) (shell : Bytes → Bytes) (ttl : ℤ)
    {names : Resolver} (net : Net) (outside : Outside names net) (junk_name : Bytes)
    (junk : ℕ → Bytes) (locals : Fields) (garbage : Option net.File) (rounds fuel : ℕ) where
  -- a worker thread, by its id and its kind
  abbrev pub worker : blocks_hash.Table → net.World → ℤ × Bool → Thread net.World
  worker table w (thread_id, is_client) =
      worker_main blocks_hash net outside junk_name junk locals garbage table thread_id is_client
        rounds fuel w

  -- the thread of `main` and the workers
  abbrev pub server_threads :
      blocks_hash.Table → net.World → ℕ → List (ℤ × Bool) → List (Thread net.World)
  server_threads table w pushes accepts =
      listener pushes accepts w ∷ map (worker table w) worker_ids

  workers-AllClose :
      (table : blocks_hash.Table) (w : net.World) (ids : List (ℤ × Bool))
      → AllClose blocks_hash hash shell ttl (map (worker table w) ids)
  workers-AllClose table w [] = tt
  workers-AllClose table w ((thread_id, is_client) ∷ ids) = (
    worker_main-Closes blocks_hash net outside junk_name junk locals garbage table thread_id
        is_client rounds fuel [] w,
    workers-AllClose table w ids,
  )

  set_up-empty :
      (first second : Bool) (stdout : Bytes) (junk_element : ℕ → Bytes) (entry : Bytes)
      (file : Option Bytes) {s : ResourceInfo blocks_hash hash shell ttl}
      → set_up blocks_hash hash shell ttl first second stdout junk_element entry file ≡ ok s
      → s.cache_table.records ≡ []
  unfolding set_up create_shared_resource cache_table_create
  set_up-empty first second stdout junk_element entry file {s} e =
      elim (Exec-cases
        (load_block_list blocks_hash junk_element entry file (block_table_create blocks_hash))) [
          | inl f ↦ absurd (ground (arith, rw f at e))
          | inr (loaded, l) ↦
              let made = rw l at e in
              sym (
                ap (λ (x : ResourceInfo blocks_hash hash shell ttl). x.cache_table.records)
                  (ok-injective made))
        ]

  -- Of the server as it is set up, with its listener and its eight workers, in any interleaving of
  -- their calls and whatever they receive: no reader count is ever below zero, and while a
  -- record is being written nobody is counted as a reader of it.
  pub server_cache-IsSettled :
      (first second : Bool) (stdout : Bytes) (junk_element : ℕ → Bytes) (entry : Bytes)
      (file : Option Bytes) (w : net.World) (pushes : ℕ) (accepts : List (ℤ × Bool))
      {s₀ : ResourceInfo blocks_hash hash shell ttl} {s : ResourceInfo blocks_hash hash shell ttl}
      {ts : List (Thread net.World)}
      → set_up blocks_hash hash shell ttl first second stdout junk_element entry file ≡ ok s₀
      → Reach blocks_hash hash shell ttl s₀ (server_threads s₀.block_table w pushes accepts) s ts
      → (p : ℕ) → IsSettled (get_elem? s.cache_table.records p)
  server_cache-IsSettled first second stdout junk_element entry file w pushes accepts {s₀} e r p =
      table_sound blocks_hash hash shell ttl
        (set_up-empty first second stdout junk_element entry file e)
        (listener-Closes pushes accepts w, workers-AllClose s₀.block_table w worker_ids) r p
