-- ===== src/Server/Main/Stacks.antt =====
-- The stacks of the running server.
use mathlib.Core.Path.{subst}
use http_exercise.Base.{ℕ, ◌≡◌, refl, Bool, true, List, [], Option, some, arith, inl, inr, ◌*◌}
use http_exercise.Base.Int.{ℤ}
use http_exercise.Exec.{ok, Exec-cases, ok-injective}
use http_exercise.CStr.{Bytes}
use http_exercise.Constants.{client_worker_threads, client_job_stack_size}
use http_exercise.Job.{Job}
use http_exercise.JobStack.{JobStack, job_stack_construct}
use http_exercise.UtHash.{UtHash}
use http_exercise.BlockTable.{TableElement, block_table_create}
use http_exercise.Net.{Net}
use http_exercise.Outside.{Outside}
use http_exercise.Resolver.{Resolver}
use http_exercise.Parsing.Request.{Fields}
use http_exercise.Thread.{Queue, clients, prefetches, Thread}
use http_exercise.Server.BlockList.{load_block_list}
use http_exercise.Server.Main.{set_up}
use http_exercise.Server.Main.Cache.{server_threads}
use http_exercise.System.{ResourceInfo, create_shared_resource, stack_of}
use http_exercise.System.Runs.{Reach}
use http_exercise.System.Stays.{Has, Reach-Has}
use http_exercise.System.Represented.{IsRepresented, IsRepresented-Preserved}

-- a stack that has just been constructed
constructed :
    (max_jobs reserve_slots : ℕ)
    → (stack : JobStack Job) × (job_stack_construct true max_jobs reserve_slots ≡ some stack)
      × IsRepresented stack
unfolding job_stack_construct
constructed max_jobs reserve_slots = (
  _,
  refl,
  (
    record { items = []; room = _; bound = max_jobs; is_finished = _; locked = _ },
    record { holds = tt; counts = refl; room = refl; bound = refl; ended = refl; held = refl },
  ),
)

module _ (blocks_hash : UtHash TableElement) (hash : UtHash ℕ) (shell : Bytes → Bytes)
    (ttl : ℤ) where
  abbrev pub Sound : Queue → ResourceInfo blocks_hash hash shell ttl → Type 0
  Sound = Has blocks_hash hash shell ttl IsRepresented IsRepresented-Preserved

  created-Sound :
      (q : Queue) (stdout : Bytes) (table : blocks_hash.Table)
      → Sound q
          (record (create_shared_resource blocks_hash hash shell ttl true true stdout
            client_job_stack_size client_worker_threads) { block_table = table })
  unfolding create_shared_resource stack_of
  created-Sound clients stdout table =
      let (stack, e, r) = constructed client_job_stack_size client_worker_threads in
      record { stack = stack; is = rw e refl; holds = r }
  created-Sound prefetches stdout table =
      let (stack, e, r) = constructed (client_job_stack_size * 4) client_worker_threads in
      record { stack = stack; is = rw e refl; holds = r }

  pub set_up-Sound :
      (q : Queue) (stdout : Bytes) (junk_element : ℕ → Bytes) (entry : Bytes) (file : Option Bytes)
      {s : ResourceInfo blocks_hash hash shell ttl}
      → set_up blocks_hash hash shell ttl true true stdout junk_element entry file ≡ ok s
      → Sound q s
  unfolding set_up create_shared_resource
  set_up-Sound q stdout junk_element entry file e =
      elim (Exec-cases
        (load_block_list blocks_hash junk_element entry file (block_table_create blocks_hash))) [
          | inl f ↦ absurd (ground (arith, rw f at e))
          | inr (loaded, l) ↦
              let made = rw l at e in
              subst (Sound q) (ok-injective made) (created-Sound q stdout loaded.1)
        ]

module _ (blocks_hash : UtHash TableElement) (hash : UtHash ℕ) (shell : Bytes → Bytes) (ttl : ℤ)
    {names : Resolver} (net : Net) (outside : Outside names net) (junk_name : Bytes)
    (junk : ℕ → Bytes) (locals : Fields) (garbage : Option net.File) (rounds fuel : ℕ) where
  -- Of the server as it is set up when both stacks could be allocated, with its listener and its
  -- eight workers, in any interleaving of their calls and whatever they receive: the client
  -- stack and the prefetch stack are both there, and each stands for a list of jobs, top
  -- first. Every slot below its top holds a job, and its top is the length of the list.
  pub server_stacks-IsRepresented :
      (stdout : Bytes) (junk_element : ℕ → Bytes) (entry : Bytes) (file : Option Bytes)
      (w : net.World) (pushes : ℕ) (accepts : List (ℤ × Bool))
      {s₀ : ResourceInfo blocks_hash hash shell ttl} {s : ResourceInfo blocks_hash hash shell ttl}
      {ts : List (Thread net.World)}
      → set_up blocks_hash hash shell ttl true true stdout junk_element entry file ≡ ok s₀
      → Reach blocks_hash hash shell ttl s₀
          (server_threads blocks_hash hash shell ttl net outside junk_name junk locals garbage
            rounds fuel s₀.block_table w pushes accepts)
          s
          ts
      → (q : Queue)
      → (stack : JobStack Job) × (stack_of blocks_hash hash shell ttl q s ≡ ok stack)
        × IsRepresented stack
  server_stacks-IsRepresented stdout junk_element entry file w pushes accepts {s₀} e r q =
      let start = set_up-Sound blocks_hash hash shell ttl q stdout junk_element entry file e in
      let found =
        Reach-Has blocks_hash hash shell ttl IsRepresented IsRepresented-Preserved q s₀ _ r start in
      (found.stack, found.is, found.holds)
