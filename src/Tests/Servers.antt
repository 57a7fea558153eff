-- ===== src/Tests/Servers.antt =====
-- The server as `main` sets it up, behind its first step.
use http_exercise.Thread.{Thread, print, clients}
use http_exercise.Base.{◌≡◌, ◌≤◌, ◌+◌, refl, Bool, true, false, List, [], ◌∷◌, none}
use http_exercise.Base.Int.{ℤ, pos}
use http_exercise.Exec.{ok}
use http_exercise.CStr.{codes, cstr}
use http_exercise.SafeFile.{safe_init, safe_write}
use http_exercise.BlockTable.{block_table_create}
use http_exercise.Server.BlockList.{load_block_list}
use http_exercise.Server.Main.{listener, set_up}
use http_exercise.Server.Main.Cache.{server_threads}
use http_exercise.Server.Main.Connections.{of_connection, accepted, server_jobs_bounded}
use http_exercise.System.Loads.{load}
use http_exercise.Thread.Bears.{in_hands}
use http_exercise.Server.Main.Stacks.{server_stacks-IsRepresented}
use http_exercise.System.Represented.{IsRepresented}
use http_exercise.JobStack.{JobStack}
use http_exercise.Job.{Job}
use http_exercise.System.{ResourceInfo, create_shared_resource, step, stack_of}
use http_exercise.System.Runs.{start, next, here}
use http_exercise.Tests.HashTable.{elements}
use http_exercise.Tests.Pieces.{blank}
use http_exercise.Tests.Hosts.{local}
use http_exercise.Tests.Tables.{pointers, echo_shell}
use http_exercise.Tests.SlowNet.{Traffic, slow_net, nothing}
use http_exercise.Tests.Disk.{slow_disk}
use http_exercise.Tests.Workers.{no_junk}

abbrev pub ready : ResourceInfo elements pointers echo_shell (pos 10)
ready = record (create_shared_resource elements pointers echo_shell (pos 10) true true [] 32 4) {
  block_table = [];
}

pub ready-set_up :
    set_up elements pointers echo_shell (pos 10) true true [] (λ _. []) [] none ≡ ok ready
unfolding set_up load_block_list block_table_create create_shared_resource
ready-set_up = refl

abbrev greeted : ResourceInfo elements pointers echo_shell (pos 10)
greeted = record ready {
  std_out = record { file_o = codes "Server listening for connection\n"; is_freed = false };
}

abbrev pub one_client : List (ℤ × Bool)
one_client = (pos 5, false) ∷ []

first_step :
    {t : Thread Traffic}
    → step elements pointers echo_shell
        (pos 10)
        105
        105
        ready
        (print (codes "Server listening for connection\n") t)
      ≡ ok (greeted, t)
unfolding step create_shared_resource safe_init safe_write cstr
first_step = refl

server_stacks-IsRepresented_example :
    (stack : JobStack Job) × (stack_of elements pointers echo_shell (pos 10) clients greeted
      ≡ ok stack)
    × IsRepresented stack
unfolding listener
server_stacks-IsRepresented_example =
    server_stacks-IsRepresented elements pointers echo_shell (pos 10) slow_net slow_disk local
      no_junk blank none 3 9 [] (λ _. []) [] none nothing 9 one_client ready-set_up
      (next start (here 105 105 first_step)) clients

-- The listener is about to push the connection 5.
abbrev waiting : List (Thread Traffic)
waiting =
    server_threads elements pointers echo_shell (pos 10) slow_net slow_disk local no_junk blank none
      3 9 ready.block_table nothing 9 one_client

abbrev behind_greeting : List (Thread Traffic) → List (Thread Traffic)
behind_greeting (print text t ∷ ts) = t ∷ ts
behind_greeting ts = ts

server_jobs_bounded_example :
    load elements pointers echo_shell (pos 10) (of_connection 5) greeted
      + in_hands (of_connection 5) (behind_greeting waiting)
    ≤ accepted 5 one_client
unfolding listener
server_jobs_bounded_example =
    server_jobs_bounded elements pointers echo_shell (pos 10) slow_net slow_disk local no_junk blank
      none 3 9 [] (λ _. []) [] none nothing 9 one_client ready-set_up
      (next start (here 105 105 first_step)) 5
