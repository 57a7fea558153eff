-- ===== src/Worker/Handle/Settled.antt =====
-- What a worker may hold behind a request, and the parts of `handle_valid_request` that close.
use http_exercise.Base.{ℕ, ◌≡◌, refl, List, [], ◌∷◌, Option, none, some, Bool, Bool-cases, inl, inr}
use http_exercise.Base.Int.{ℤ}
use http_exercise.Exec.{Exec, fault, ok}
use http_exercise.Constants.{Status, fail}
use http_exercise.CStr.{Bytes}
use http_exercise.Job.{Job}
use http_exercise.CacheRecord.{ActionStatus, unavailable, should_read, should_write}
use http_exercise.CacheRecord.Grants.{Grants}
use http_exercise.Net.{Net}
use http_exercise.Resolver.{Resolver}
use http_exercise.Outside.{Outside}
use http_exercise.Thread.{Thread, done, close_record, lift, lift_loop, ◌>>=◌}
use http_exercise.Thread.Closes.{granted, Closes, Closes-bind}
use http_exercise.Worker.Format.{cache_file_path}
use http_exercise.Worker.Send.{no_socket}
use http_exercise.Worker.Prefetch.Unconnected.{
  AllUnconnected, Yields, dispatch_prefetch_jobs-AllUnconnected,
}
use http_exercise.Worker.Relay.{relay_response}
use http_exercise.Worker.Handle.{push_jobs, dispatch_file, finish_write, after_relay, after_request}

abbrev pub Same : Grants → Grants → Unit {0} → Type 0
Same g g' _ = g' ≡ g

pub push_jobs-Closes :
    (jobs : Bool) (g : Grants) (pushed : List Job)
    → AllUnconnected pushed
    → Closes jobs (Same g) g (push_jobs pushed)
unfolding push_jobs
push_jobs-Closes jobs g [] all = refl
push_jobs-Closes jobs g (job ∷ pushed) (e, all) =
    (λ only. (refl, e), λ status. push_jobs-Closes jobs g pushed all)

dispatched_jobs-Closes :
    (jobs : Bool) (g : Grants) (run : Exec (List Job))
    → Yields AllUnconnected run
    → Closes jobs (Same g) g (lift run >>= push_jobs)
dispatched_jobs-Closes jobs g fault y = tt
dispatched_jobs-Closes jobs g (ok pushed) y = push_jobs-Closes jobs g pushed y

module _ {names : Resolver} (net : Net) (outside : Outside names net) (junk : ℕ → Bytes)
    (thread_id : ℤ) (jobs : Bool) (w₀ : net.World) where
  open net use {World, File}
  open outside use {open_read, open_write}

  -- The file of a record is not there, in the world that the worker began with: `name` is the name
  -- that the worker was told.
  abbrev pub Missing : Type 0
  Missing =
      (name : Bytes) × (path : Bytes) × (cache_file_path name ≡ ok path)
      × ((open_read path w₀).0 ≡ none)

  -- What a worker that held `g` may hold behind a request: a grant to write is left open only by a
  -- request that failed, and a grant to read only where the file of the record cannot be opened.
  pub data Settled (g : Grants) : Grants → Status → Type 0 where
    all_closed : {status : Status} → Settled g g status
    turned_away : {status : Status} (p : ℕ) → Settled g ((p, unavailable) ∷ g) status
    left_open : (p : ℕ) → Settled g ((p, should_write) ∷ g) fail
    unreadable : {status : Status} (p : ℕ) → Missing → Settled g ((p, should_read) ∷ g) status

  abbrev pub Handled : Grants → Grants → Status × World → Type 0
  Handled g g' r = Settled g g' r.0

  -- an action whose record may stay open
  abbrev pub MayStay : ActionStatus → Type 0
  MayStay unavailable = Unit
  MayStay should_read = Missing
  MayStay should_write = Unit

  pub failed :
      (g : Grants) (action : ActionStatus) (ptr : Option ℕ)
      → MayStay action
      → Settled g (granted action ptr g) fail
  failed g action none stay = all_closed
  failed g unavailable (some p) stay = turned_away p
  failed g should_read (some p) stay = unreadable p stay
  failed g should_write (some p) stay = left_open p

  pub closed_granted :
      (g : Grants) (action : ActionStatus) (ptr : Option ℕ) (r : Status × World)
      → Closes jobs (Handled g) (granted action ptr g) (close_record ptr action (done r))
  closed_granted g action none r = tt
  closed_granted g action (some p) r = ([], g, refl, all_closed)

  pub dispatch_file-Closes :
      (g : Grants) (hostname : Bytes) (file : File) (w : World)
      → Closes jobs (Same g) g (dispatch_file net outside junk thread_id hostname file w)
  unfolding dispatch_file
  dispatch_file-Closes g hostname file w =
      dispatched_jobs-Closes jobs g _ (dispatch_prefetch_jobs-AllUnconnected junk hostname _ _)

  -- a thread that looks for links and then closes the record
  pub dispatched :
      (g : Grants) (action : ActionStatus) (ptr : Option ℕ) (hostname : Bytes) (file : File)
      (w : World) (r : Status × World)
      → Closes jobs (Handled g) (granted action ptr g) (
          dispatch_file net outside junk thread_id hostname file w >>= λ pushed.
          close_record ptr action (done r))
  dispatched g action ptr hostname file w r =
      Closes-bind jobs (Same (granted action ptr g)) (Handled g) (granted action ptr g)
        (dispatch_file net outside junk thread_id hostname file w)
        (λ pushed. close_record ptr action (done r))
        (dispatch_file-Closes (granted action ptr g) hostname file w)
        (λ g' pushed e. rw e (closed_granted g action ptr r))

  pub finish_write-Closes :
      (g : Grants) (job : Job) (hostname : Bytes) (action : ActionStatus) (ptr : Option ℕ)
      (file : Option File) (w : World)
      → MayStay action
      → Closes jobs
          (Handled g)
          (granted action ptr g)
          (finish_write net outside junk thread_id job hostname action ptr file w)
  unfolding finish_write
  finish_write-Closes g job hostname should_write ptr none w stay = tt
  finish_write-Closes g job hostname should_write ptr (some file) w stay =
      elim (Bool-cases (no_socket job.client_socket_fd)) [
        | inl s ↦ rw s (closed_granted g should_write ptr _)
        | inr s ↦ rw s (dispatched g should_write ptr hostname file w _)
      ]
  finish_write-Closes g job hostname unavailable none file w stay = all_closed
  finish_write-Closes g job hostname unavailable (some p) file w stay = turned_away p
  finish_write-Closes g job hostname should_read none file w stay = all_closed
  finish_write-Closes g job hostname should_read (some p) file w stay = unreadable p stay

  pub after_relay-Closes :
      (g : Grants) (job : Job) (hostname : Bytes) (action : ActionStatus) (ptr : Option ℕ)
      (file : Option File) (fd : ℤ) (status : Status) (w : World)
      → MayStay action
      → Closes jobs
          (Handled g)
          (granted action ptr g)
          (after_relay net outside junk thread_id job hostname action ptr file fd status w)
  unfolding after_relay
  after_relay-Closes g job hostname action ptr file fd fail w stay = failed g action ptr stay
  after_relay-Closes g job hostname action ptr file fd _ w stay =
      elim (Bool-cases (no_socket job.client_socket_fd)) [
        | inl s ↦ rw s (finish_write-Closes g job hostname action ptr file w stay)
        | inr s ↦ rw s (finish_write-Closes g job hostname action ptr file w stay)
      ]

  -- a computation of the thread's own, before a thread that may rely on what was granted
  pub computed :
      {A : Type 0} (g h : Grants) (run : Exec A) (rest : A → Thread (Status × World))
      → ((a : A) → Closes jobs (Handled g) h (rest a))
      → Closes jobs (Handled g) h (lift run >>= rest)
  computed g h fault rest f = tt
  computed g h (ok a) rest f = f a

  pub looped :
      {A : Type 0} (g h : Grants) (run : Exec (Option A)) (rest : A → Thread (Status × World))
      → ((a : A) → Closes jobs (Handled g) h (rest a))
      → Closes jobs (Handled g) h (lift_loop run >>= rest)
  looped g h fault rest f = tt
  looped g h (ok none) rest f = tt
  looped g h (ok (some a)) rest f = f a

  pub after_request-Closes :
      (g : Grants) (fuel : ℕ) (job : Job) (hostname : Bytes) (action : ActionStatus)
      (ptr : Option ℕ) (file : Option File) (fd : ℤ) (status : Status) (w : World)
      → MayStay action
      → Closes jobs
          (Handled g)
          (granted action ptr g)
          (after_request net outside junk thread_id fuel job hostname action ptr file fd status w)
  unfolding after_request
  after_request-Closes g fuel job hostname action ptr file fd fail w stay = failed g action ptr stay
  after_request-Closes g fuel job hostname action ptr file fd _ w stay =
      looped g (granted action ptr g) (relay_response net job.client_socket_fd fd file fuel w)
        (λ r. after_relay net outside junk thread_id job hostname action ptr file fd r.0 r.1)
        (λ (r : Status × World). after_relay-Closes g job hostname action ptr file fd r.0 r.1 stay)
