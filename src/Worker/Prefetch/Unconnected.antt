-- ===== src/Worker/Prefetch/Unconnected.antt =====
-- The jobs for the links of a page have no connection.
use http_exercise.Base.{
  ℕ, zero, suc, refl, Bool, ◌||◌, List, [], ◌∷◌, Option, none, some, inl, inr, length, ltb,
  Bool-cases, ◌+◌, ◌++◌, if◌then◌else◌,
}
use http_exercise.Base.Int.{negsuc}
use http_exercise.Exec.{Exec, ok, fault, ◌>>=◌}
use http_exercise.Constants.{Status, success, finished, job_request_buffer_size, max_url_size}
use http_exercise.CStr.{Bytes, cstr, strncpy, codes}
use http_exercise.Job.{Job, job_construct, IsUnconnected}
use http_exercise.Parsing.{matches_command}
use http_exercise.Parsing.Href.{TextFile, find_href}
use http_exercise.Worker.Prefetch.{
  request_job, prefetch_job, dispatch_links, dispatch_prefetch_jobs, dispatch_request,
}

abbrev pub AllUnconnected : List Job → Type 0
AllUnconnected [] = Unit
AllUnconnected (job ∷ jobs) = IsUnconnected job × AllUnconnected jobs

-- what a computation yields has `P`, if it yields anything
abbrev pub Yields : {A : Type 0} → (A → Type 0) → Exec A → Type 0
Yields P fault = Unit
Yields P (ok a) = P a

Yields-bind :
    {A B : Type 0} (P : A → Type 0) (Q : B → Type 0) (m : Exec A) (f : A → Exec B)
    → Yields P m
    → ((a : A) → P a → Yields Q (f a))
    → Yields Q (m >>= f)
Yields-bind P Q fault f y g = tt
Yields-bind P Q (ok a) f y g = g a y

-- of any computation
abbrev Anything : {A : Type 0} → A → Type 0
Anything a = Unit

Yields-any : {A : Type 0} (m : Exec A) → Yields Anything m
Yields-any fault = tt
Yields-any (ok a) = tt

after_any :
    {A B : Type 0} (Q : B → Type 0) (m : Exec A) (f : A → Exec B)
    → ((a : A) → Yields Q (f a))
    → Yields Q (m >>= f)
after_any Q m f g = Yields-bind Anything Q m f (Yields-any m) (λ a _. g a)

request_job-IsUnconnected : (text : Bytes) → Yields IsUnconnected (request_job text)
unfolding request_job job_construct
request_job-IsUnconnected text =
    elim (Bool-cases (ltb (length text) (job_request_buffer_size + max_url_size))) [
      | inl fits ↦ rw fits (
          after_any IsUnconnected
            (strncpy (job_construct (negsuc 0)).request (text ++ 0 ∷ []) 0 job_request_buffer_size)
            (λ request.
              ok (record (job_construct (negsuc 0)) {
                request = request;
                request_tail = length text;
              }))
            (λ request. refl))
      | inr long ↦ rw long tt
    ]

abbrev IsUnconnectedIfAny : Option Job → Type 0
IsUnconnectedIfAny none = Unit
IsUnconnectedIfAny (some job) = IsUnconnected job

prefetch_job-IsUnconnected :
    (hostname found_link : Bytes) → Yields IsUnconnectedIfAny (prefetch_job hostname found_link)
unfolding prefetch_job
prefetch_job-IsUnconnected hostname found_link =
    after_any IsUnconnectedIfAny (matches_command found_link 0 (codes "http://")) _ (λ absolute.
      after_any IsUnconnectedIfAny (matches_command found_link 0 (codes "/")) (made absolute)
        (λ slash. elim (Bool-cases (absolute || slash)) [
          | inl link ↦ rw link (
              after_any IsUnconnectedIfAny (cstr hostname) _ (λ host.
                after_any IsUnconnectedIfAny (cstr found_link) _ (λ address.
                  Yields-bind IsUnconnected IsUnconnectedIfAny
                    (request_job (dispatch_request slash host address)) (λ job. ok (some job))
                    (request_job-IsUnconnected _) (λ job e. e))))
          | inr other ↦ rw other tt
        ]))
  where
    made : Bool → Bool → Exec (Option Job)
    made absolute slash =
        if absolute || slash
        then (do
          host ← cstr hostname
          address ← cstr found_link
          job ← request_job (dispatch_request slash host address)
          ok (some job))
        else ok none

add_job-AllUnconnected :
    (job : Option Job) (rest : List Job)
    → IsUnconnectedIfAny job
    → AllUnconnected rest
    → AllUnconnected (elim job [ none ↦ rest | some j ↦ j ∷ rest ])
add_job-AllUnconnected none rest e all = all
add_job-AllUnconnected (some job) rest e all = (e, all)

dispatch_links-AllUnconnected :
    (fuel : ℕ) (junk : ℕ → Bytes) (hostname : Bytes) (cached_response : TextFile)
    (found_link : Bytes)
    → Yields AllUnconnected (dispatch_links fuel junk hostname cached_response found_link)
unfolding dispatch_links
dispatch_links-AllUnconnected zero junk hostname cached_response found_link = tt
dispatch_links-AllUnconnected (suc fuel) junk hostname cached_response found_link =
    after_any AllUnconnected (find_href (junk fuel) cached_response found_link) _
      (go (dispatch_links-AllUnconnected fuel junk hostname))
  where
    go :
        ((file : TextFile) (link : Bytes)
          → Yields AllUnconnected (dispatch_links fuel junk hostname file link))
        → (found : Status × TextFile × Bytes)
        → Yields AllUnconnected (elim found.0 [
          | finished ↦ ok []
          | success ↦ prefetch_job hostname found.2 >>= λ job.
              dispatch_links fuel junk hostname found.1 found.2 >>= λ rest.
              ok (elim job [ none ↦ rest | some j ↦ j ∷ rest ])
          | _ ↦ dispatch_links fuel junk hostname found.1 found.2
        ])
    go all_rest (finished, file, link) = tt
    go all_rest (success, file, link) =
        Yields-bind IsUnconnectedIfAny AllUnconnected (prefetch_job hostname link) _
          (prefetch_job-IsUnconnected hostname link)
          (λ job e.
            Yields-bind AllUnconnected AllUnconnected (dispatch_links fuel junk hostname file link)
              _ (all_rest file link) (λ rest all. add_job-AllUnconnected job rest e all))
    go all_rest (_, file, link) = all_rest file link

pub dispatch_prefetch_jobs-AllUnconnected :
    (junk : ℕ → Bytes) (hostname : Bytes) (cached_response : TextFile) (found_link : Bytes)
    → Yields AllUnconnected (dispatch_prefetch_jobs junk hostname cached_response found_link)
unfolding dispatch_prefetch_jobs
dispatch_prefetch_jobs-AllUnconnected junk hostname cached_response found_link =
    dispatch_links-AllUnconnected _ junk hostname _ found_link
