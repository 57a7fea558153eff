-- ===== src/JobStack/Refine.antt =====
-- The array implements the abstract stack, call by call.
use http_exercise.Base.{
  ℕ, suc, ◌≤◌, ◌<◌, ◌≡◌, refl, ap, ◌∙◌, List, [], ◌∷◌, ◌++◌, Option, some, arith, lt→ltb, le→ltb,
  ◌⊎◌, inl, inr, length, get_elem?, set, length-set, length-append, get_elem?-set_self,
  get_elem?-set_ne,
}
use http_exercise.Exec.{Exec, ok, fault}
use http_exercise.JobStack.{
  Call, returns, waits, blocks, JobStack, job_stack_get_item, job_stack_set_item, shift_up,
}
use http_exercise.JobStack.Spec.{Abstract}

module _ {ℓ} {A : Type ℓ} where
  -- The slots below `length items` hold the items, the bottom of the stack in slot 0.
  abbrev pub Holds : List (Option A) → List A → Type ℓ
  Holds content [] = Unit
  Holds content (a ∷ rest) = (get_elem? content (length rest) ≡ some (some a)) × Holds content rest

  -- The array stack and the abstract stack that it implements.
  pub record Represents (s : JobStack A) (a : Abstract A) : Type ℓ where
    pub holds : Holds s.content_base a.items
    pub counts : s.top ≡ length a.items
    pub room : length s.content_base ≡ a.room
    pub bound : s.max_job_count ≡ a.bound
    pub ended : s.is_finished ≡ a.is_finished
    pub held : s.mutex ≡ a.locked

  -- The two calls fault together, block together, or end in related states with one result.
  pub data CallMatches {κ} (R : Type κ)
      : Call (JobStack A) R → Call (Abstract A) R → Type (ℓ ⊔ κ) where
    returned :
        (r : R) {s : JobStack A} {a : Abstract A}
        → Represents s a
        → CallMatches R (returns r s) (returns r a)
    waited : {s : JobStack A} {a : Abstract A} → Represents s a → CallMatches R (waits s) (waits a)
    blocked : CallMatches R blocks blocks

  pub data Matches {κ} (R : Type κ)
      : Exec (Call (JobStack A) R) → Exec (Call (Abstract A) R) → Type (ℓ ⊔ κ) where
    ran :
        {c : Call (JobStack A) R} {d : Call (Abstract A) R}
        → CallMatches R c d
        → Matches R (ok c) (ok d)
    faulted : Matches R fault fault

  -- A slot from the top on does not matter.
  pub Holds-set_above :
      (content : List (Option A)) (items : List A) (i : ℕ) (x : Option A)
      → length items ≤ i
      → Holds content items
      → Holds (set content i x) items
  Holds-set_above content [] i x h p = tt
  Holds-set_above content (a ∷ rest) i x h p = (
    get_elem?-set_ne content i (length rest) x (omega arith) ∙ p.0,
    Holds-set_above content rest i x (omega arith) p.1,
  )

  -- the items one slot up, above a slot 0 that is left as it was
  abbrev pub HoldsUp : List (Option A) → List A → Type ℓ
  HoldsUp content [] = Unit
  HoldsUp content (a ∷ rest) =
      (get_elem? content (suc (length rest)) ≡ some (some a)) × HoldsUp content rest

  HoldsUp-set_above :
      (content : List (Option A)) (items : List A) (i : ℕ) (x : Option A)
      → length items < i
      → HoldsUp content items
      → HoldsUp (set content i x) items
  HoldsUp-set_above content [] i x h p = tt
  HoldsUp-set_above content (a ∷ rest) i x h p = (
    get_elem?-set_ne content i (suc (length rest)) x (omega arith) ∙ p.0,
    HoldsUp-set_above content rest i x (omega arith) p.1,
  )

  pub job_stack_get_item_lem :
      (content : List (Option A)) (i : ℕ) {a : A}
      → get_elem? content i ≡ some (some a)
      → job_stack_get_item content i ≡ ok a
  unfolding job_stack_get_item
  job_stack_get_item_lem content i e = rw (e, job_stack_get_item)

  pub job_stack_set_item_lem :
      (content : List (Option A)) (i : ℕ) (a : A)
      → i < length content
      → job_stack_set_item content i a ≡ ok (set content i (some a))
  unfolding job_stack_set_item
  job_stack_set_item_lem content i a h = rw (lt→ltb i (length content) h)

  pub job_stack_set_item_out :
      (content : List (Option A)) (i : ℕ) (a : A)
      → length content ≤ i
      → job_stack_set_item content i a ≡ fault
  unfolding job_stack_set_item
  job_stack_set_item_out content i a h = rw (le→ltb i (length content) h)

  -- the loop of `job_stack_push_back`, over an array with a slot to spare
  pub record Shifted (content : List (Option A)) (items : List A) (moved : List (Option A))
      : Type ℓ where
    pub up : HoldsUp moved items
    pub same_length : length moved ≡ length content
    pub above : (j : ℕ) → length items < j → get_elem? moved j ≡ get_elem? content j

  pub shift_up-Shifted :
      (content : List (Option A)) (items : List A)
      → length items < length content
      → Holds content items
      → (moved : List (Option A)) × (shift_up content (length items) ≡ ok moved)
        × Shifted content items moved
  unfolding shift_up
  shift_up-Shifted content [] h p =
      (content, refl, record { up = tt; same_length = refl; above = λ j _. refl })
  shift_up-Shifted content (a ∷ rest) h p =
      let set' : List (Option A) = set content (suc (length rest)) (some a) in
      let e : length set' ≡ length content = length-set content (suc (length rest)) (some a) in
      let (moved, runs, shifted) =
        shift_up-Shifted set' rest (omega arith)
          (Holds-set_above content rest (suc (length rest)) (some a) (omega arith) p.1) in
      (
        moved,
        rw
            (
              job_stack_get_item_lem content (length rest) p.0,
              job_stack_set_item_lem content (suc (length rest)) a h,
              shift_up,
            )
            runs,
        record {
          up = (
            shifted.above (suc (length rest)) (omega arith)
                ∙ get_elem?-set_self content (suc (length rest)) (some a) h,
            shifted.up,
          );
          same_length = shifted.same_length ∙ e;
          above = λ j q.
              shifted.above j (omega arith)
              ∙ get_elem?-set_ne content (suc (length rest)) j (some a) (omega arith);
        },
      )

  -- with no slot to spare the loop faults, or it has nothing to move and the store behind it faults
  pub shift_up_full :
      (content : List (Option A)) (items : List A)
      → length content ≤ length items
      → Holds content items
      → (shift_up content (length items) ≡ fault)
        ⊎ ((shift_up content (length items) ≡ ok content) × (length content ≡ 0))
  unfolding shift_up
  shift_up_full content [] h p = inr (refl, omega arith)
  shift_up_full content (a ∷ rest) h p = inl (
      rw (
        job_stack_get_item_lem content (length rest) p.0,
        job_stack_set_item_out content (suc (length rest)) a h,
        shift_up,
      ))

  -- filling slot 0 puts an item under the others
  pub Holds-bottom :
      (moved : List (Option A)) (items : List A) (x : A)
      → length items < length moved
      → HoldsUp moved items
      → Holds (set moved 0 (some x)) (items ++ x ∷ [])
  Holds-bottom moved [] x h p = (get_elem?-set_self moved 0 (some x) h, tt)
  Holds-bottom moved (a ∷ rest) x h p = (
    ap (get_elem? (set moved 0 (some x))) (
          let e : length (rest ++ x ∷ []) ≡ suc (length rest) =
            omega (arith, length-append rest (x ∷ [])) in
          e)
        ∙ get_elem?-set_ne moved 0 (suc (length rest)) (some x) (omega arith)
        ∙ p.0,
    Holds-bottom moved rest x (omega arith) p.1,
  )
