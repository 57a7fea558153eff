-- ===== src/BlockTable/Laws.antt =====
-- The block table is a set of names, and what a name that is too long does to it.
use http_exercise.Base.{
  ◌-◌, ◌<◌, ◌≡◌, ◌≢◌, ap, ◌∙◌, Bool, true, false, [], ◌∷◌, ◌++◌, none, some, arith, inl, inr,
  Bool-cases, Option-cases, length-append, drop-length-append, eq-nil_of_append-eq, ◌||◌, length,
  drop, replicate,
}
use mathlib.Core.Path.{subst}
use mathlib.Core.List.{append_assoc}
use http_exercise.Exec.{ok}
use http_exercise.Constants.{success, max_name_length}
use http_exercise.CStr.{Bytes, cstr, strncpy, bytes_eq, bytes_eq_iff}
use http_exercise.CStr.Scan.{Lacks, Lacks-append, cstr-append}
use http_exercise.CStr.Copy.{strncpy_padded, strncpy_exact}
use http_exercise.UtHash.{UtHash}
use http_exercise.BlockTable.{TableElement, block_table_add, block_table_check}

module _ (hash : UtHash TableElement) where
  open hash use {
    Table, null, find_str, add_str, find_str-null, find_str-add_str_self, find_str-add_str_ne,
  }

  -- the set that a table stands for
  abbrev pub blocks_name : Table → Bytes → Bool
  blocks_name t n = elim (find_str n t) [ none ↦ false | some _ ↦ true ]

  -- A check of a name looks the name up.
  pub block_table_check_lem :
      (n rest : Bytes) (t : Table)
      → Lacks 0 n
      → block_table_check hash (n ++ 0 ∷ rest) t ≡ ok (blocks_name t n)
  unfolding block_table_check
  block_table_check_lem n rest t z = rw (cstr-append n rest z)

  add_found :
      (junk n rest : Bytes) (t : Table) {e : TableElement}
      → length junk ≡ max_name_length
      → Lacks 0 n
      → length n < max_name_length - 1
      → find_str n t ≡ some e
      → block_table_add hash junk (n ++ 0 ∷ rest) t ≡ ok (success, t)
  unfolding block_table_add
  add_found junk n rest t size z h f = rw (
    strncpy_padded junk [] n rest (max_name_length - 1) z h (omega arith),
    cstr-append n rest z,
    f,
  )

  add_new :
      (junk n rest : Bytes) (t : Table)
      → length junk ≡ max_name_length
      → Lacks 0 n
      → length n < max_name_length - 1
      → find_str n t ≡ none
      → (e : TableElement) × (block_table_add hash junk (n ++ 0 ∷ rest) t
          ≡ ok (success, add_str n e t))
  unfolding block_table_add
  add_new junk n rest t size z h f = (
    record {
      name =
          n
          ++ 0
            ∷ (replicate (max_name_length - 1 - length n - 1) 0 ++ drop (max_name_length - 1) junk);
    },
    rw
        (
          strncpy_padded junk [] n rest (max_name_length - 1) z h (omega arith),
          cstr-append n rest z,
          f,
        )
        (rw (cstr-append n _ z)),
  )

  blocks_name-some :
      (t : Table) (n : Bytes) {e : TableElement} → find_str n t ≡ some e → blocks_name t n ≡ true
  blocks_name-some t n f = rw (f, blocks_name)

  blocks_name-none : (t : Table) (n : Bytes) → find_str n t ≡ none → blocks_name t n ≡ false
  blocks_name-none t n f = rw (f, blocks_name)

  blocks_name-add_str :
      (n m : Bytes) (e : TableElement) (t : Table)
      → find_str n t ≡ none
      → blocks_name (add_str n e t) m ≡ (bytes_eq n m || blocks_name t m)
  blocks_name-add_str n m e t f = elim (Bool-cases (bytes_eq n m)) [
    | inl same ↦
        let same' : n ≡ m = (bytes_eq_iff n m).0 same in
        rw same (rw (← same') (blocks_name-some (add_str n e t) n (find_str-add_str_self n e t f)))
    | inr other ↦
        let other' : n ≢ m = λ q. ground (arith, bytes_eq_iff n m) in
        rw other (rw (find_str-add_str_ne n m e t f other', blocks_name))
  ]

  -- A name of at most 254 bytes is added: afterwards the table blocks that name and what it blocked
  -- before, and nothing else, whether or not the name was there already.
  pub block_table_add-check :
      (junk n rest : Bytes) (t : Table)
      → length junk ≡ max_name_length
      → Lacks 0 n
      → length n < max_name_length - 1
      → (t' : Table) × (block_table_add hash junk (n ++ 0 ∷ rest) t ≡ ok (success, t'))
        × ((m tail : Bytes)
            → Lacks 0 m
            → block_table_check hash (m ++ 0 ∷ tail) t' ≡ ok (bytes_eq n m || blocks_name t m))
  block_table_add-check junk n rest t size z h = elim (Option-cases (find_str n t)) [
    | inl f ↦
        let (e, added) = add_new junk n rest t size z h f in
        (
          add_str n e t,
          added,
          λ m tail y.
              block_table_check_lem m tail (add_str n e t) y
              ∙ ap ok (blocks_name-add_str n m e t f),
        )
    | inr (e, f) ↦ (
      t,
      add_found junk n rest t size z h f,
      λ m tail y. block_table_check_lem m tail t y ∙ ap ok (known n m t f),
    )
  ]
    where
      known :
          (n m : Bytes) (t : Table) {e : TableElement}
          → find_str n t ≡ some e
          → blocks_name t m ≡ (bytes_eq n m || blocks_name t m)
      known n m t f = elim (Bool-cases (bytes_eq n m)) [
        | inl same ↦
            let same' : n ≡ m = (bytes_eq_iff n m).0 same in
            rw same (rw (← same') (blocks_name-some t n f))
        | inr other ↦ rw other
      ]

  -- Of a name of 256 bytes or more only the first 255 are stored, if the fresh element happens to end
  -- in a NUL: where neither those nor the name are in the table yet, once the name is added the
  -- table blocks those 255 bytes, what it blocked before, and nothing else, so it does not block
  -- the name.
  pub block_table_add_long :
      (pre front back rest : Bytes) (t : Table)
      → length pre ≡ max_name_length - 1
      → length front ≡ max_name_length - 1
      → Lacks 0 front
      → Lacks 0 back
      → back ≢ []
      → find_str front t ≡ none
      → find_str (front ++ back) t ≡ none
      → (t' : Table) × (block_table_add hash (pre ++ 0 ∷ []) (front ++ (back ++ 0 ∷ rest)) t
          ≡ ok (success, t'))
        × ((m : Bytes) → blocks_name t' m ≡ (bytes_eq front m || blocks_name t m))
        × (blocks_name t' (front ++ back) ≡ false)
  unfolding block_table_add
  block_table_add_long pre front back rest t p q z y ne fresh unknown = (
    add_str front (record { name = front ++ 0 ∷ [] }) t,
    rw (copied255, key, unknown) (rw (cstr-append front [] z)),
    λ m. blocks_name-add_str front m (record { name = front ++ 0 ∷ [] }) t fresh,
    blocks_name-none _ (front ++ back) (
        find_str-add_str_ne front (front ++ back) (record { name = front ++ 0 ∷ [] }) t fresh
          (λ e. ne (eq-nil_of_append-eq front back e))
        ∙ unknown),
  )
    where
      src : Bytes
      src = front ++ (back ++ 0 ∷ rest)

      key : cstr src ≡ ok (front ++ back)
      key =
          rw (← append_assoc front back (0 ∷ rest))
            (cstr-append (front ++ back) rest (Lacks-append 0 front back z y))

      tail255 : drop 255 (pre ++ 0 ∷ []) ≡ 0 ∷ []
      tail255 = subst (λ k. drop k (pre ++ 0 ∷ []) ≡ 0 ∷ []) p (drop-length-append pre (0 ∷ []))

      copied255 : strncpy (pre ++ 0 ∷ []) src 0 255 ≡ ok (front ++ 0 ∷ [])
      copied255 =
          subst (λ k. strncpy (pre ++ 0 ∷ []) src 0 k ≡ ok (front ++ drop k (pre ++ 0 ∷ []))) q
            (strncpy_exact (pre ++ 0 ∷ []) [] front (back ++ 0 ∷ rest) z
              (omega (arith, p, q, length-append pre (0 ∷ []))))
          ∙ ap (λ l. ok (front ++ l)) tail255
