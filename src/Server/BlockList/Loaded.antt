-- ===== src/Server/BlockList/Loaded.antt =====
-- What `load_block_list` puts into the block table.
use mathlib.Core.List.{append_assoc}
use http_exercise.Base.{
  ℕ, zero, suc, ◌+◌, ◌-◌, ◌≤◌, ◌<◌, ◌≡◌, refl, sym, ap, ◌∙◌, Bool, true, false, ◌||◌, List, [], ◌∷◌,
  ◌++◌, some, arith, length, length-append, length-drop, drop,
}
use http_exercise.Exec.{ok, ◌>>=◌, ok-injective}
use http_exercise.Constants.{success, max_name_length, max_url_size}
use http_exercise.CStr.{Bytes, store, overwrite, fgets_from, bytes_eq}
use http_exercise.CStr.Scan.{Lacks, strchr_at}
use http_exercise.CStr.Copy.{over, overwrite-over, store-append}
use http_exercise.UtHash.{UtHash}
use http_exercise.BlockTable.{TableElement, block_table_add}
use http_exercise.BlockTable.Laws.{blocks_name, block_table_check_lem, block_table_add-check}
use http_exercise.Server.BlockList.{cut_line, load_entries, load_block_list}

-- a name that can stand in a line of the file and in the table
pub record IsName (n : Bytes) : Type 0 where
  pub text : Lacks 0 n
  pub line : Lacks b'\n' n
  pub short : length n < max_name_length - 1

abbrev pub AreNames : List Bytes → Type 0
AreNames [] = Unit
AreNames (n ∷ names) = IsName n × AreNames names

-- the file with a name in each line
abbrev pub lines_of : List Bytes → Bytes
lines_of [] = []
lines_of (n ∷ names) = n ++ b'\n' ∷ lines_of names

abbrev pub is_listed : Bytes → List Bytes → Bool
is_listed m [] = false
is_listed m (n ∷ names) = bytes_eq n m || is_listed m names

or_swap : (a b c : Bool) → (b || (a || c)) ≡ ((a || b) || c)
or_swap true true c = refl
or_swap true false c = refl
or_swap false b c = refl

-- `fgets` reads a line that fits, with its newline.
fgets_from-line :
    (n : ℕ) (line rest : Bytes)
    → Lacks b'\n' line
    → length line < n
    → fgets_from n (line ++ b'\n' ∷ rest) ≡ (line ++ b'\n' ∷ [], rest)
unfolding fgets_from
fgets_from-line zero line rest h k = absurd (omega arith)
fgets_from-line (suc n) [] rest h k = refl
fgets_from-line (suc n) (x ∷ line) rest h k =
    ground (arith, fgets_from-line n line rest h.1 (omega arith))

cut_line_lem :
    (buffer n : Bytes)
    → IsName n
    → cut_line (over (n ++ b'\n' ∷ []) buffer)
      ≡ ok (n ++ 0 ∷ 0 ∷ drop (suc (length (n ++ b'\n' ∷ []))) buffer)
unfolding cut_line
cut_line_lem buffer n h =
    rw
      (
        strchr_at b'\n' 0 (length n) [] n (0 ∷ left) split refl (omega arith) h.line h.text,
        ap (λ l. store l (length n) 0) split,
      )
      (store-append n (0 ∷ left) b'\n' 0)
  where
    left : Bytes
    left = drop (suc (length (n ++ b'\n' ∷ []))) buffer

    split : over (n ++ b'\n' ∷ []) buffer ≡ n ++ b'\n' ∷ 0 ∷ left
    split = append_assoc n (b'\n' ∷ []) (0 ∷ left)

-- a line with its newline is not empty
line_eq-cons : (n : Bytes) → (c : ℕ) × (more : Bytes) × (n ++ b'\n' ∷ [] ≡ c ∷ more)
line_eq-cons [] = (b'\n', [], refl)
line_eq-cons (x ∷ n) = (x, n ++ b'\n' ∷ [], refl)

module _ (hash : UtHash TableElement) (junk : ℕ → Bytes)
    (fresh : (i : ℕ) → length (junk i) ≡ max_name_length) where
  open hash use {Table}

  added :
      (i : ℕ) (n rest : Bytes) (t : Table)
      → IsName n
      → (t' : Table) × (block_table_add hash (junk i) (n ++ 0 ∷ rest) t ≡ ok (success, t'))
        × ((m : Bytes) → Lacks 0 m → blocks_name hash t' m ≡ (bytes_eq n m || blocks_name hash t m))
  added i n rest t h =
      let (t', e, blocks) = block_table_add-check hash (junk i) n rest t (fresh i) h.text h.short in
      (t', e, λ m z. ok-injective (sym (block_table_check_lem hash m [] t' z) ∙ blocks m [] z))

  load_round :
      (f : ℕ) (buffer file left : Bytes) (c : ℕ) (more : Bytes) (t : Table)
      → fgets_from (max_url_size - 1) file ≡ (c ∷ more, left)
      → load_entries hash (suc f) junk buffer file t ≡ (do
        entry ← overwrite buffer ((c ∷ more) ++ 0 ∷ [])
        name ← cut_line entry
        added ← block_table_add hash (junk f) name t
        load_entries hash f junk name left added.1)
  unfolding load_entries
  load_round f buffer file left c more t e =
      ap
        (λ read. elim (read.0) [
          | [] ↦ ok t
          | c ∷ more ↦ (do
            entry ← overwrite buffer ((c ∷ more) ++ 0 ∷ [])
            name ← cut_line entry
            added ← block_table_add hash (junk f) name t
            load_entries hash f junk name (read.1) added.1)
        ])
        e

  load_step :
      (f : ℕ) (buffer n file : Bytes) (t t' : Table)
      → length buffer ≡ max_url_size + 1
      → IsName n
      → let left = drop (suc (length (n ++ b'\n' ∷ []))) buffer in
        block_table_add hash (junk f) (n ++ 0 ∷ 0 ∷ left) t ≡ ok (success, t')
        → load_entries hash (suc f) junk buffer (n ++ b'\n' ∷ file) t
          ≡ load_entries hash f junk (n ++ 0 ∷ 0 ∷ left) file t'
  load_step f buffer n file t t' size h e =
      let (c, more, p) = line_eq-cons n in
      let read : fgets_from (max_url_size - 1) (n ++ b'\n' ∷ file) ≡ (c ∷ more, file) =
        fgets_from-line (max_url_size - 1) n file h.line (omega (arith, h.short))
        ∙ ap (λ l. (l, file)) p in
      let copied : overwrite buffer ((c ∷ more) ++ 0 ∷ []) ≡ ok (over (n ++ b'\n' ∷ []) buffer) =
        ap (λ l. overwrite buffer (l ++ 0 ∷ [])) (sym p)
        ∙ overwrite-over buffer (n ++ b'\n' ∷ [])
            (omega (arith, size, h.short, length-append n (b'\n' ∷ []))) in
      load_round f buffer (n ++ b'\n' ∷ file) file c more t read
      ∙ rw (copied, cut_line_lem buffer n h, e) refl

  left-length :
      (buffer n : Bytes)
      → length buffer ≡ max_url_size + 1
      → IsName n
      → length (n ++ 0 ∷ 0 ∷ drop (suc (length (n ++ b'\n' ∷ []))) buffer) ≡ max_url_size + 1
  left-length buffer n size h = omega (
    arith,
    size,
    h.short,
    length-append n (b'\n' ∷ []),
    length-append n (0 ∷ 0 ∷ drop (suc (length (n ++ b'\n' ∷ []))) buffer),
    length-drop buffer (suc (length (n ++ b'\n' ∷ [])))
        (omega (arith, size, h.short, length-append n (b'\n' ∷ []))),
  )

  load_entries_lem :
      (f : ℕ) (buffer : Bytes) (listed : List Bytes) (t : Table)
      → length listed < f
      → length buffer ≡ max_url_size + 1
      → AreNames listed
      → (t' : Table) × (load_entries hash f junk buffer (lines_of listed) t ≡ ok t')
        × ((m : Bytes)
            → Lacks 0 m
            → blocks_name hash t' m ≡ (is_listed m listed || blocks_name hash t m))
  unfolding load_entries fgets_from
  load_entries_lem zero buffer listed t k size h = absurd (omega arith)
  load_entries_lem (suc f) buffer [] t k size h = (t, refl, λ m z. refl)
  load_entries_lem (suc f) buffer (n ∷ listed) t k size h =
      let left = drop (suc (length (n ++ b'\n' ∷ []))) buffer in
      let (t₁, e, one) = added f n (0 ∷ left) t h.0 in
      let (t₂, runs, rest) =
        load_entries_lem f (n ++ 0 ∷ 0 ∷ left) listed t₁ (omega arith)
          (left-length buffer n size h.0) h.1 in
      (
        t₂,
        load_step f buffer n (lines_of listed) t t₁ size h.0 e ∙ runs,
        λ m z.
            rest m z
            ∙ (ap (λ b. is_listed m listed || b) (one m z)
                ∙ or_swap (bytes_eq n m) (is_listed m listed) (blocks_name hash t m)),
      )

  lines_length : (listed : List Bytes) → length listed ≤ length (lines_of listed)
  lines_length [] = omega arith
  lines_length (n ∷ listed) =
      omega (arith, lines_length listed, length-append n (b'\n' ∷ lines_of listed))

  -- A file with names of less than 255 bytes in its lines is loaded to its end, and afterwards the
  -- table blocks the names of the file, those that it blocked before, and no others.
  pub load_block_list_lem :
      (buffer : Bytes) (listed : List Bytes) (t : Table)
      → length buffer ≡ max_url_size + 1
      → AreNames listed
      → (t' : Table) × (load_block_list hash junk buffer (some (lines_of listed)) t
          ≡ ok (success, t'))
        × ((m : Bytes)
            → Lacks 0 m
            → blocks_name hash t' m ≡ (is_listed m listed || blocks_name hash t m))
  unfolding load_block_list
  load_block_list_lem buffer listed t size h =
      let (t', runs, blocks) =
        load_entries_lem (suc (length (lines_of listed))) buffer listed t
          (omega (arith, lines_length listed)) size h in
      (t', rw runs refl, blocks)
