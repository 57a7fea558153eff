-- ===== src/Worker/Resolve/Blocking.antt =====
-- `resolve_host` refuses what is blocked, and finds the first address that is not.
use mathlib.Core.List.{append_assoc}
use http_exercise.Base.{
  Option, suc, ◌+◌, ◌≤◌, ◌<◌, ◌≡◌, refl, sym, ap, ◌∙◌, false, List, [], ◌∷◌, ◌++◌, none, some,
  arith, inl, inr, Bool-cases, Option-cases, if◌then◌else◌, length, length-append, drop, drop_at,
  lt→ltb,
}
use http_exercise.Exec.{ok, ok-injective}
use http_exercise.Constants.{max_name_length}
use http_exercise.CStr.{Bytes, codes, strchr, store}
use http_exercise.CStr.Scan.{Lacks, Lacks-append, cstr-append, strchr_at, strchr-none}
use http_exercise.CStr.Copy.{over, overwrite-over, length-over, store-append}
use http_exercise.UtHash.{UtHash}
use http_exercise.Resolver.{Resolver}
use http_exercise.BlockTable.{TableElement, block_table_check}
use http_exercise.BlockTable.Laws.{blocks_name, block_table_check_lem}
use http_exercise.Worker.{HostStatus, host_ok, not_found, blocked}
use http_exercise.Worker.Resolve.{strcpy, inet_ntop, check_addresses, resolve_name, resolve_host}

module _ (hash : UtHash TableElement) (names : Resolver) where
  open hash use {Table}
  open names use {Address, lookup, print, lookup_some, print_text, print_fits}

  -- the addresses from the first that is not blocked on
  abbrev pub open_addresses : Table → List Address → List Address
  open_addresses t [] = []
  open_addresses t (a ∷ more) =
      if blocks_name hash t (print a) then open_addresses t more else a ∷ more

  abbrev pub verdict : List Address → HostStatus × List Address
  verdict [] = (blocked, [])
  verdict (a ∷ more) = (host_ok, a ∷ more)

  -- what becomes of a name and a service
  abbrev pub resolved : Table → Bytes → Bytes → HostStatus × List Address
  resolved t name service =
      if blocks_name hash t name then (blocked, []) else elim (lookup name service) [
        | none ↦ (not_found, [])
        | some more ↦ verdict (open_addresses t more)
      ]

  inet_ntop_lem :
      (a : Address) (buffer : Bytes)
      → length buffer ≡ max_name_length + 1
      → inet_ntop hash names a buffer ≡ ok (over (print a) buffer)
  unfolding inet_ntop
  inet_ntop_lem a buffer size =
      rw (lt→ltb _ _ (print_fits a)) (overwrite-over buffer (print a) (omega (arith, print_fits a)))

  address_checked :
      (t : Table) (a : Address) (buffer : Bytes)
      → block_table_check hash (over (print a) buffer) t ≡ ok (blocks_name hash t (print a))
  address_checked t a buffer = block_table_check_lem hash (print a) _ t (print_text a)

  check_addresses_lem :
      (t : Table) (buffer : Bytes) (a : Address) (more : List Address)
      → length buffer ≡ max_name_length + 1
      → check_addresses hash names t buffer (a ∷ more) ≡ ok (verdict (open_addresses t (a ∷ more)))
  unfolding check_addresses
  check_addresses_lem t buffer a [] size = elim (Bool-cases (blocks_name hash t (print a))) [
    | inl b ↦ rw (inet_ntop_lem a buffer size, address_checked t a buffer, b) refl
    | inr b ↦ rw (inet_ntop_lem a buffer size, address_checked t a buffer, b) refl
  ]
  check_addresses_lem t buffer a (next ∷ more) size =
      elim (Bool-cases (blocks_name hash t (print a))) [
        | inl b ↦
            rw (inet_ntop_lem a buffer size, address_checked t a buffer, b)
              (check_addresses_lem t (over (print a) buffer) next more
                (length-over buffer (print a) (omega (arith, size, print_fits a)) ∙ size))
        | inr b ↦ rw (inet_ntop_lem a buffer size, address_checked t a buffer, b) refl
      ]

  resolve_name_lem :
      (t : Table) (whole name rest service : Bytes)
      → length whole ≡ max_name_length + 1
      → Lacks 0 name
      → resolve_name hash names t whole (name ++ 0 ∷ rest) service ≡ ok (resolved t name service)
  unfolding resolve_name
  resolve_name_lem t whole name rest service size z = elim (Bool-cases (blocks_name hash t name)) [
    | inl b ↦ rw (block_table_check_lem hash name rest t z, b) refl
    | inr b ↦ elim (Option-cases (lookup name service)) [
      | inl n ↦ rw (block_table_check_lem hash name rest t z, b, cstr-append name rest z, n) refl
      | inr ([], f) ↦ absurd (lookup_some name service f)
      | inr (a ∷ more, f) ↦
          rw (block_table_check_lem hash name rest t z, b, cstr-append name rest z, f)
            (check_addresses_lem t whole a more size)
    ]
  ]

  -- For a host name with no colon `resolve_host` returns `blocked` if the name is blocked, not found if
  -- the lookup under the service "http" fails, and otherwise the addresses from the first that is
  -- not blocked on, or `blocked` if there is none.
  pub resolve_host-name :
      (t : Table) (junk name rest : Bytes)
      → length junk ≡ max_name_length + 1
      → Lacks 0 name
      → Lacks b':' name
      → length name ≤ max_name_length
      → resolve_host hash names t junk (name ++ 0 ∷ rest) ≡ ok (resolved t name (codes "http"))
  unfolding resolve_host strcpy
  resolve_host-name t junk name rest size z colon fits =
      rw
        (
          cstr-append name rest z,
          overwrite-over junk name (omega (arith, size)),
          strchr-none b':' [] name (drop (suc (length name)) junk) (omega arith) colon z,
        )
        (resolve_name_lem t (over name junk) name (drop (suc (length name)) junk) (codes "http")
          (length-over junk name (omega (arith, size)) ∙ size) z)

  -- For a host name with a port behind a colon it does the same with the name alone and the port for
  -- the service: an entry of the block table with the port in it blocks nothing.
  pub resolve_host-port :
      (t : Table) (junk name port rest : Bytes)
      → length junk ≡ max_name_length + 1
      → Lacks 0 name
      → Lacks b':' name
      → Lacks 0 port
      → length name + length port < max_name_length
      → resolve_host hash names t junk (name ++ b':' ∷ (port ++ 0 ∷ rest))
        ≡ ok (resolved t name port)
  unfolding resolve_host strcpy
  resolve_host-port t junk name port rest size z colon y fits =
      rw
        (
          sym (append_assoc name (b':' ∷ port) (0 ∷ rest)),
          cstr-append (name ++ b':' ∷ port) rest whole_text,
          overwrite-over junk (name ++ b':' ∷ port) whole_fits,
          colon_at,
          cut_at,
          port_at,
          cstr-append port left y,
        )
        (resolve_name_lem t whole name (port ++ 0 ∷ left) port
          (length-over junk (name ++ b':' ∷ port) whole_fits ∙ size) z)
    where
      left : Bytes
      left = drop (suc (length (name ++ b':' ∷ port))) junk

      whole_text : Lacks 0 (name ++ b':' ∷ port)
      whole_text = Lacks-append 0 name (b':' ∷ port) z (omega arith, y)

      whole_fits : length (name ++ b':' ∷ port) < length junk
      whole_fits = omega (arith, size, length-append name (b':' ∷ port))

      whole : Bytes
      whole = over (name ++ b':' ∷ port) junk

      split : whole ≡ name ++ b':' ∷ (port ++ 0 ∷ left)
      split = append_assoc name (b':' ∷ port) (0 ∷ left)

      colon_at : strchr whole 0 b':' ≡ ok (some (length name))
      colon_at =
          strchr_at b':' 0 (length name) [] name (port ++ 0 ∷ left) split refl (omega arith) colon z

      cut_at : store whole (length name) 0 ≡ ok (name ++ 0 ∷ (port ++ 0 ∷ left))
      cut_at = ap (λ l. store l (length name) 0) split ∙ store-append name (port ++ 0 ∷ left) b':' 0

      port_at : drop (length name + 1) (name ++ 0 ∷ (port ++ 0 ∷ left)) ≡ port ++ 0 ∷ left
      port_at =
          drop_at (length name + 1) (name ++ 0 ∷ []) (port ++ 0 ∷ left)
            (sym (append_assoc name (0 ∷ []) _)) (omega (arith, length-append name (0 ∷ [])))

  first_open :
      (t : Table) (found : List Address) {a : Address} {more : List Address}
      → verdict (open_addresses t found) ≡ (host_ok, a ∷ more)
      → blocks_name hash t (print a) ≡ false
  first_open t [] e = absurd (ground arith)
  first_open t (x ∷ found) {a} e = elim (Bool-cases (blocks_name hash t (print x))) [
    | inl b ↦ first_open t found (rw b at e)
    | inr b ↦ let same : x ≡ a = ground arith in rw (← same) b
  ]

  resolved_open :
      (t : Table) (name service : Bytes) {a : Address} {more : List Address}
      → resolved t name service ≡ (host_ok, a ∷ more)
      → (blocks_name hash t name ≡ false) × (blocks_name hash t (print a) ≡ false)
  resolved_open t name service {a} {more} e = elim (Bool-cases (blocks_name hash t name)) [
    | inl b ↦ let bad : blocked ≡ host_ok = ap (λ p. p.0) (rw b at e) in absurd (ground arith)
    | inr b ↦ elim (Option-cases (lookup name service)) [
      | inl n ↦
          let bad : not_found ≡ host_ok = ap (λ p. p.0) (rw (b, n) at e) in absurd (ground arith)
      | inr (found, f) ↦ (b, first_open t found (rw (b, f) at e))
    ]
  ]

  -- a host name with its port, or with none
  abbrev pub host_text : Bytes → Option Bytes → Bytes → Bytes
  host_text name none rest = name ++ 0 ∷ rest
  host_text name (some port) rest = name ++ b':' ∷ (port ++ 0 ∷ rest)

  abbrev pub Fits : Bytes → Option Bytes → Type 0
  Fits name none = length name ≤ max_name_length
  Fits name (some port) = Lacks 0 port × (length name + length port < max_name_length)

  -- Whatever `resolve_host` returns as an address to connect to, for a host name with a port or
  -- without one that fits its buffer, neither the name without the port nor the address is blocked.
  pub resolve_host_open :
      (t : Table) (junk name : Bytes) (port : Option Bytes) (rest : Bytes) (a : Address)
      (more : List Address)
      → length junk ≡ max_name_length + 1
      → Lacks 0 name
      → Lacks b':' name
      → Fits name port
      → resolve_host hash names t junk (host_text name port rest) ≡ ok (host_ok, a ∷ more)
      → (blocks_name hash t name ≡ false) × (blocks_name hash t (print a) ≡ false)
  resolve_host_open t junk name none rest a more size z colon fits e =
      resolved_open t name (codes "http")
        (ok-injective (sym (resolve_host-name t junk name rest size z colon fits) ∙ e))
  resolve_host_open t junk name (some port) rest a more size z colon (y, fits) e =
      resolved_open t name port
        (ok-injective (sym (resolve_host-port t junk name port rest size z colon y fits) ∙ e))
