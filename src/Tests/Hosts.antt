-- ===== src/Tests/Hosts.antt =====
-- resolve-host-test.c: names and addresses that a block list does or does not hold.
use http_exercise.Base.{
  ℕ, zero, suc, ◌<◌, length, ◌≡◌, ◌≢◌, refl, false, List, [], ◌∷◌, ◌++◌, some, arith, replicate,
}
use http_exercise.Exec.{ok}
use http_exercise.CStr.{Bytes, codes, bytes_eq}
use http_exercise.CStr.Scan.{Lacks}
use http_exercise.Constants.{max_name_length}
use http_exercise.Resolver.{Resolver}
use http_exercise.BlockTable.{TableElement}
use http_exercise.BlockTable.Laws.{blocks_name}
use http_exercise.Worker.{host_ok, blocked}
use http_exercise.Worker.Resolve.{resolve_host}
use http_exercise.Worker.Resolve.Blocking.{resolve_host-name, resolve_host-port, resolve_host_open}
use http_exercise.Tests.HashTable.{elements}

abbrev pub address_text : ℕ → Bytes
address_text zero = codes "1.1.1.1"
address_text (suc n) = codes "8.8.8.8"

pub address_text-Lacks : (n : ℕ) → Lacks 0 (address_text n)
address_text-Lacks zero = omega arith
address_text-Lacks (suc n) = omega arith

pub address_text-fits : (n : ℕ) → length (address_text n) < max_name_length
address_text-fits zero = omega arith
address_text-fits (suc n) = omega arith

abbrev pub both : List ℕ
both = 0 ∷ 1 ∷ []

pub two_found : some both ≢ some []
two_found e = ground arith

-- every name has the same two addresses
abbrev pub two_addresses : Resolver
two_addresses = record {
  Address = ℕ;
  lookup = λ _ _. some both;
  print = address_text;
  lookup_some = λ _ _. two_found;
  print_text = address_text-Lacks;
  print_fits = address_text-fits;
}

abbrev pub listed : List (Bytes × TableElement)
listed =
    (codes "1.1.1.1", record { name = [] })
    ∷ (codes "evil.com", record { name = [] })
    ∷ (codes "google.com:80", record { name = [] })
    ∷ []

abbrev pub local : Bytes
local = replicate 257 7

resolve_host-name_example :
    resolve_host elements two_addresses listed local (codes "evil.com" ++ 0 ∷ []) ≡ ok (blocked, [])
unfolding bytes_eq
resolve_host-name_example =
    resolve_host-name elements two_addresses listed local (codes "evil.com") [] refl (omega arith)
      (omega arith) (omega arith)

-- the entry with the port does not block
resolve_host-port_example :
    resolve_host elements two_addresses listed local (codes "google.com:80" ++ 0 ∷ [])
    ≡ ok (host_ok, 1 ∷ [])
unfolding bytes_eq
resolve_host-port_example =
    resolve_host-port elements two_addresses listed local (codes "google.com") (codes "80") [] refl
      (omega arith) (omega arith) (omega arith) (omega arith)

resolve_host_open_example :
    (blocks_name elements listed (codes "google.com") ≡ false)
    × (blocks_name elements listed (codes "8.8.8.8") ≡ false)
unfolding bytes_eq
resolve_host_open_example =
    resolve_host_open elements two_addresses listed local (codes "google.com") (some (codes "80"))
      [] 1 [] refl (omega arith) (omega arith) (omega arith, omega arith) resolve_host-port_example
