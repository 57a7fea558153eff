-- ===== src/Resolver.antt =====
-- The calls of the C library by which a worker finds a host: getaddrinfo for a name and a service,
-- `none` where it fails, and inet_ntop for the text of an IPv4 address. getaddrinfo never succeeds
-- without an address.
use http_exercise.Base.{◌<◌, ◌≢◌, List, [], Option, some, length}
use http_exercise.Constants.{max_name_length}
use http_exercise.CStr.{Bytes}
use http_exercise.CStr.Scan.{Lacks}

pub record Resolver : Type 1 where
  pub Address : Type 0
  pub lookup : Bytes → Bytes → Option (List Address)
  pub print : Address → Bytes
  pub lookup_some : (name service : Bytes) → lookup name service ≢ some []
  pub print_text : (a : Address) → Lacks 0 (print a)
  pub print_fits : (a : Address) → length (print a) < max_name_length
