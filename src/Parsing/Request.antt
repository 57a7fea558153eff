-- ===== src/Parsing/Request.antt =====
-- `parse_request_string`. The pointers are offsets into the request buffer, which the call changes,
-- and the out parameters are the record `Fields`: what the call does not assign stays as it was.
pub mod Headers
pub mod Target
pub mod Url
pub mod Line
pub mod Path
pub mod Host
use http_exercise.Base.{
  ℕ, zero, suc, ◌+◌, ◌-◌, Bool, true, false, not, ◌&&◌, List, [], ◌∷◌, Option, none, some, leb,
  ◌==◌, if◌then◌else◌, length, drop,
}
use http_exercise.Exec.{Exec, ok, fault, ◌>>=◌}
use http_exercise.Constants.{Status, success, fail, max_url_size}
use http_exercise.CStr.{Bytes, codes, strchr, strrchr, store, strncpy, size_diff}
use http_exercise.Parsing.{
  HttpVersion, malformed, not_supported, dot_zero, dot_one, matches_command,
  matches_command_case_insensitive,
}

pub record Fields : Type 0 where
  pub is_get : Bool
  pub hostname : Bytes
  pub path : Bytes
  pub version : HttpVersion
  pub proxy_keep_alive : Bool

-- the return value, the request buffer and the out parameters
abbrev pub Parsed : Type 0
Parsed = Status × Bytes × Fields

-- the version at `divider_b`
unfoldable pub request_version : Bytes → ℕ → Exec HttpVersion
request_version buf divider_b = do
  http ← matches_command buf divider_b (codes "HTTP/")
  if not http then ok malformed else (do
    one ← matches_command buf divider_b (codes "HTTP/1.1")
    if one then ok dot_one else (do
      nought ← matches_command buf divider_b (codes "HTTP/1.0")
      ok (if nought then dot_zero else not_supported)))

-- the methods that are known and not GET, in the order of the tests
abbrev pub other_methods : List Bytes
other_methods =
    codes "HEAD"
    ∷ codes "POST"
    ∷ codes "PUT"
    ∷ codes "DELETE"
    ∷ codes "CONNECT"
    ∷ codes "TRACE"
    ∷ codes "PATCH"
    ∷ codes "OPTIONS"
    ∷ []

unfoldable pub known_method : List Bytes → Bytes → Exec Bool
known_method [] buf = ok false
known_method (m ∷ ms) buf =
    let rest = known_method ms buf in
    (do hit ← matches_command buf 0 m; if hit then ok true else rest)

-- `some` of what `is_get` becomes, `none` for an unknown method
unfoldable pub request_method : Bytes → Exec (Option Bool)
request_method buf = do
  get ← matches_command buf 0 (codes "GET")
  if get
      then ok (some true)
      else (do known ← known_method other_methods buf; ok (if known then some false else none))

-- A slash at the end of the path is cut off, unless it is the whole path. The path begins with the
-- slash that was found, so there is one.
unfoldable pub strip_slash : Bytes → Exec Bytes
strip_slash path = do
  last ← strrchr path 0 b'/'
  elim last [
    | none ↦ fault
    | some slash ↦ (do
      end ← strrchr path 0 0
      elim end [
        | none ↦ fault
        | some e ↦ if not (slash == 0) && (slash + 1) == e then store path slash 0 else ok path
      ])
  ]

-- The host name and the path of the URL whose host begins at `start`. Where no slash follows the
-- host the code computes with a null pointer.
unfoldable pub split_url : Bytes → ℕ → Fields → Exec Fields
split_url buf start fields = do
  found ← strchr buf start b'/'
  elim found [
    | none ↦ fault
    | some slash ↦ (do
      name ← strncpy fields.hostname buf start (slash - start)
      hostname ← store name (slash - start) 0
      copy ← strncpy fields.path buf slash max_url_size
      path ← strip_slash copy
      ok (record fields { hostname = hostname; path = path }))
  ]

-- `while (*divider_a == ' ') divider_a++`, from `at` on
unfoldable pub skip_spaces : ℕ → Bytes → Exec ℕ
skip_spaces at [] = fault
skip_spaces at (x ∷ xs) = let rest = skip_spaces (at + 1) xs in if x == b' ' then rest else ok at

-- The value of a Host header from `divider_a` to the newline at `divider_b`. The length
-- `divider_b - divider_a - 2` wraps where the value is too short.
unfoldable pub capture_host : Bytes → ℕ → ℕ → Fields → Exec Fields
capture_host buf divider_a divider_b fields = do
  space ← strchr buf divider_a b' '
  elim space [
    | none ↦ fault
    | some s ↦ (do
      value ← skip_spaces s (drop s buf)
      name ← strncpy fields.hostname buf value (size_diff divider_b (value + 2))
      hostname ← store name (divider_b - value - 1) 0
      ok (record fields { hostname = hostname }))
  ]

-- one header, from `divider_a` to the newline at `divider_b`
unfoldable pub parse_header : Bytes → ℕ → ℕ → Fields → Exec Fields
parse_header buf divider_a divider_b fields = do
  alive ← matches_command_case_insensitive buf divider_a (codes "Proxy-Connection: keep-alive")
  if alive then ok (record fields { proxy_keep_alive = true }) else (do
    host ← matches_command_case_insensitive buf divider_a (codes "Host: ")
    if host then capture_host buf divider_a divider_b fields else ok fields)

-- The loop over the headers. It moves on by a byte or more each round, so the length of the buffer
-- is fuel enough (Headers shows it); without fuel it stops as if at a fault.
unfoldable pub parse_headers : ℕ → Bytes → ℕ → Fields → Exec Fields
parse_headers zero buf divider_a fields = fault
parse_headers (suc fuel) buf divider_a fields = do
  end ← strchr buf divider_a b'\n'
  elim end [
    | none ↦ ok fields
    | some divider_b ↦ (do
      read ← parse_header buf divider_a divider_b fields
      parse_headers fuel buf (divider_b + 1) read)
  ]

-- From "copy url" on: the request line ends at `end_of_line`, its version stands behind the space
-- at `divider_b`.
unfoldable pub parse_url : ℕ → ℕ → Bytes → Fields → Exec Parsed
parse_url end_of_line divider_b buf fields = do
  space ← strchr buf 0 b' '
  elim space [
    | none ↦ fault
    | some s ↦ (do
      cut ← store buf divider_b 0
      if leb divider_b (s + 1)
          then ok (success, cut, record fields { version = malformed })
          else (do
            http ← matches_command_case_insensitive cut (s + 1) (codes "http://")
            named ←
                if http
                then split_url cut (s + 1 + 7) fields
                else ok (record fields { version = malformed })
            whole ← store cut divider_b b' '
            read ←
                parse_headers (suc (length whole)) whole (end_of_line + 1)
                  (record named { proxy_keep_alive = false })
            ok (success, whole, read)))
  ]

-- the method, for a version that is supported
unfoldable pub parse_method : ℕ → ℕ → Bytes → Fields → Exec Parsed
parse_method end_of_line divider_b buf fields = do
  method ← request_method buf
  elim method [
    | none ↦ ok (success, buf, record fields { version = malformed })
    | some get ↦ parse_url end_of_line divider_b buf (record fields { is_get = get })
  ]

unfoldable pub parse_line : HttpVersion → ℕ → ℕ → Bytes → Fields → Exec Parsed
parse_line malformed end_of_line divider_b buf fields = ok (success, buf, fields)
parse_line not_supported end_of_line divider_b buf fields = ok (success, buf, fields)
parse_line _ end_of_line divider_b buf fields = parse_method end_of_line divider_b buf fields

unfoldable pub parse_request_string : Bytes → Fields → Exec Parsed
parse_request_string working_request fields = do
  newline ← strchr working_request 0 b'\n'
  elim newline [
    | none ↦ ok (fail, working_request, fields)
    | some end_of_line ↦ (do
      line ← store working_request end_of_line 0
      space ← strrchr line 0 b' '
      elim space [
        | none ↦ ok (success, line, record fields { version = malformed })
        | some divider_b ↦ (do
          version ← request_version line (divider_b + 1)
          parse_line version end_of_line divider_b line (record fields { version = version }))
      ])
  ]
