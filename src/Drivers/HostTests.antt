-- ===== src/Drivers/HostTests.antt =====
-- resolve-host-test.c. The resources have no other use than the block table.
use http_exercise.Base.{List, [], ◌∷◌}
use http_exercise.Exec.{Exec, ok, ◌>>=◌}
use http_exercise.CStr.{Bytes, codes}
use http_exercise.Resolver.{Resolver}
use http_exercise.UtHash.{UtHash}
use http_exercise.BlockTable.{TableElement, block_table_create, block_table_add}
use http_exercise.Worker.{HostStatus}
use http_exercise.Worker.Resolve.{resolve_host}
use http_exercise.Drivers.TableTests.{literal}

-- `junk` is what a local buffer of resolve_host held, and `junk_element` what malloc leaves.
module _ (hash : UtHash TableElement) (names : Resolver) (junk junk_element : Bytes) where
  unfoldable pub statuses : hash.Table → List Bytes → Exec (List HostStatus)
  statuses table [] = ok []
  statuses table (name ∷ rest) = do
    resolved ← resolve_host hash names table junk (literal name)
    others ← statuses table rest
    ok (resolved.0 ∷ others)

  unfoldable pub test_resolving_sites : Exec (List HostStatus)
  test_resolving_sites = statuses (block_table_create hash) (
      codes "localhost:8888"
      ∷ codes "foo.prinmath.com"
      ∷ codes "no.such.site.com.cn"
      ∷ codes "localhost:9999"
      ∷ [])

  unfoldable pub test_blocked_sites : Exec (List HostStatus)
  test_blocked_sites = do
    first ←
        block_table_add hash junk_element (literal (codes "very.bad.site.tv"))
          (block_table_create hash)
    second ← block_table_add hash junk_element (literal (codes "23.31.83.227")) first.1
    statuses second.1
        (codes "very.bad.site.tv" ∷ codes "foo.prinmath.com" ∷ codes "pornhub.com" ∷ [])
