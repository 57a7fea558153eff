-- ===== src/Tests/Lists.antt =====
-- The block list of the repository (testing/blocklist), loaded into an empty table.
use http_exercise.Base.{◌≡◌, refl, ◌||◌, List, [], ◌∷◌, some, arith, replicate}
use http_exercise.Exec.{ok}
use http_exercise.Constants.{success}
use http_exercise.CStr.{Bytes, codes}
use http_exercise.CStr.Scan.{Lacks}
use http_exercise.BlockTable.{TableElement}
use http_exercise.BlockTable.Laws.{blocks_name}
use http_exercise.Server.BlockList.{load_block_list}
use http_exercise.Server.BlockList.Loaded.{IsName, is_listed, load_block_list_lem}
use http_exercise.Tests.HashTable.{elements}

facebook-IsName : IsName (codes "facebook.com")
facebook-IsName = record { text = omega arith; line = omega arith; short = omega arith }

google-IsName : IsName (codes "google.com:80")
google-IsName = record { text = omega arith; line = omega arith; short = omega arith }

abbrev entries : List Bytes
entries = codes "facebook.com" ∷ codes "google.com:80" ∷ []

load_block_list_lem_example :
    (t : List (Bytes × TableElement)) × (load_block_list elements
        (λ _. replicate 256 7)
        (replicate 2049 7)
        (some (codes "facebook.com\ngoogle.com:80\n"))
        []
      ≡ ok (success, t))
    × ((m : Bytes)
        → Lacks 0 m
        → blocks_name elements t m ≡ (is_listed m entries || blocks_name elements [] m))
load_block_list_lem_example =
    load_block_list_lem elements (λ _. replicate 256 7) (λ _. refl) (replicate 2049 7) entries []
      refl (facebook-IsName, (google-IsName, tt))
