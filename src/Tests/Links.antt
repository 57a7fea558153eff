-- ===== src/Tests/Links.antt =====
-- A page with a link, as `find_href` reads it.
use http_exercise.Base.{ℕ, ◌≡◌, ◌∷◌, ◌++◌, arith, length-replicate, replicate}
use http_exercise.Exec.{ok}
use http_exercise.Constants.{success}
use http_exercise.CStr.{codes}
use http_exercise.Parsing.Href.{find_href}
use http_exercise.Parsing.Href.Link.{IsLink, find_href-link}

index-IsLink : IsLink (codes "<a ") (codes "/foo1.txt")
index-IsLink = record {
  no_h = omega arith;
  no_nul = omega arith;
  no_quote = omega arith;
  text = omega arith;
  fits = omega arith;
}

find_href-link_example :
    find_href
      (replicate 4097 7)
      (record { content = codes "<html><a href=\"/foo1.txt\">one</a>"; position = 6 })
      (replicate 2049 7)
    ≡ ok (
      success,
      record { content = codes "<html><a href=\"/foo1.txt\">one</a>"; position = 24 },
      codes "/foo1.txt" ++ 0 ∷ replicate 2039 7,
    )
find_href-link_example =
    find_href-link (codes "<a ") (codes "/foo1.txt") index-IsLink (codes "<html>")
      (codes ">one</a>") (replicate 4097 7) (replicate 2049 7) (length-replicate {A = ℕ} 4097 7)
      (length-replicate {A = ℕ} 2049 7)
