-- ===== src/Tests/HashTable.antt =====
-- A hash table that is a list of its entries, for the tests in place of uthash.h.
use http_exercise.Base.{◌≡◌, ◌≢◌, refl, List, [], ◌∷◌, Option, none, some, arith, if◌then◌else◌}
use http_exercise.CStr.{Bytes, bytes_eq, bytes_eq_iff}
use http_exercise.UtHash.{UtHash}
use http_exercise.BlockTable.{TableElement}

module _ {V : Type 0} where
  abbrev pub find : Bytes → List (Bytes × V) → Option V
  find k [] = none
  find k ((j, v) ∷ t) = if bytes_eq j k then some v else find k t

  pub find_self : (k : Bytes) (v : V) (t : List (Bytes × V)) → find k ((k, v) ∷ t) ≡ some v
  find_self k v t = ground (arith, bytes_eq_iff k k)

  pub find_other :
      (k j : Bytes) (v : V) (t : List (Bytes × V)) → k ≢ j → find j ((k, v) ∷ t) ≡ find j t
  find_other k j v t h = ground (arith, bytes_eq_iff k j)

abbrev pub list_hash : (V : Type 0) → UtHash V
list_hash V = record {
  Table = List (Bytes × V);
  null = [];
  find_str = find;
  add_str = λ k v t. (k, v) ∷ t;
  find_str-null = λ k. refl;
  find_str-add_str_self = λ k v t h. find_self k v t;
  find_str-add_str_ne = λ k j v t h n. find_other k j v t n;
}

abbrev pub elements : UtHash TableElement
elements = list_hash TableElement
