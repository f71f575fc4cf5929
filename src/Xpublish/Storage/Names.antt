-- ===== src/Xpublish/Storage/Names.antt =====
-- The names that a listing of xpublish-api/src/storage.py gives.
use teehr_cloud_core.Base.{
  String, ◌≡◌, ◌≢◌, inl, inr, false, List, [], ◌∷◌, ◌++◌, arith, eq_iff, Bool-cases, All, ◌==◌,
  has_char, last_part-has_char,
}
use teehr_cloud_core.Xpublish.Storage.{
  StoragePrefix, dir_name, prefixes_of_page, list_storage_prefixes,
}

abbrev pub IsNamed : StoragePrefix → Type 0
IsNamed item = (item.id ≢ "") × (has_char b'/' item.id ≡ false)

All-append : (xs ys : List StoragePrefix) → All IsNamed xs → All IsNamed ys → All IsNamed (xs ++ ys)
All-append [] ys a b = b
All-append (x ∷ xs) ys (h, a) b = (h, All-append xs ys a b)

prefixes_of_page-IsNamed : (page : List String) → All IsNamed (prefixes_of_page page)
unfolding prefixes_of_page
prefixes_of_page-IsNamed [] = tt
prefixes_of_page-IsNamed (dir_path ∷ more) = elim (Bool-cases (dir_name dir_path == "")) [
  | inl e ↦ rw e (prefixes_of_page-IsNamed more)
  | inr e ↦
      rw e
        ((nonempty (dir_name dir_path) e, last_part-has_char b'/' _), prefixes_of_page-IsNamed more)
]
  where
    nonempty : (s : String) → (s == "") ≡ false → s ≢ ""
    nonempty s e same = absurd (ground (arith, (eq_iff s "").1 same))

-- Every prefix that a listing finds has a name, and no name has a "/".
pub list_storage_prefixes-IsNamed :
    (pages : List (List String)) → All IsNamed (list_storage_prefixes pages)
unfolding list_storage_prefixes
list_storage_prefixes-IsNamed [] = tt
list_storage_prefixes-IsNamed (page ∷ pages) =
    All-append (prefixes_of_page page) (list_storage_prefixes pages) (prefixes_of_page-IsNamed page)
      (list_storage_prefixes-IsNamed pages)
