-- ===== src/Xpublish/Storage/Tests.antt =====
-- A listing of two pages.
use teehr_cloud_core.Base.{String, List, [], ◌∷◌}

abbrev pages : List (List String)
pages = ("icechunk/gridded/" ∷ "icechunk//" ∷ []) ∷ ("icechunk/forecast/" ∷ []) ∷ []
