-- ===== src/Api/Links/Tests.antt =====
-- The page links of a request with a filter that is given twice.
use teehr_cloud_core.Base.{◌+◌, ◌≡◌, refl, some, [], ◌∷◌, arith}
use teehr_cloud_core.Base.Dict.{lookup, insert}
use teehr_cloud_core.Base.Decimal.{decimal}
use teehr_cloud_core.Api.Links.{Query, page_links, parse_qs, first_values, set_page}
use teehr_cloud_core.Api.Links.Steps.{query_to, IsPage, next-prev}

abbrev query : Query
query = ("id", "usgs-1") ∷ ("id", "usgs-2") ∷ ("prefix", "") ∷ ("limit", "50") ∷ []

next-prev_example :
    (to : Query) × (query_to "next" (page_links "application/json" 50 0 50 query) ≡ some to)
    × (back : Query) × (query_to "prev" (page_links "application/json" 50 (0 + 50) 7 to)
        ≡ some back)
    × IsPage 0 50 query back
next-prev_example = next-prev "application/json" 50 0 7 query (omega arith)

next_query :
    query_to "next" (page_links "application/json" 50 0 50 query)
    ≡ some (("id", "usgs-1") ∷ ("limit", "50") ∷ ("offset", "50") ∷ [])
unfolding page_links parse_qs first_values set_page lookup insert decimal
next_query = refl
