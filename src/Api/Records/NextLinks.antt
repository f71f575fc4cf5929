-- ===== src/Api/Records/NextLinks.antt =====
-- The filters of a request in the next links of api/src/routes/crosswalks.py, timeseries.py and
-- reference_data.py.
use teehr_cloud_core.Base.{List, [], ◌∷◌}
use teehr_cloud_core.Base.Dict.{Dict}
use teehr_cloud_core.Api.Links.{Query}
use teehr_cloud_core.Api.Records.{Link, self_link, collection_link, next_link}

-- The query of the first link.
abbrev query_of : List Link → Query
query_of [] = []
query_of (link ∷ links) = elim link [
  | self_link ↦ []
  | collection_link id ↦ []
  | next_link offset limit query ↦ query
]
