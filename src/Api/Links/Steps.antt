-- ===== src/Api/Links/Steps.antt =====
-- Where the page links of a response lead.
use teehr_cloud_core.Base.{
  ℕ, ◌+◌, ◌-◌, ◌<◌, String, ◌≡◌, refl, sym, ap, ◌∙◌, inl, inr, true, false, Option, none, some,
  List, [], ◌∷◌, arith, ltb, eqb, if◌then◌else◌, Bool-cases, eqb_refl, ◌==◌,
}
use teehr_cloud_core.Api.Links.{
  Query, Link, Target, request_itself, collection_document, page, parse_qs, first_values, set_page,
  page_links,
}
use teehr_cloud_core.Api.Links.Queries.{
  first_value, first_value-first_values, parse_qs-first, set_page-first, paged,
}

abbrev query_of : Target → Option Query
query_of request_itself = none
query_of (collection_document id) = none
query_of (page query) = some query

-- The query of the first link with a relation.
abbrev pub query_to : String → List Link → Option Query
query_to rel [] = none
query_to rel (link ∷ links) = if link.rel == rel then query_of link.target else query_to rel links

-- A query with a page set in it: the other names keep their first values.
abbrev pub IsPage : ℕ → ℕ → Query → Query → Type 0
IsPage offset limit query to =
    (name : String) → first_value name to ≡ paged offset limit name (first_value name query)

set_page-IsPage :
    (offset limit : ℕ) (query : Query)
    → IsPage offset limit query (first_values (set_page offset limit (parse_qs query)))
set_page-IsPage offset limit query name =
    let (sound, first) = parse_qs-first name query in
    let (_, set) = set_page-first offset limit (parse_qs query) name sound in
    set ∙ ap (paged offset limit name) first

-- A full page has a link to the page after it, whose query sets that offset and the limit and keeps the
-- first value that is not empty of every other name; another page has no such link.
pub page_links-next :
    (media_type : String) (limit offset number_returned : ℕ) (query : Query)
    → (eqb number_returned limit ≡ true
        → (to : Query) × (query_to "next" (page_links media_type limit offset number_returned query)
            ≡ some to)
          × IsPage (offset + limit) limit query to)
      × (eqb number_returned limit ≡ false
          → query_to "next" (page_links media_type limit offset number_returned query) ≡ none)
unfolding page_links
page_links-next media_type limit offset number_returned query = (
  λ e. (
    first_values (set_page (offset + limit) limit (parse_qs query)),
    rw e refl,
    set_page-IsPage (offset + limit) limit query,
  ),
  λ e. rw e (elim (Bool-cases (ltb 0 offset)) [ inl f ↦ rw f refl | inr f ↦ rw f refl ]),
)

paged-paged :
    (offset before limit : ℕ) (name : String) (kept : Option String)
    → paged offset limit name (paged before limit name kept) ≡ paged offset limit name kept
paged-paged offset before limit name kept = elim (Bool-cases ("limit" == name)) [
  | inl e ↦ rw e refl
  | inr e ↦ elim (Bool-cases ("offset" == name)) [ inl f ↦ rw (e, f) refl | inr f ↦ rw (e, f) refl ]
]

-- a page that is set where another was set before
set_page-over :
    (offset before limit : ℕ) (query : Query)
    → IsPage offset limit query
        (first_values (set_page offset limit (set_page before limit (parse_qs query))))
set_page-over offset before limit query name =
    let (sound, first) = parse_qs-first name query in
    let (kept, set) = set_page-first before limit (parse_qs query) name sound in
    let (_, over) =
      set_page-first offset limit (set_page before limit (parse_qs query)) name kept in
    let held = sym (first_value-first_values name _ kept) ∙ set in
    over
    ∙ ap (paged offset limit name) (held ∙ ap (paged before limit name) first)
    ∙ paged-paged offset before limit name (first_value name query)

-- A page that is not the first has a link to the page before it.
pub page_links-prev :
    (media_type : String) (limit offset number_returned : ℕ) (query : Query)
    → 0 < offset
    → (to : Query) × (query_to "prev" (page_links media_type limit offset number_returned query)
        ≡ some to)
      × IsPage (offset - limit) limit query to
unfolding page_links
page_links-prev media_type limit offset number_returned query later =
    let shown : ltb 0 offset ≡ true = ground arith in
    elim (Bool-cases (eqb number_returned limit)) [
      | inl e ↦ (_, rw (e, shown) refl, set_page-over (offset - limit) (offset + limit) limit query)
      | inr e ↦ (_, rw (e, shown) refl, set_page-IsPage (offset - limit) limit query)
    ]

-- If a page is full and the limit is positive, then it has a link to a next page, and that page, whatever
-- it returns, has a link back: to the offset and the limit of the first page, with the first value
-- that is not empty of every other name of the first query.
pub next-prev :
    (media_type : String) (limit offset returned : ℕ) (query : Query)
    → 0 < limit
    → (to : Query) × (query_to "next" (page_links media_type limit offset limit query) ≡ some to)
      × (back : Query) × (query_to "prev" (page_links media_type limit (offset + limit) returned to)
          ≡ some back)
      × IsPage offset limit query back
next-prev media_type limit offset returned query positive =
    let (to, next, here) =
      (page_links-next media_type limit offset limit query).0 (eqb_refl limit) in
    let (back, prev, there) =
      page_links-prev media_type limit (offset + limit) returned to (omega arith) in
    let same : offset + limit - limit ≡ offset = omega arith in
    (
      to,
      next,
      back,
      prev,
      λ name.
          there name
          ∙ rw same (
              ap (paged offset limit name) (here name)
              ∙ paged-paged offset (offset + limit) limit name (first_value name query)),
    )
