-- ===== src/Api/Records/Paging.antt =====
-- What a client receives that follows the next links of a collection of records.
use mathlib.Core.Option.{some-injective}
use teehr_cloud_core.Base.{
  ℕ, zero, suc, ◌+◌, ◌≤◌, ◌<◌, min, String, ◌≡◌, refl, sym, ap, ◌∙◌, inl, inr, false, Option, none,
  some, List, [], ◌∷◌, ◌++◌, map, arith, eqb, if◌then◌else◌, Bool-cases, Option-cases, or_default,
  length, Result, ok, ◌>>=◌,
}
use teehr_cloud_core.Api.Identity.{
  AuthIdentity, Limits, record_limit_for_identity, apply_role_record_limit,
  effective_limit_for_request, anonymous,
}
use teehr_cloud_core.Api.Links.{Query, parse_qs, set_page}
use teehr_cloud_core.Api.Sql.{Raised}
use teehr_cloud_core.Api.Records.Pages.{
  take, drop, take-drop, drop-drop, length-drop, short_page, full_page,
}
use teehr_cloud_core.Api.Records.{
  Link, self_link, collection_link, next_link, all_values, Response, PageRequest, limit_of,
  select_records, records_response, query_records,
}

effective_limit_idem :
    (limits : Limits) (identity : Option AuthIdentity) (requested : Option ℕ) (n : ℕ)
    → effective_limit_for_request limits identity requested ≡ some n
    → effective_limit_for_request limits identity (some n) ≡ some n
unfolding effective_limit_for_request apply_role_record_limit
effective_limit_idem limits identity requested n e =
    elim (Option-cases (record_limit_for_identity limits (or_default identity anonymous))) [
      | inl f ↦ rw (effective_limit_for_request, apply_role_record_limit, f) refl
      | inr (cap, f) ↦ elim (Option-cases requested) [
        | inl g ↦
            let same : cap ≡ n =
              some-injective _ _
                (rw (effective_limit_for_request, apply_role_record_limit, f, g) at e) in
            rw (effective_limit_for_request, apply_role_record_limit, f) (ap some (omega arith))
        | inr (asked, g) ↦
            let same : min asked cap ≡ n =
              some-injective _ _
                (rw (effective_limit_for_request, apply_role_record_limit, f, g) at e) in
            rw (effective_limit_for_request, apply_role_record_limit, f) (ap some (omega arith))
      ]
    ]

module _ (limits : Limits) (catalog schema : String) {Row : Type 0}
    (execute : String → Result Raised (List Row)) (prepare : Row → Row) (str_of : Raised → String)
    (collection_id order_by : String) (conditions : List String) where
  abbrev pub fetch : PageRequest → Result Raised (Response Row)
  fetch page =
      query_records limits catalog schema execute prepare str_of page collection_id order_by
        conditions

  -- the next link of a response
  abbrev pub next_of : List Link → Option (ℕ × ℕ × Query)
  next_of [] = none
  next_of (link ∷ links) = elim link [
    | self_link ↦ next_of links
    | collection_link id ↦ next_of links
    | next_link offset limit query ↦ some (offset, limit, query)
  ]

  -- A client that follows the next links, for as many pages as it has fuel.
  unfoldable pub follow : ℕ → PageRequest → Result Raised (List Row)
  follow zero page = ok []
  follow (suc fuel) page = do
    response ← fetch page
    elim (next_of response.links) [
      | none ↦ ok response.items
      | some (offset, limit, query) ↦ do
        rest ← follow fuel (record {
          identity = page.identity;
          limit = some limit;
          offset = some offset;
          query = query;
        })
        ok (response.items ++ rest)
    ]

  -- The database answers a page of fixed rows in a fixed order.
  abbrev pub AnswersPagesOf : List Row → ℕ → Type 0
  AnswersPagesOf rows n =
      (offset : Option ℕ)
      → or_default offset 0 ≤ length rows
      → execute
          (select_records limits catalog schema collection_id conditions order_by offset (some n))
        ≡ ok (take n (drop (or_default offset 0) rows))

  -- The query of a next link.
  abbrev next_query : ℕ → ℕ → Query → Query
  next_query offset limit query = all_values (set_page offset limit (parse_qs query))

  next_of_response :
      (n o : ℕ) (offset : Option ℕ) (query : Query) (rows : List Row)
      → or_default offset 0 ≡ o
      → 0 < n
      → next_of
          (records_response limits catalog schema execute prepare str_of collection_id
            (some n)
            offset
            query
            rows).links
        ≡ (if eqb (length rows) n then some (o + n, n, next_query (o + n) n query) else none)
  next_of_response n o offset query [] e positive =
      let short : eqb 0 n ≡ false = ground (arith, positive) in rw short refl
  next_of_response n o offset query (row ∷ rows) e positive =
      elim (Bool-cases (eqb (length (row ∷ rows)) n)) [ inl t ↦ rw (t, e) refl | inr t ↦ rw t refl ]

  items_of_response :
      (limit offset : Option ℕ) (query : Query) (rows : List Row)
      → (records_response limits catalog schema execute prepare str_of collection_id limit offset
          query rows).items
        ≡ map prepare rows
  items_of_response limit offset query [] = refl
  items_of_response limit offset query (row ∷ rows) = refl

  map-append : (xs ys : List Row) → map prepare (xs ++ ys) ≡ map prepare xs ++ map prepare ys
  map-append [] ys = refl
  map-append (x ∷ xs) ys = ap (λ l. prepare x ∷ l) (map-append xs ys)

  -- one page and those after it
  follow-next :
      (fuel : ℕ) (page : PageRequest) (response : Response Row) (offset limit : ℕ) (query : Query)
      (rest : List Row)
      → fetch page ≡ ok response
      → next_of response.links ≡ some (offset, limit, query)
      → follow fuel (record {
        identity = page.identity;
        limit = some limit;
        offset = some offset;
        query = query;
      })
        ≡ ok rest
      → follow (suc fuel) page ≡ ok (response.items ++ rest)
  unfolding follow
  follow-next fuel page response offset limit query rest e f g = rw (follow, e, ◌>>=◌, f, g) refl

  module _ (rows : List Row) (n : ℕ) (positive : 0 < n) (answers : AnswersPagesOf rows n) where
    fetch-page :
        (page : PageRequest) (o : ℕ)
        → limit_of limits catalog schema page ≡ some n
        → or_default page.offset 0 ≡ o
        → o ≤ length rows
        → fetch page
          ≡ ok (
              records_response limits catalog schema execute prepare str_of collection_id
                (some n)
                page.offset
                page.query
                (take n (drop o rows)))
    unfolding query_records
    fetch-page page o e f within = rw (query_records, e, answers page.offset (rw f within), f) refl

    follow-drop :
        (fuel : ℕ) (page : PageRequest) (o : ℕ)
        → limit_of limits catalog schema page ≡ some n
        → or_default page.offset 0 ≡ o
        → o ≤ length rows
        → length (drop o rows) < fuel
        → follow fuel page ≡ ok (map prepare (drop o rows))
    unfolding follow
    follow-drop zero page o e f within h = absurd (omega arith)
    follow-drop (suc fuel) page o e f within h =
        let xs = take n (drop o rows) in
        elim (Bool-cases (eqb (length xs) n)) [
          | inr t ↦
              rw
                (
                  follow,
                  fetch-page page o e f within,
                  ◌>>=◌,
                  next_of_response n o page.offset page.query xs f positive,
                  t,
                  items_of_response (some n) page.offset page.query xs,
                )
                (ap (λ l. ok (map prepare l)) (short_page n (drop o rows) t))
          | inl t ↦
              let counted = full_page n (drop o rows) t in
              let left : length (drop (o + n) rows) < fuel =
                rw (← drop-drop o n rows) (omega arith) in
              let further : o + n ≤ length rows =
                (let l = length-drop o rows within in omega arith) in
              let rest =
                follow-drop fuel
                  (record {
                    identity = page.identity;
                    limit = some n;
                    offset = some (o + n);
                    query = next_query (o + n) n page.query;
                  })
                  (o + n) (effective_limit_idem limits page.identity page.limit n e) refl further
                  left in
              let response =
                records_response limits catalog schema execute prepare str_of collection_id (some n)
                  page.offset page.query xs in
              let next : next_of response.links ≡ some (o + n, n, next_query (o + n) n page.query) =
                next_of_response n o page.offset page.query xs f positive ∙ rw t refl in
              follow-next fuel page response (o + n) n (next_query (o + n) n page.query) _
                (fetch-page page o e f within) next rest
              ∙ ap ok (
                  ap (λ l. l ++ map prepare (drop (o + n) rows))
                    (items_of_response (some n) page.offset page.query xs)
                  ∙ ap (λ l. map prepare xs ++ map prepare l) (sym (drop-drop o n rows))
                  ∙ sym (map-append xs (drop n (drop o rows)))
                  ∙ ap (map prepare) (take-drop n (drop o rows)))
        ]

  -- If the database answers every page with the rows of that page, in a fixed order, and the caller has
  -- a positive limit, then a client that starts without an offset and follows the next links receives
  -- every row once, in order, and the links end.
  pub follow-all :
      (rows : List Row) (n : ℕ) (identity : Option AuthIdentity) (requested : Option ℕ)
      (query : Query)
      → effective_limit_for_request limits identity requested ≡ some n
      → 0 < n
      → AnswersPagesOf rows n
      → follow
          (suc (length rows))
          (record { identity = identity; limit = requested; offset = none; query = query })
        ≡ ok (map prepare rows)
  follow-all rows n identity requested query e positive answers =
      follow-drop rows n positive answers (suc (length rows)) _ 0 e refl (omega arith) (omega arith)
