-- ===== src/Lib.antt =====
-- teehr-cloud-core: the services that publish the TEEHR warehouse, their access control and the state
-- that they keep.
--
-- Two services are modelled, with the client of the notebooks and the generator of their profiles.
-- xpublish-api (directory xpublish-api/src) serves icechunk repos and
-- vector tiles from S3. It decides by realm roles who may read a repo (authz.py), lends notebooks
-- temporary S3 credentials whose session policy is built from the same rules (credentials.py), lists
-- S3 (storage.py), and keeps a cache of opened datasets that is checked against the tip of the branch
-- (provider.py). The API (directory api/src) resolves the caller (auth.py), limits the rate and the
-- records (rate_limit.py, auth.py), keeps API keys (api_key_store.py) and delegated sessions
-- (delegated_session_store.py), and brokers tokens for the catalog (broker.py, routes/auth.py).
--
-- Base: texts, lists, dicts, error results and decimal numbers that the parts share.
-- Keycloak: the validator of tokens of api/src/auth.py, which xpublish-api/src/auth.py repeats, with its
--   caches of the keys. Children: Keys (what the caches hold), Accepted (what a token is accepted on).
-- Notebook: jupyterhub-docker/icechunk_access/icechunk_access.py, which opens what Xpublish.App lends.
--   Children: Opening (against the access rules), Renewal (of the credentials).
-- Profiles: generate_profile_list.py of jupyterhub-profiles; its child ConfigMap is
--   generate_profile_configmap_templates.py.
-- Xpublish.App, Xpublish.Pmtiles: the authentication middleware and the credentials route of main.py,
--   and the archives of pmtiles.py. Children of App: Gate (the middleware), Lending (the repos that are
--   named), Lent (the keys). Xpublish.Rules: the parsing of the rules from a JSON value.
-- Xpublish.Routes: the documents of a dataset, the list of the archives (child Listing) and the settings of
--   xpublish-api/src/main.py.
-- Xpublish.Identity, Xpublish.Authz: AuthIdentity, AccessRules, is_permitted, request_target and
--   is_request_permitted, in the order of the tests of authz.py. Children: Reads (the tests against the
--   rules as a relation), Listed (the sorted lists), Requests (paths).
-- Xpublish.Login: a request from its header to the gate, with the validator's state from one request to the
--   next. Child Admitted.
-- Xpublish.Startup: build_app up to its settings. Child Started.
-- Xpublish.Credentials: build_session_policy, policy_for, session_name and vend_credentials. Children:
--   Iam (an interface of what is relied on of AWS), Policy, Grants, Names.
-- Xpublish.Storage: the listings, given as the pages that S3 returns.
-- Xpublish.Provider: the provider as a record that each call returns anew; a call takes what it sees of
--   the clock, of S3 and of icechunk as one record. Children: Datasets, Owners, Fresh, Access,
--   Grid (the attributes and the status of a repo), Groups (what is opened of a repo).
-- Xpublish.Threads: the provider with interleaved calls, as a step relation over what they share. Children:
--   Exclusion (the locks), Loads (one load at a time), Opens (one opening), Progress (no deadlock).
-- Api.Identity, Api.RateLimit, Api.ApiKeys, Api.Sessions, Api.Broker, Api.Delegation: one file for each
--   source file above, and Delegation for the sessions of broker.py with the routes that use them. A
--   table of the database is a list of rows under its constraints, a store that has not been started
--   is an error value, and an HTTP error is its status and detail.
--
-- Api.Database, Api.Sql, Api.Records: the sanitiser and the retries of database.py; the conditions of
--   filtering.py, crosswalks.py and timeseries.py as the texts that enter a query; the handlers of
--   crosswalks.py and reference_data.py. A query text has single spaces where the source breaks lines,
--   and Trino answers a text with rows or an exception. Sql.Literals states how SQL reads quotes.
--   Children of Records: Pages and Paging (a client that follows the links), Filters and NextLinks (what
--   a next link keeps of the query of the request).
-- Api.Links, Api.Features: routes/utils.py of the API, the page links and the GeoJSON. Api.FixedCollections,
--   Api.Queryables: routes/queryables.py (children Schemas, Values, Texts, Refines). Api.Collections:
--   routes/metrics.py, with the cache of the schemas (child SchemaCache) and the refused filters (child
--   Refused). Api.Locations: routes/locations.py (child Bbox). Api.KeyRoutes: the routes of the API keys of
--   routes/auth.py.
-- Api.Foundation: routes/ogc_foundation.py. Children: Catalogue (the collections), Linked (their links).
-- Api.Serialization: prepare_for_serialization of routes/utils.py (child Compliant).
-- Api.Startup: the start of the stores and the origins of CORS in main.py (child Restart).
-- Api.OpenApi: the security of the document and the time limit of main.py.
-- Api.TokenRoutes: the route of the delegated sessions in routes/auth.py.
-- Api.Middleware: the middleware of main.py that attaches the identity and counts the request.
-- Api.Timeseries: the durations, the conditions and the handlers of timeseries.py.
--
-- Times are natural numbers that the calls take as arguments. Where the code reads the clock twice
-- within a call, the model says whether it takes two readings or one. Every loop is structural, so no
-- definition runs on fuel but Base.Decimal, whose digits fall with the number, and the client of
-- Api.Records.Paging, for which one page more than there are rows is enough.
--
-- Parameters stand for code outside the repository: S3, STS and IAM, icechunk, zarr, xarray, Trino,
-- pandas, the identity provider, PyJWT, Fernet, HMAC, and the class of Unicode word characters. The
-- laws that a theorem uses of them are fields of an interface (Iam, SessionJwt) or hypotheses of the
-- theorem. Calls are interleaved only in Xpublish.Threads; elsewhere a call runs from its beginning to
-- its end.
--
-- Not modelled: HTTP wiring, logging, most environment reads, the deployment manifests and the notebooks.
pub mod Base
pub mod Keycloak
pub mod Profiles
pub mod Notebook
pub mod Api
pub mod Xpublish
