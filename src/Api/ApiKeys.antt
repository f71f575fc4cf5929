-- ===== src/Api/ApiKeys.antt =====
-- api/src/api_key_store.py: the table of API keys. The HMAC of a key, fresh ids and keys, and the clock
-- are parameters of the calls; a call on a store without its pool raises.
pub mod Lifecycle
pub mod Revoking
pub mod Copied
mod Tests
use mathlib.Core.Option
use teehr_cloud_core.Base.{
  ℕ, suc, ◌+◌, ◌-◌, ◌*◌, ◌/◌, ◌%◌, ◌^◌, ◌≤◌, ◌<◌, String, ◌≡◌, refl, sym, ap, ◌∙◌, ◌≢◌, ◌↔◌, ◌⊎◌,
  inl, inr, Bool, true, false, not, ◌&&◌, ◌||◌, Option, none, some, List, [], ◌∷◌, ◌++◌, map, arith,
  eq_iff, eq_refl, ltb, if◌then◌else◌, Bool-cases, Option-cases, is_some, any, ◌==◌, ◌<>◌,
  strip_suffix, ends_with, Result, ok, err, ◌>>=◌, ◌>>◌, or_raise, >>=-passed,
}
use teehr_cloud_core.Base.Decimal.{decimal}
use teehr_cloud_core.Api.Identity.{AuthIdentity}

-- A row of `api_keys`; "revoked_at" is NULL until the key is revoked.
pub record ApiKeyRow : Type 0 where
  pub id : String
  pub owner_sub : String
  pub name : String
  pub key_hash : String
  pub scopes : List String
  pub created_at : ℕ
  pub revoked_at : Option ℕ

abbrev pub Table : Type 0
Table = List ApiKeyRow

pub data StoreError : Type 0 where
  not_initialized unique_violation : StoreError

-- the row with this id (the primary key)
unfoldable pub row_by_id : String → Table → Option ApiKeyRow
row_by_id id [] = none
row_by_id id (row ∷ rows) = if row.id == id then some row else row_by_id id rows

-- `WHERE key_hash = $1`
unfoldable pub row_by_hash : String → Table → Option ApiKeyRow
row_by_hash key_hash [] = none
row_by_hash key_hash (row ∷ rows) =
    if row.key_hash == key_hash then some row else row_by_hash key_hash rows

-- `INSERT` under the primary key and the unique constraint on "key_hash"
unfoldable pub insert_row : ApiKeyRow → Table → Result StoreError Table
insert_row row rows =
    if is_some (row_by_id row.id rows) || is_some (row_by_hash row.key_hash rows)
    then err unique_violation
    else ok (row ∷ rows)

pub record CreatedKey : Type 0 where
  pub id : String
  pub name : String
  pub api_key : String
  pub scopes : List String

-- `none` is a store whose `startup` has not run
module _ (hash_key : String → String) where
  unfoldable pub create_key :
      String
      → String
      → ℕ
      → String
      → String
      → List String
      → Option Table
      → Result StoreError (Table × CreatedKey)
  create_key key_id plaintext now owner_sub name scopes pool = do
    rows ← or_raise pool not_initialized
    added ←
        insert_row
          (record {
            id = key_id;
            owner_sub = owner_sub;
            name = name;
            key_hash = hash_key plaintext;
            scopes = scopes;
            created_at = now;
            revoked_at = none;
          })
          rows
    ok (added, record { id = key_id; name = name; api_key = plaintext; scopes = scopes })

  abbrev pub key_identity : ApiKeyRow → AuthIdentity
  key_identity row = record {
    subject = row.owner_sub;
    auth_type = "api_key";
    roles = "api-key" ∷ [];
    scopes = row.scopes;
    preferred_username = none;
    groups = [];
  }

  abbrev pub unrevoked_identity : ApiKeyRow → Option AuthIdentity
  unrevoked_identity row = if is_some row.revoked_at then none else some (key_identity row)

  unfoldable pub validate_key : String → Option Table → Result StoreError (Option AuthIdentity)
  validate_key plaintext pool = do
    rows ← or_raise pool not_initialized
    ok (elim (row_by_hash (hash_key plaintext) rows) [
      | none ↦ none
      | some row ↦ unrevoked_identity row
    ])

-- `WHERE id = $2 AND owner_sub = $3 AND revoked_at IS NULL`
abbrev pub is_revocable : String → String → ApiKeyRow → Bool
is_revocable owner_sub key_id row =
    row.id == key_id && row.owner_sub == owner_sub && not (is_some row.revoked_at)

-- the UPDATE and the number of rows it reports
unfoldable pub update_revoked : ℕ → String → String → Table → Table × ℕ
update_revoked now owner_sub key_id [] = ([], 0)
update_revoked now owner_sub key_id (row ∷ rows) =
    let (updated, n) = update_revoked now owner_sub key_id rows in
    if is_revocable owner_sub key_id row
    then (record row { revoked_at = some now } ∷ updated, suc n)
    else (row ∷ updated, n)

unfoldable pub revoke_key : ℕ → String → String → Option Table → Result StoreError (Table × Bool)
revoke_key now owner_sub key_id pool = do
  rows ← or_raise pool not_initialized
  let updated = update_revoked now owner_sub key_id rows
  ok (updated.0, ends_with ("UPDATE " <> decimal updated.1) "1")

-- the entries of `list_keys`, without owners and hashes
pub record ListedKey : Type 0 where
  pub id : String
  pub name : String
  pub scopes : List String
  pub created_at : ℕ
  pub revoked_at : Option ℕ

abbrev pub listed : ApiKeyRow → ListedKey
listed row = record {
  id = row.id;
  name = row.name;
  scopes = row.scopes;
  created_at = row.created_at;
  revoked_at = row.revoked_at;
}

-- `ORDER BY created_at DESC`, by insertion
unfoldable pub insert_newest : ListedKey → List ListedKey → List ListedKey
insert_newest key [] = key ∷ []
insert_newest key (k ∷ listing) =
    if ltb key.created_at k.created_at then k ∷ insert_newest key listing else key ∷ k ∷ listing

unfoldable pub newest_first : Table → List ListedKey
newest_first [] = []
newest_first (row ∷ rows) = insert_newest (listed row) (newest_first rows)

unfoldable pub list_keys : Option Table → Result StoreError (List ListedKey)
list_keys pool = or_raise (Option.map newest_first pool) not_initialized

-- `ON CONFLICT (id) DO UPDATE SET revoked_at = COALESCE(api_keys.revoked_at, EXCLUDED.revoked_at)`
abbrev pub coalesce : Option ℕ → Option ℕ → Option ℕ
coalesce (some at) legacy = some at
coalesce none legacy = legacy

unfoldable pub merge_revoked : ApiKeyRow → Table → Table
merge_revoked legacy [] = []
merge_revoked legacy (row ∷ rows) =
    let rest = merge_revoked legacy rows in
    if row.id == legacy.id
    then record row { revoked_at = coalesce row.revoked_at legacy.revoked_at } ∷ rows
    else row ∷ rest

unfoldable pub upsert_legacy : ApiKeyRow → Table → Result StoreError Table
upsert_legacy legacy rows =
    if is_some (row_by_id legacy.id rows)
    then ok (merge_revoked legacy rows)
    else insert_row legacy rows

-- `executemany` in one transaction
unfoldable pub copy_legacy_keys : Table → Table → Result StoreError Table
copy_legacy_keys [] rows = ok rows
copy_legacy_keys (legacy ∷ legacies) rows = do
  merged ← upsert_legacy legacy rows
  copy_legacy_keys legacies merged
