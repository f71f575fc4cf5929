-- ===== src/Api/ApiKeys/Lifecycle.antt =====
-- A key of api/src/api_key_store.py from its creation to its revocation.
use teehr_cloud_core.Base.{
  ℕ, String, ◌≡◌, refl, sym, ap, ◌∙◌, inl, inr, Bool, true, false, ◌||◌, Option, none, some, List,
  [], ◌∷◌, arith, eq_iff, eq_refl, Bool-cases, Option-cases, is_some, ◌==◌, ok, >>=-passed,
  ok-injective,
}
use teehr_cloud_core.Api.ApiKeys.{
  ApiKeyRow, Table, CreatedKey, row_by_id, row_by_hash, insert_row, create_key, validate_key,
  is_revocable, update_revoked, revoke_key, merge_revoked, upsert_legacy, copy_legacy_keys,
  coalesce,
}

-- The key with this hash is in the table and revoked.
abbrev pub is_revoked : String → Table → Bool
is_revoked h rows = elim (row_by_hash h rows) [ none ↦ false | some row ↦ is_some row.revoked_at ]

pub insert_row-ok :
    (row : ApiKeyRow) (rows added : Table)
    → insert_row row rows ≡ ok added
    → (added ≡ row ∷ rows)
      × (is_some (row_by_id row.id rows) ≡ false)
      × (is_some (row_by_hash row.key_hash rows) ≡ false)
unfolding insert_row
insert_row-ok row rows added e =
    elim (Bool-cases (is_some (row_by_id row.id rows) || is_some (row_by_hash row.key_hash rows))) [
      | inl t ↦ absurd (ground (arith, rw (t, insert_row) at e))
      | inr t ↦ (ground (arith, rw (t, insert_row) at e), ground arith, ground arith)
    ]

insert_row_revoked :
    (h : String) (row : ApiKeyRow) (rows added : Table)
    → insert_row row rows ≡ ok added
    → is_revoked h rows ≡ true
    → is_revoked h added ≡ true
unfolding row_by_hash
insert_row_revoked h row rows added e revoked =
    let (made, _, fresh) = insert_row-ok row rows added e in
    rw made (elim (Bool-cases (row.key_hash == h)) [
      | inl same ↦ absurd (clash ((eq_iff row.key_hash h).0 same) fresh)
      | inr other ↦ rw (is_revoked, row_by_hash, other) revoked
    ])
  where
    clash : row.key_hash ≡ h → is_some (row_by_hash row.key_hash rows) ≡ false → ⊥
    clash same fresh = elim (Option-cases (row_by_hash h rows)) [
      | inl f ↦ ground (arith, f)
      | inr (r, f) ↦ ground (arith, f, rw same at fresh)
    ]

update_revoked_revoked :
    (h : String) (now : ℕ) (owner_sub key_id : String) (rows : Table)
    → is_revoked h rows ≡ true
    → is_revoked h (update_revoked now owner_sub key_id rows).0 ≡ true
unfolding row_by_hash update_revoked
update_revoked_revoked h now owner_sub key_id [] e = e
update_revoked_revoked h now owner_sub key_id (row ∷ rows) e =
    elim (Bool-cases (row.key_hash == h)) [
      | inl same ↦ elim (Bool-cases (is_revocable owner_sub key_id row)) [
        | inl f ↦ rw (f, is_revoked, row_by_hash, same) refl
        | inr f ↦ rw (f, is_revoked, row_by_hash, same) (rw (is_revoked, row_by_hash, same) at e)
      ]
      | inr other ↦
          let rest =
            update_revoked_revoked h now owner_sub key_id rows
              (rw (is_revoked, row_by_hash, other) at e) in
          elim (Bool-cases (is_revocable owner_sub key_id row)) [
            | inl f ↦ rw (f, is_revoked, row_by_hash, other) rest
            | inr f ↦ rw (f, is_revoked, row_by_hash, other) rest
          ]
    ]

coalesce_some : (old legacy : Option ℕ) → is_some old ≡ true → is_some (coalesce old legacy) ≡ true
coalesce_some none legacy e = absurd (ground (arith, e))
coalesce_some (some at) legacy e = refl

merge_revoked_revoked :
    (h : String) (legacy : ApiKeyRow) (rows : Table)
    → is_revoked h rows ≡ true
    → is_revoked h (merge_revoked legacy rows) ≡ true
unfolding row_by_hash merge_revoked
merge_revoked_revoked h legacy [] e = e
merge_revoked_revoked h legacy (row ∷ rows) e = elim (Bool-cases (row.key_hash == h)) [
  | inl same ↦
      let revoked : is_some row.revoked_at ≡ true = rw (is_revoked, row_by_hash, same) at e in
      elim (Bool-cases (row.id == legacy.id)) [
        | inl f ↦
            rw (f, is_revoked, row_by_hash, same)
              (coalesce_some row.revoked_at legacy.revoked_at revoked)
        | inr f ↦ rw (f, is_revoked, row_by_hash, same) revoked
      ]
  | inr other ↦
      let later = rw (is_revoked, row_by_hash, other) at e in
      elim (Bool-cases (row.id == legacy.id)) [
        | inl f ↦ rw (f, is_revoked, row_by_hash, other) later
        | inr f ↦ rw (f, is_revoked, row_by_hash, other) (merge_revoked_revoked h legacy rows later)
      ]
]

upsert_legacy_revoked :
    (h : String) (legacy : ApiKeyRow) (rows merged : Table)
    → upsert_legacy legacy rows ≡ ok merged
    → is_revoked h rows ≡ true
    → is_revoked h merged ≡ true
unfolding upsert_legacy
upsert_legacy_revoked h legacy rows merged e revoked =
    elim (Bool-cases (is_some (row_by_id legacy.id rows))) [
      | inl f ↦
          let made : merge_revoked legacy rows ≡ merged =
            ok-injective _ _ (rw (f, upsert_legacy) at e) in
          rw (← made) (merge_revoked_revoked h legacy rows revoked)
      | inr f ↦ insert_row_revoked h legacy rows merged (rw (f, upsert_legacy) at e) revoked
    ]

copy_legacy_keys_revoked :
    (h : String) (legacies rows merged : Table)
    → copy_legacy_keys legacies rows ≡ ok merged
    → is_revoked h rows ≡ true
    → is_revoked h merged ≡ true
unfolding copy_legacy_keys
copy_legacy_keys_revoked h [] rows merged e revoked = rw (← ok-injective _ _ e) revoked
copy_legacy_keys_revoked h (legacy ∷ legacies) rows merged e revoked =
    let (middle, first, rest) =
      >>=-passed (upsert_legacy legacy rows) (λ m. copy_legacy_keys legacies m) e in
    copy_legacy_keys_revoked h legacies middle merged rest
      (upsert_legacy_revoked h legacy rows middle first revoked)

module _ (hash_key : String → String) where
  -- A call that changes the table.
  pub data Change (rows rows' : Table) : Type 0 where
    created :
        (key_id plaintext : String) (now : ℕ) (owner_sub name : String) (scopes : List String)
        (key : CreatedKey)
        → create_key hash_key key_id plaintext now owner_sub name scopes (some rows)
          ≡ ok (rows', key)
        → Change rows rows'
    revoked :
        (now : ℕ) (owner_sub key_id : String) (found : Bool)
        → revoke_key now owner_sub key_id (some rows) ≡ ok (rows', found)
        → Change rows rows'
    copied : (legacies : Table) → copy_legacy_keys legacies rows ≡ ok rows' → Change rows rows'

  -- Any calls, one after the other.
  pub data Changes (rows : Table) : Table → Type 0 where
    start : Changes rows rows
    next : {middle last : Table} → Changes rows middle → Change middle last → Changes rows last

  Change-revoked :
      (h : String) {rows rows' : Table}
      → Change rows rows'
      → is_revoked h rows ≡ true
      → is_revoked h rows' ≡ true
  unfolding create_key revoke_key
  Change-revoked h {rows} {rows'} (created key_id plaintext now owner_sub name scopes key e) r =
      let (added, made, result) = >>=-passed (insert_row _ rows) _ e in
      let same : added ≡ rows' = ap (λ p. p.0) (ok-injective _ _ result) in
      rw (← same) (insert_row_revoked h _ rows added made r)
  Change-revoked h {rows} {rows'} (revoked now owner_sub key_id found e) r =
      let same : (update_revoked now owner_sub key_id rows).0 ≡ rows' =
        ap (λ p. p.0) (ok-injective _ _ e) in
      rw (← same) (update_revoked_revoked h now owner_sub key_id rows r)
  Change-revoked h {rows} {rows'} (copied legacies e) r =
      copy_legacy_keys_revoked h legacies rows rows' e r

  changes_revoked :
      (h : String) {rows rows' : Table}
      → Changes rows rows'
      → is_revoked h rows ≡ true
      → is_revoked h rows' ≡ true
  changes_revoked h start r = r
  changes_revoked h (next before change) r = Change-revoked h change (changes_revoked h before r)

  -- A key that is revoked is refused after any creations, revocations and copies of legacy keys.
  pub revoked_key_is_refused :
      (plaintext : String) {rows rows' : Table}
      → is_revoked (hash_key plaintext) rows ≡ true
      → Changes rows rows'
      → validate_key hash_key plaintext (some rows') ≡ ok none
  unfolding validate_key
  revoked_key_is_refused plaintext {rows} {rows'} r changes =
      let still = changes_revoked (hash_key plaintext) changes r in
      elim (Option-cases (row_by_hash (hash_key plaintext) rows')) [
        | inl e ↦ rw e refl
        | inr (row, e) ↦ rw (e, (rw (is_revoked, e) at still)) refl
      ]

  -- A key that `create_key` returns is validated with its owner and scopes.
  pub create_key-validate_key :
      (key_id plaintext : String) (now : ℕ) (owner_sub name : String) (scopes : List String)
      (pool : Option Table) (rows : Table) (key : CreatedKey)
      → create_key hash_key key_id plaintext now owner_sub name scopes pool ≡ ok (rows, key)
      → (key.api_key ≡ plaintext)
        × (validate_key hash_key plaintext (some rows)
            ≡ ok (
                some (record {
                  subject = owner_sub;
                  auth_type = "api_key";
                  roles = "api-key" ∷ [];
                  scopes = scopes;
                  preferred_username = none;
                  groups = [];
                })))
  unfolding create_key validate_key row_by_hash
  create_key-validate_key key_id plaintext now owner_sub name scopes none rows key e = cc
  create_key-validate_key key_id plaintext now owner_sub name scopes (some before) rows key e =
      let (added, made, result) = >>=-passed (insert_row _ before) _ e in
      let (shape, _, _) = insert_row-ok _ before added made in
      let pair = ok-injective _ _ result in
      let same : rows ≡ _ = sym (ap (λ p. p.0) pair) ∙ shape in
      (ap (λ p. p.1.api_key) (sym pair), rw (same, eq_refl (hash_key plaintext)) refl)
