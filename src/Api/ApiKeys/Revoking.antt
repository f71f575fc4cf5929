-- ===== src/Api/ApiKeys/Revoking.antt =====
-- Which keys `revoke_key` of api/src/api_key_store.py revokes.
use teehr_cloud_core.Base.{
  ℕ, String, ◌≡◌, refl, ap, inl, inr, true, false, none, some, [], ◌∷◌, map, arith, eq_iff,
  if◌then◌else◌, Bool-cases, any, ◌==◌, ◌<>◌, strip_suffix, ends_with, ok,
}
use teehr_cloud_core.Base.Decimal.{decimal, decimal_of_zero, decimal_of_one}
use teehr_cloud_core.Api.ApiKeys.{
  ApiKeyRow, Table, row_by_id, is_revocable, update_revoked, revoke_key,
}

-- The primary key.
abbrev pub HasUniqueIds : Table → Type 0
HasUniqueIds [] = Unit
HasUniqueIds (row ∷ rows) = (row_by_id row.id rows ≡ none) × HasUniqueIds rows

-- What a revocation makes of a row.
abbrev pub revoked_row : ℕ → String → String → ApiKeyRow → ApiKeyRow
revoked_row now owner_sub key_id row =
    if is_revocable owner_sub key_id row then record row { revoked_at = some now } else row

pub update_revoked-map :
    (now : ℕ) (owner_sub key_id : String) (rows : Table)
    → (update_revoked now owner_sub key_id rows).0 ≡ map (revoked_row now owner_sub key_id) rows
unfolding update_revoked
update_revoked-map now owner_sub key_id [] = refl
update_revoked-map now owner_sub key_id (row ∷ rows) =
    let rest = update_revoked-map now owner_sub key_id rows in
    elim (Bool-cases (is_revocable owner_sub key_id row)) [
      | inl e ↦ rw e (ap (λ r. record row { revoked_at = some now } ∷ r) rest)
      | inr e ↦ rw e (ap (λ r. row ∷ r) rest)
    ]

-- no row with the id, so none to revoke
pub none_revocable :
    (owner_sub key_id : String) (rows : Table)
    → row_by_id key_id rows ≡ none
    → any (is_revocable owner_sub key_id) rows ≡ false
unfolding row_by_id
none_revocable owner_sub key_id [] e = refl
none_revocable owner_sub key_id (row ∷ rows) e = elim (Bool-cases (row.id == key_id)) [
  | inl same ↦ cc (rw (same, row_by_id) at e)
  | inr other ↦ rw other (none_revocable owner_sub key_id rows (rw (row_by_id, other) at e))
]

update_revoked-count :
    (now : ℕ) (owner_sub key_id : String) (rows : Table)
    → HasUniqueIds rows
    → (update_revoked now owner_sub key_id rows).1
      ≡ (if any (is_revocable owner_sub key_id) rows then 1 else 0)
unfolding update_revoked
update_revoked-count now owner_sub key_id [] unique = refl
update_revoked-count now owner_sub key_id (row ∷ rows) (fresh, unique) =
    let rest = update_revoked-count now owner_sub key_id rows unique in
    elim (Bool-cases (is_revocable owner_sub key_id row)) [
      | inr e ↦ rw (e, rest)
      | inl e ↦
          let same : row.id ≡ key_id = (eq_iff row.id key_id).0 (ground arith) in
          let others = none_revocable owner_sub key_id rows (rw same at fresh) in
          rw (e, rest, others)
    ]

one_updated : ends_with ("UPDATE " <> decimal 1) "1" ≡ true
unfolding strip_suffix
one_updated = rw decimal_of_one refl

none_updated : ends_with ("UPDATE " <> decimal 0) "1" ≡ false
unfolding strip_suffix
none_updated = rw decimal_of_zero refl

-- In a table whose ids are unique, a revocation stamps exactly the unrevoked key with the id that the
-- owner has, changes no other key, and answers whether there was such a key.
pub revoke_key_lem :
    (now : ℕ) (owner_sub key_id : String) (rows : Table)
    → HasUniqueIds rows
    → revoke_key now owner_sub key_id (some rows)
      ≡ ok (map (revoked_row now owner_sub key_id) rows, any (is_revocable owner_sub key_id) rows)
unfolding revoke_key
revoke_key_lem now owner_sub key_id rows unique =
    rw
      (
        update_revoked-map now owner_sub key_id rows,
        update_revoked-count now owner_sub key_id rows unique,
      )
      (elim (Bool-cases (any (is_revocable owner_sub key_id) rows)) [
        | inl e ↦ rw (e, one_updated)
        | inr e ↦ rw (e, none_updated)
      ])
