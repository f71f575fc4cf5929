-- ===== src/Api/ApiKeys/Copied.antt =====
-- The copy of the legacy keys in api/src/api_key_store.py, which every start repeats.
use teehr_cloud_core.Base.{
  ℕ, ◌≡◌, refl, sym, ap, ◌∙◌, inl, inr, true, Option, none, some, [], ◌∷◌, Bool-cases, is_some, All,
  eq_iff, ◌==◌, ok, >>=-passed, ok-injective,
}
use mathlib.Core.Option.{some-injective}
use teehr_cloud_core.Api.ApiKeys.{
  ApiKeyRow, Table, row_by_id, insert_row, coalesce, merge_revoked, upsert_legacy, copy_legacy_keys,
}
use teehr_cloud_core.Api.ApiKeys.Lifecycle.{insert_row-ok}

-- The table has the legacy key, and its revocation if it was revoked.
abbrev pub Absorbs : Table → ApiKeyRow → Type 0
Absorbs rows legacy =
    (row : ApiKeyRow) × (row_by_id legacy.id rows ≡ some row)
    × (coalesce row.revoked_at legacy.revoked_at ≡ row.revoked_at)

coalesce_twice : (a b : Option ℕ) → coalesce (coalesce a b) b ≡ coalesce a b
coalesce_twice (some x) b = refl
coalesce_twice none none = refl
coalesce_twice none (some y) = refl

coalesce_same : (a : Option ℕ) → coalesce a a ≡ a
coalesce_same none = refl
coalesce_same (some x) = refl

coalesce_absorbed : (a b c : Option ℕ) → coalesce a c ≡ a → coalesce (coalesce a b) c ≡ coalesce a b
coalesce_absorbed (some x) b c e = refl
coalesce_absorbed none none c e = e
coalesce_absorbed none (some y) c e = refl

-- An absorbed key changes nothing.
merge_revoked-Absorbs :
    (legacy : ApiKeyRow) (rows : Table) → Absorbs rows legacy → merge_revoked legacy rows ≡ rows
unfolding merge_revoked row_by_id
merge_revoked-Absorbs legacy [] (row, found, e) = cc
merge_revoked-Absorbs legacy (r ∷ rows) (row, found, e) = elim (Bool-cases (r.id == legacy.id)) [
  | inl same ↦
      let is : r ≡ row = some-injective _ _ (rw (row_by_id, same) at found) in
      rw (merge_revoked, same)
        (ap (λ at. record r { revoked_at = at } ∷ rows)
          (ap (λ (x : ApiKeyRow). coalesce x.revoked_at legacy.revoked_at) is
            ∙ e
            ∙ ap (λ (x : ApiKeyRow). x.revoked_at) (sym is)))
  | inr other ↦
      rw (merge_revoked, other)
        (ap (λ rest. r ∷ rest)
          (merge_revoked-Absorbs legacy rows (row, rw (row_by_id, other) at found, e)))
]

-- A key that is merged is absorbed, and what was absorbed stays.
Absorbs-merged :
    (legacy : ApiKeyRow) (rows : Table)
    → is_some (row_by_id legacy.id rows) ≡ true
    → Absorbs (merge_revoked legacy rows) legacy
unfolding merge_revoked row_by_id
Absorbs-merged legacy [] found = cc
Absorbs-merged legacy (r ∷ rows) found = elim (Bool-cases (r.id == legacy.id)) [
  | inl same ↦
      rw (merge_revoked, same, row_by_id, same)
        (_, refl, coalesce_twice r.revoked_at legacy.revoked_at)
  | inr other ↦
      rw (merge_revoked, other, row_by_id, other)
        (Absorbs-merged legacy rows (rw (row_by_id, other) at found))
]

merge_keeps_Absorbs :
    (legacy other : ApiKeyRow) (rows : Table)
    → Absorbs rows other
    → Absorbs (merge_revoked legacy rows) other
unfolding merge_revoked row_by_id
merge_keeps_Absorbs legacy other [] (row, found, e) = cc
merge_keeps_Absorbs legacy other (r ∷ rows) (row, found, e) =
    elim (Bool-cases (r.id == legacy.id)) [
      | inl same ↦ elim (Bool-cases (r.id == other.id)) [
        | inl it ↦
            let is : r ≡ row = some-injective _ _ (rw (row_by_id, it) at found) in
            rw (merge_revoked, same, row_by_id, it)
              (_, refl, coalesce_absorbed r.revoked_at legacy.revoked_at other.revoked_at (rw is e))
        | inr not_it ↦
            rw (merge_revoked, same, row_by_id, not_it) (row, rw (row_by_id, not_it) at found, e)
      ]
      | inr differs ↦ elim (Bool-cases (r.id == other.id)) [
        | inl it ↦ rw (merge_revoked, differs, row_by_id, it) (row, rw (row_by_id, it) at found, e)
        | inr not_it ↦
            rw (merge_revoked, differs, row_by_id, not_it)
              (merge_keeps_Absorbs legacy other rows (row, rw (row_by_id, not_it) at found, e))
      ]
    ]

insert_keeps_Absorbs :
    (legacy other : ApiKeyRow) (rows added : Table)
    → insert_row legacy rows ≡ ok added
    → Absorbs rows other
    → Absorbs added other
unfolding row_by_id
insert_keeps_Absorbs legacy other rows added inserted (row, found, e) =
    let (made, fresh, rest) = insert_row-ok legacy rows added inserted in
    rw made (elim (Bool-cases (legacy.id == other.id)) [
      | inl same ↦ cc (
        ap is_some (ap (λ k. row_by_id k rows) ((eq_iff legacy.id other.id).0 same) ∙ found),
        fresh,
      )
      | inr differs ↦ rw (row_by_id, differs) (row, found, e)
    ])

inserted-Absorbs :
    (legacy : ApiKeyRow) (rows added : Table)
    → insert_row legacy rows ≡ ok added
    → Absorbs added legacy
unfolding row_by_id
inserted-Absorbs legacy rows added inserted =
    let (made, fresh, rest) = insert_row-ok legacy rows added inserted in
    rw made (
      rw (row_by_id, (eq_iff legacy.id legacy.id).1 refl)
        (legacy, refl, coalesce_same legacy.revoked_at))

upsert-Absorbs :
    (legacy : ApiKeyRow) (rows merged : Table)
    → upsert_legacy legacy rows ≡ ok merged
    → Absorbs merged legacy × ((other : ApiKeyRow) → Absorbs rows other → Absorbs merged other)
unfolding upsert_legacy
upsert-Absorbs legacy rows merged e = elim (Bool-cases (is_some (row_by_id legacy.id rows))) [
  | inl known ↦
      let is : merge_revoked legacy rows ≡ merged =
        ok-injective _ _ (rw (upsert_legacy, known) at e) in
      rw (← is) (Absorbs-merged legacy rows known, λ other. merge_keeps_Absorbs legacy other rows)
  | inr fresh ↦
      let inserted : insert_row legacy rows ≡ ok merged = rw (upsert_legacy, fresh) at e in
      (
        inserted-Absorbs legacy rows merged inserted,
        λ other. insert_keeps_Absorbs legacy other rows merged inserted,
      )
]

upsert_absorbed :
    (legacy : ApiKeyRow) (rows : Table) → Absorbs rows legacy → upsert_legacy legacy rows ≡ ok rows
unfolding upsert_legacy
upsert_absorbed legacy rows (row, found, e) =
    rw (upsert_legacy, found) (ap ok (merge_revoked-Absorbs legacy rows (row, found, e)))

copy-Absorbs :
    (legacies rows copied : Table)
    → copy_legacy_keys legacies rows ≡ ok copied
    → All (Absorbs copied) legacies
      × ((other : ApiKeyRow) → Absorbs rows other → Absorbs copied other)
unfolding copy_legacy_keys
copy-Absorbs [] rows copied e =
    let is : rows ≡ copied = ok-injective _ _ e in (tt, λ other had. rw (← is) had)
copy-Absorbs (legacy ∷ legacies) rows copied e =
    let (merged, upserted, rest) = >>=-passed (upsert_legacy legacy rows) _ e in
    let (this, kept) = upsert-Absorbs legacy rows merged upserted in
    let (others, kept_on) = copy-Absorbs legacies merged copied rest in
    ((kept_on legacy this, others), λ other had. kept_on other (kept other had))

copy_absorbed :
    (legacies rows : Table) → All (Absorbs rows) legacies → copy_legacy_keys legacies rows ≡ ok rows
unfolding copy_legacy_keys
copy_absorbed [] rows had = refl
copy_absorbed (legacy ∷ legacies) rows (this, others) =
    rw (copy_legacy_keys, upsert_absorbed legacy rows this) (copy_absorbed legacies rows others)

-- A second copy of the same legacy keys changes nothing.
pub copy_legacy_keys-twice :
    (legacies rows copied : Table)
    → copy_legacy_keys legacies rows ≡ ok copied
    → copy_legacy_keys legacies copied ≡ ok copied
copy_legacy_keys-twice legacies rows copied e =
    copy_absorbed legacies copied (copy-Absorbs legacies rows copied e).0
