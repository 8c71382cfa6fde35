-- ===== src/Assets/Owned.antt =====
-- Fields and documents against the assets that they belong to (src/application/assets.py and the foreign
-- keys of src/infrastructure/database/tables.py).
use family_assistant_kernel.Prelude.{
  ℕ, ◌≡◌, refl, ◌∙◌, Bool, true, false, not, ◌==◌, String, List, [], ◌∷◌, ◌++◌, select, All,
  All-map, Bool-cases, inl, inr, arith,
}
use family_assistant_kernel.Storage.{find, exists, update_rows, delete_rows, insert}
use family_assistant_kernel.Storage.Exists.{exists-update_rows, exists-delete_rows}
use family_assistant_kernel.Assets.{
  AssetField, AssetDocument, Assets, guarded, asset, asset_field, asset_document, create_asset,
  update_asset, delete_asset, add_asset_field, update_asset_field, delete_asset_field,
  upload_asset_document, delete_asset_document, Command, create, rename, remove, add_field,
  update_field, delete_field, upload, delete_document, execute, run,
}

exists_kept :
    (j k : ℕ) (name : String) (rows : List (ℕ × String))
    → exists j rows ≡ true
    → exists j (rows ++ (k, name) ∷ []) ≡ true
unfolding exists find
exists_kept j k name [] h = let bad : ⊥ = ground (arith, h) in elim bad [ ]
exists_kept j k name ((i, old) ∷ rows) h = ground (arith, h, exists_kept j k name rows)

module _ {A : Type 0} (owner : A → ℕ) where
  -- every row belongs to an asset that is there
  abbrev AllOwned : List (ℕ × String) → List (ℕ × A) → Type 0
  AllOwned assets rows = All (λ r. exists (owner r.1) assets ≡ true) rows

  append-AllOwned :
      (assets : List (ℕ × String)) (rows : List (ℕ × A)) (k : ℕ) (a : A)
      → AllOwned assets rows
      → exists (owner a) assets ≡ true
      → AllOwned assets (rows ++ (k, a) ∷ [])
  append-AllOwned assets [] k a h e = (e, tt)
  append-AllOwned assets (r ∷ rows) k a h e = (h.0, append-AllOwned assets rows k a h.1 e)

  update_rows-AllOwned :
      (assets : List (ℕ × String)) (k : ℕ) (f : A → A) (rows : List (ℕ × A))
      → ((a : A) → owner (f a) ≡ owner a)
      → AllOwned assets rows
      → AllOwned assets (update_rows k f rows)
  unfolding update_rows
  update_rows-AllOwned assets k f [] same h = tt
  update_rows-AllOwned assets k f ((j, a) ∷ rows) same h = elim (Bool-cases (k == j)) [
    | inl e ↦ rw (e, same a) (h.0, update_rows-AllOwned assets k f rows same h.1)
    | inr e ↦ rw e (h.0, update_rows-AllOwned assets k f rows same h.1)
  ]

  delete_rows-AllOwned :
      (assets : List (ℕ × String)) (k : ℕ) (rows : List (ℕ × A))
      → AllOwned assets rows
      → AllOwned assets (delete_rows k rows)
  unfolding delete_rows
  delete_rows-AllOwned assets k [] h = tt
  delete_rows-AllOwned assets k ((j, a) ∷ rows) h = elim (Bool-cases (k == j)) [
    | inl e ↦ rw e (delete_rows-AllOwned assets k rows h.1)
    | inr e ↦ rw e (h.0, delete_rows-AllOwned assets k rows h.1)
  ]

  -- the cascade leaves no row of the deleted asset
  cascade-AllOwned :
      (assets : List (ℕ × String)) (k : ℕ) (rows : List (ℕ × A))
      → AllOwned assets rows
      → AllOwned (delete_rows k assets) (select (λ r. not (owner r.1 == k)) rows)
  cascade-AllOwned assets k [] h = tt
  cascade-AllOwned assets k ((j, a) ∷ rows) h = elim (Bool-cases (owner a == k)) [
    | inl e ↦ rw e (cascade-AllOwned assets k rows h.1)
    | inr e ↦
        let other : (k == owner a) ≡ false = ground (arith, e) in
        rw e (exists-delete_rows (owner a) k assets other ∙ h.0, cascade-AllOwned assets k rows h.1)
  ]

-- every field and every document belongs to an asset that is there
pub record IsOwned (s : Assets) : Type 0 where
  pub fields : AllOwned AssetField.asset_id s.assets.rows s.fields.rows
  pub documents : AllOwned AssetDocument.asset_id s.assets.rows s.documents.rows

guarded-IsOwned :
    (b : Bool) (write : Assets → Assets) (s : Assets)
    → IsOwned s
    → (b ≡ true → IsOwned (write s))
    → IsOwned (guarded b write s).1
guarded-IsOwned true write s h f = f refl
guarded-IsOwned false write s h f = h

execute-IsOwned : (k : Command) (s : Assets) → IsOwned s → IsOwned (execute k s).1
unfolding execute create_asset update_asset delete_asset add_asset_field update_asset_field
    delete_asset_field upload_asset_document delete_asset_document asset insert
execute-IsOwned (create name) s h = record {
  fields = All-map _ (λ r e. exists_kept _ s.assets.next name s.assets.rows e) h.fields;
  documents = All-map _ (λ r e. exists_kept _ s.assets.next name s.assets.rows e) h.documents;
}
execute-IsOwned (rename id name) s h = guarded-IsOwned (exists id s.assets.rows) _ s h (λ e.
    record {
      fields = All-map _ (λ r e. exists-update_rows _ id (λ old. name) s.assets.rows ∙ e) h.fields;
      documents =
          All-map _ (λ r e. exists-update_rows _ id (λ old. name) s.assets.rows ∙ e) h.documents;
    })
execute-IsOwned (remove id) s h = guarded-IsOwned (exists id s.assets.rows) _ s h (λ e. record {
  fields = cascade-AllOwned AssetField.asset_id s.assets.rows id s.fields.rows h.fields;
  documents = cascade-AllOwned AssetDocument.asset_id s.assets.rows id s.documents.rows h.documents;
})
execute-IsOwned (add_field id key value) s h = guarded-IsOwned (exists id s.assets.rows) _ s h (λ e.
    record {
      fields =
          append-AllOwned AssetField.asset_id s.assets.rows s.fields.rows s.fields.next _ h.fields
            e;
      documents = h.documents;
    })
execute-IsOwned (update_field id field key value) s h =
    guarded-IsOwned (asset_field id field s) _ s h (λ e. record {
      fields =
          update_rows-AllOwned AssetField.asset_id s.assets.rows field _ s.fields.rows (λ f. refl)
            h.fields;
      documents = h.documents;
    })
execute-IsOwned (delete_field id field) s h = guarded-IsOwned (asset_field id field s) _ s h (λ e.
    record {
      fields = delete_rows-AllOwned AssetField.asset_id s.assets.rows field s.fields.rows h.fields;
      documents = h.documents;
    })
execute-IsOwned (upload id filename content_type bytes) s h =
    guarded-IsOwned (exists id s.assets.rows) _ s h (λ e. record {
      fields = h.fields;
      documents =
          append-AllOwned AssetDocument.asset_id s.assets.rows s.documents.rows s.documents.next _
            h.documents e;
    })
execute-IsOwned (delete_document id document) s h =
    guarded-IsOwned (asset_document id document s) _ s h (λ e. record {
      fields = h.fields;
      documents =
          delete_rows-AllOwned AssetDocument.asset_id s.assets.rows document s.documents.rows
            h.documents;
    })

-- Any sequence of operations on the assets, whether they return or raise, leaves every field and every
-- document with an asset that is there, when it was so before.
pub run-IsOwned : (ks : List Command) (s : Assets) → IsOwned s → IsOwned (run ks s)
unfolding run
run-IsOwned [] s h = h
run-IsOwned (k ∷ ks) s h = run-IsOwned ks (execute k s).1 (execute-IsOwned k s h)
