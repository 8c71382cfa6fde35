-- ===== src/Assets.antt =====
-- The assets of the family with their fields and documents: src/application/assets.py over
-- src/infrastructure/repositories/assets.py. Each operation first reads the row that it is about, in a
-- session of its own, and then writes; the asset that it is answered with is left out. The bytes of a
-- document are a list of numbers.
pub mod Owned
mod Tests
use family_assistant_kernel.Prelude.{
  ℕ, Bool, true, false, not, ◌&&◌, ◌==◌, String, Option, none, some, List, [], ◌∷◌, if◌then◌else◌,
  select,
}
use family_assistant_kernel.Exec.{Exec, Result, ok, err, not_found}
use family_assistant_kernel.Storage
use family_assistant_kernel.Storage.{Table, find, exists, update_rows, delete_rows}

pub record AssetField : Type 0 where
  pub asset_id : ℕ
  pub key : String
  pub value : String

pub record AssetDocument : Type 0 where
  pub asset_id : ℕ
  pub filename : String
  pub content_type : String
  pub bytes : List ℕ

pub record Assets : Type 0 where
  pub assets : Table String
  pub fields : Table AssetField
  pub documents : Table AssetDocument

-- NotFoundError when the row that was read is not there
abbrev pub guarded : Bool → (Assets → Assets) → Exec Assets Unit
guarded true write s = (ok tt, write s)
guarded false write s = (err not_found, s)

abbrev pub is_field_of : ℕ → Option AssetField → Bool
is_field_of asset_id none = false
is_field_of asset_id (some f) = f.asset_id == asset_id

abbrev pub is_document_of : ℕ → Option AssetDocument → Bool
is_document_of asset_id none = false
is_document_of asset_id (some d) = d.asset_id == asset_id

-- `asset`, `asset_field` and `asset_document`: whether the row is there
unfoldable pub asset : ℕ → Assets → Bool
unfolding exists
asset asset_id s = exists asset_id s.assets.rows

unfoldable pub asset_field : ℕ → ℕ → Assets → Bool
unfolding find
asset_field asset_id field_id s = is_field_of asset_id (find field_id s.fields.rows)

unfoldable pub asset_document : ℕ → ℕ → Assets → Bool
unfolding find
asset_document asset_id document_id s = is_document_of asset_id (find document_id s.documents.rows)

unfoldable pub create_asset : String → Exec Assets Unit
create_asset name s = (ok tt, record s { assets = Storage.insert name s.assets })

unfoldable pub update_asset : ℕ → String → Exec Assets Unit
unfolding asset
update_asset asset_id name s =
    guarded (asset asset_id s)
      (λ t. record t {
        assets = record t.assets { rows = update_rows asset_id (λ old. name) t.assets.rows };
      })
      s

-- `ondelete="CASCADE"` takes the fields and the documents along
unfoldable pub delete_asset : ℕ → Exec Assets Unit
unfolding asset
delete_asset asset_id s =
    guarded (asset asset_id s)
      (λ t. record {
        assets = record t.assets { rows = delete_rows asset_id t.assets.rows };
        fields = record t.fields {
          rows = select (λ r. not (r.1.asset_id == asset_id)) t.fields.rows;
        };
        documents = record t.documents {
          rows = select (λ r. not (r.1.asset_id == asset_id)) t.documents.rows;
        };
      })
      s

unfoldable pub add_asset_field : ℕ → String → String → Exec Assets Unit
unfolding asset
add_asset_field asset_id key value s =
    guarded (asset asset_id s)
      (λ t. record t {
        fields = Storage.insert (record { asset_id = asset_id; key = key; value = value }) t.fields;
      })
      s

-- a field of the request that is not given stays
abbrev pub or_old : Option String → String → String
or_old none old = old
or_old (some new) old = new

unfoldable pub update_asset_field : ℕ → ℕ → Option String → Option String → Exec Assets Unit
unfolding asset_field
update_asset_field asset_id field_id key value s =
    guarded (asset_field asset_id field_id s)
      (λ t. record t {
        fields = record t.fields {
          rows =
              update_rows field_id
                (λ f. record f { key = or_old key f.key; value = or_old value f.value })
                t.fields.rows;
        };
      })
      s

unfoldable pub delete_asset_field : ℕ → ℕ → Exec Assets Unit
unfolding asset_field
delete_asset_field asset_id field_id s =
    guarded (asset_field asset_id field_id s)
      (λ t. record t { fields = record t.fields { rows = delete_rows field_id t.fields.rows } }) s

unfoldable pub upload_asset_document : ℕ → String → String → List ℕ → Exec Assets Unit
unfolding asset
upload_asset_document asset_id filename content_type bytes s =
    guarded (asset asset_id s)
      (λ t. record t {
        documents =
            Storage.insert
              (record {
                asset_id = asset_id;
                filename = filename;
                content_type = content_type;
                bytes = bytes;
              })
              t.documents;
      })
      s

unfoldable pub delete_asset_document : ℕ → ℕ → Exec Assets Unit
unfolding asset_document
delete_asset_document asset_id document_id s =
    guarded (asset_document asset_id document_id s)
      (λ t. record t {
        documents = record t.documents { rows = delete_rows document_id t.documents.rows };
      })
      s

-- the operations as commands that run one after the other, whether they raise or not
pub data Command : Type 0 where
  create : String → Command
  rename : ℕ → String → Command
  remove : ℕ → Command
  add_field : ℕ → String → String → Command
  update_field : ℕ → ℕ → Option String → Option String → Command
  delete_field : ℕ → ℕ → Command
  upload : ℕ → String → String → List ℕ → Command
  delete_document : ℕ → ℕ → Command

unfoldable pub execute : Command → Exec Assets Unit
execute (create name) = create_asset name
execute (rename id name) = update_asset id name
execute (remove id) = delete_asset id
execute (add_field id key value) = add_asset_field id key value
execute (update_field id field key value) = update_asset_field id field key value
execute (delete_field id field) = delete_asset_field id field
execute (upload id filename content_type bytes) =
    upload_asset_document id filename content_type bytes
execute (delete_document id document) = delete_asset_document id document

unfoldable pub run : List Command → Assets → Assets
unfolding execute
run [] s = s
run (k ∷ ks) s = run ks (execute k s).1
