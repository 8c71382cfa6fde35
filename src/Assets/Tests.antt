-- ===== src/Assets/Tests.antt =====
-- A flat with a document, a field that is added and an asset that is removed.
use family_assistant_kernel.Prelude.{refl, none, some, List, [], ◌∷◌}
use family_assistant_kernel.Storage.{exists, find}
use family_assistant_kernel.Assets.{Assets, Command, create, remove, add_field, update_field, run}
use family_assistant_kernel.Assets.Owned.{IsOwned, run-IsOwned}

abbrev holdings : Assets
holdings = record {
  assets = record { rows = (1, "flat") ∷ (2, "car") ∷ []; next = 3 };
  fields = record {
    rows = (1, record { asset_id = 1; key = "area"; value = "60" }) ∷ [];
    next = 2;
  };
  documents = record {
    rows =
        (1, record { asset_id = 2; filename = "a.pdf"; content_type = "pdf"; bytes = 7 ∷ [] }) ∷ [];
    next = 2;
  };
}

abbrev changes : List Command
changes =
    add_field 2 "colour" "red"
    ∷ update_field 1 2 none (some "9")
    ∷ create "boat"
    ∷ remove 2
    ∷ remove 9
    ∷ []

holdings-IsOwned : IsOwned holdings
unfolding exists find
holdings-IsOwned = record { fields = (refl, tt); documents = (refl, tt) }

run-IsOwned_example : IsOwned (run changes holdings)
run-IsOwned_example = run-IsOwned changes holdings holdings-IsOwned
