-- ===== src/Schemas/Json.antt =====
-- The values that `json.loads` makes: the raw page data that a snapshot may keep.
use aucnotif.Prelude.{Bool}
use aucnotif.Prelude.Int.{ℤ}
use aucnotif.Prelude.Text.{Text}

mutual
  pub data Json : Type 0 where
    null : Json
    bool : Bool → Json
    int : ℤ → Json
    -- A number with a fraction or an exponent, by its text.
    float : Text → Json
    str : Text → Json
    arr : Items → Json
    obj : Fields → Json

  pub data Items : Type 0 where
    nil : Items
    cons : Json → Items → Items

  pub data Fields : Type 0 where
    end : Fields
    field : Text → Json → Fields → Fields
