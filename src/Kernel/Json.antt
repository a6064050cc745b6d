-- ===== src/Kernel/Json.antt =====
-- The values of `dict[str, Any]` fields: what `json` reads and writes, numbers being naturals.
use n4x_core.Prelude.{ℕ, String, Bool, List, [], ◌∷◌}

mutual
  pub data Json : Type 0 where
    null : Json
    boolean : Bool → Json
    number : ℕ → Json
    text : String → Json
    array : Items → Json
    object : Fields → Json

  pub data Items : Type 0 where
    nil : Items
    cons : Json → Items → Items

  pub data Fields : Type 0 where
    end : Fields
    field : String → Json → Fields → Fields

abbrev pub JsonDict : Type 0
JsonDict = List (String × Json)

abbrev pub to_fields : JsonDict → Fields
to_fields [] = end
to_fields ((k, v) ∷ d) = field k v (to_fields d)
