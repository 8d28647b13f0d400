-- ===== src/Json.antt =====
-- JSON values, as `safe_response_snapshot`, audit metadata and outbox payloads hold them.
use ai_oas.Base.{String, ℕ, Bool, true, false, Option, none, some, str_eq}

mutual
  pub data Json : Type 0 where
    null : Json
    bool : Bool → Json
    num : ℕ → Json
    str : String → Json
    arr : Items → Json
    obj : Fields → Json

  pub data Items : Type 0 where
    nil : Items
    cons : Json → Items → Items

  pub data Fields : Type 0 where
    end : Fields
    field : String → Json → Fields → Fields

-- `d.get(name)` of a dict
unfoldable pub member : String → Fields → Option Json
member name end = none
member name (field k j rest) = elim (str_eq k name) [ true ↦ some j | false ↦ member name rest ]

unfoldable pub entry : String → Json → Option Json
unfolding member
entry name (obj fields) = member name fields
entry name _ = none
