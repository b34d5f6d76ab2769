-- ===== src/Core/Json.antt =====
-- The values of serde_json, as the program handles them: a number is the text that it is written as,
-- and an object is the list of its entries.
use sovereign_gateway.Base.{String, Bool}

mutual
  pub data Value : Type 0 where
    null : Value
    bool : Bool → Value
    number : String → Value
    string : String → Value
    array : Items → Value
    object : Fields → Value

  pub data Items : Type 0 where
    nil : Items
    cons : Value → Items → Items

  pub data Fields : Type 0 where
    end : Fields
    field : String → Value → Fields → Fields
