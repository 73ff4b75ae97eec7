-- ===== src/Zod.antt =====
-- Validation schemas, as the services write them with the zod library, and the library itself as
-- a parameter: `safe_parse` answers by the parsed value or by the flattened error.
use ai_gcm.Base.{ℕ, String, List}
use ai_gcm.Js.{Value}

pub data Check : Type 0 where
  min max : ℕ → Check
  regex : String → Check
  email uuid positive : Check

mutual
  pub data Schema : Type 0 where
    string number coerced_number : List Check → Schema
    boolean coerced_boolean : Schema
    enum : List String → Schema
    array optional nullable : Schema → Schema
    defaulted : Schema → Value → Schema
    object : Shape → Schema

  pub data Shape : Type 0 where
    nil : Shape
    prop : String → Schema → Shape → Shape

pub data Parsed : Type 0 where
  success : Value → Parsed
  failure : (details : Value) → Parsed

abbrev pub Zod : Type 0
Zod = Schema → Value → Parsed
