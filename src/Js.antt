-- ===== src/Js.antt =====
-- JavaScript values as the services see them: request bodies, query strings, database rows and
-- JSON texts. A number is a natural number, or any other number by its sign and decimal digits.
pub mod Text
pub mod ParseInt
pub mod Spread
use Prim.Native.Nat.{ℕ, zero, suc}
use ai_gcm.Base.{
  String, Bool, true, false, Option, none, some, List, [], ◌∷◌, ◌==◌, if◌then◌else◌, not,
}

pub data Number : Type 0 where
  whole : ℕ → Number
  decimal : (negative : Bool) → (digits scale : ℕ) → Number
  nan : Number

mutual
  pub data Value : Type 0 where
    undefined null : Value
    bool : Bool → Value
    num : Number → Value
    str : String → Value
    obj : Fields → Value
    arr : Items → Value

  pub data Fields : Type 0 where
    end : Fields
    field : String → Value → Fields → Fields

  pub data Items : Type 0 where
    nil : Items
    cons : Value → Items → Items

-- A text from outside: the text that JSON.stringify gives of a value, or one that is no JSON.
pub data JsonText : Type 0 where
  json : Value → JsonText
  other : String → JsonText

abbrev pub nat : ℕ → Value
nat n = num (whole n)

abbrev pub fields : List (String × Value) → Fields
fields [] = end
fields ((k, v) ∷ fs) = field k v (fields fs)

-- An object literal.
abbrev pub object : List (String × Value) → Value
object fs = obj (fields fs)

abbrev pub items : List Value → Items
items [] = nil
items (v ∷ vs) = cons v (items vs)

abbrev pub lookup : String → Fields → Value
lookup k end = undefined
lookup k (field j v fs) = if j == k then v else lookup k fs

-- `v.k`, for a value that is not null or undefined.
abbrev pub get : Value → String → Value
get (obj fs) k = lookup k fs
get _ k = undefined

-- `{ ...a, ...b }` for the fields `b` written last: they stand first, where `lookup` finds them.
-- The numbered fields that a text or an array would spread are left out.
abbrev pub spread : Value → Fields → Fields
spread (obj fs) end = fs
spread _ end = end
spread v (field k w fs) = field k w (spread v fs)

abbrev pub truthy_number : Number → Bool
truthy_number (whole zero) = false
truthy_number (whole (suc n)) = true
truthy_number (decimal negative digits scale) = true
truthy_number nan = false

-- `if (v)`.
abbrev pub truthy : Value → Bool
truthy undefined = false
truthy null = false
truthy (bool b) = b
truthy (num n) = truthy_number n
truthy (str s) = not (s == "")
truthy (arr vs) = true
truthy (obj fs) = true

-- `v ?? w`.
abbrev pub or_else : Value → Value → Value
or_else undefined w = w
or_else null w = w
or_else v w = v

-- `v || w`.
abbrev pub or_falsy : Value → Value → Value
or_falsy v w = if truthy v then v else w

abbrev pub is_undefined : Value → Bool
is_undefined undefined = true
is_undefined _ = false

-- `typeof v === 'string'`, with the text.
abbrev pub as_string : Value → Option String
as_string (str s) = some s
as_string _ = none
