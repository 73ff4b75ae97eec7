-- ===== src/Js/Spread.antt =====
-- What the properties of a spread object are.
use ai_gcm.Base.{String, ◌≡◌, refl, if◌then◌else◌, ◌==◌}
use ai_gcm.Js.{Value, get, lookup, obj, spread, end, field}

-- A spread alone has the properties that it copies.
pub lookup-spread : (v : Value) (k : String) → lookup k (spread v end) ≡ get v k
lookup-spread (obj fs) k = refl
lookup-spread Value.undefined k = refl
lookup-spread _ k = refl

-- `{ ...v, key: w }` has `w` under the key and the properties of `v` elsewhere.
pub lookup-spread_field :
    (v w : Value) (key k : String)
    → lookup k (spread v (field key w end)) ≡ (if key == k then w else get v k)
lookup-spread_field v w key k = rw (lookup-spread v k) refl
