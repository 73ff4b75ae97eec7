-- ===== src/Js/ParseInt.antt =====
-- `parseInt(value, 10)` on the counts that the services read from rows: digits up to the first
-- other character. A leading blank or sign, which a COUNT(*) never has, is read as NaN.
use Prim.Native.Nat.{ℕ, ◌+◌, ◌*◌, ◌-◌}
use Prim.Native.Char.{code}
use Prim.Native.String.{String, [], ◌∷◌}
use ai_gcm.Base.{Bool, leb, ◌&&◌, if◌then◌else◌}
use ai_gcm.Js.{Value, str, num, Number, whole, nan}

is_digit : ℕ → Bool
is_digit c = leb b'0' c && leb c b'9'

digits_from : ℕ → String → ℕ
unfolding is_digit
digits_from n [] = n
digits_from n (c ∷ s) =
    let rest = digits_from (n * 10 + (code c - b'0')) s in if is_digit (code c) then rest else n

parse_text : String → Number
unfolding digits_from
parse_text [] = nan
parse_text (c ∷ s) = if is_digit (code c) then whole (digits_from (code c - b'0') s) else nan

unfoldable pub parse_int : Value → Number
unfolding parse_text
parse_int (str s) = parse_text s
parse_int (num (whole n)) = whole n
parse_int _ = nan

-- `a + b` for counts; a sum with any other number is not modelled.
unfoldable pub add_number : Number → Number → Number
add_number (whole n) (whole m) = whole (n + m)
add_number _ _ = nan
