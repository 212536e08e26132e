-- ===== src/Decimal.antt =====
-- `i64::to_string` and `str::parse::<i64>` of Rust's standard library, which the crates use to keep
-- epoch seconds in TEXT columns.
pub mod RoundTrip
use Prim.Native.Char.{Char, code, char}
use assistant_platform.Base.{
  ℕ, ltb, leb, ◌==◌, if◌then◌else◌, ℤ, pos, negsuc, zero, suc, ◌+◌, ◌-◌, ◌*◌, ◌/◌, ◌%◌, ◌^◌, String,
  Bool, ◌&&◌, Option, none, some,
}

abbrev digit : ℕ → Char
digit zero = char b'0' tt
digit (suc zero) = char b'1' tt
digit (suc (suc zero)) = char b'2' tt
digit (suc (suc (suc zero))) = char b'3' tt
digit (suc (suc (suc (suc zero)))) = char b'4' tt
digit (suc (suc (suc (suc (suc zero))))) = char b'5' tt
digit (suc (suc (suc (suc (suc (suc zero)))))) = char b'6' tt
digit (suc (suc (suc (suc (suc (suc (suc zero))))))) = char b'7' tt
digit (suc (suc (suc (suc (suc (suc (suc (suc zero)))))))) = char b'8' tt
digit _ = char b'9' tt

-- The digits of `n` before `rest`; fuel above `n` is enough.
digits : ℕ → ℕ → String → String
digits zero n rest = rest
digits (suc fuel) n rest =
    let more = digits fuel (n / 10) (String.◌∷◌ (digit (n % 10)) rest) in
    if ltb n 10 then String.◌∷◌ (digit n) rest else more

unfoldable pub to_string : ℤ → String
unfolding digits
to_string (pos n) = digits (suc n) n String.[]
to_string (negsuc n) = String.◌∷◌ (char b'-' tt) (digits (suc (suc n)) (suc n) String.[])

is_digit : Char → Bool
is_digit c = leb b'0' (code c) && leb (code c) b'9'

scan : String → ℕ → Option ℕ
unfolding is_digit
scan String.[] n = some n
scan (String.◌∷◌ c s) n = if is_digit c then scan s (n * 10 + (code c - b'0')) else none

-- At least one digit.
magnitude : String → Option ℕ
unfolding scan
magnitude String.[] = none
magnitude (String.◌∷◌ c s) = scan (String.◌∷◌ c s) 0

-- -n for n ≥ 0
negate : ℕ → ℤ
negate zero = pos zero
negate (suc n) = negsuc n

abbrev pub in_i64 : ℤ → Bool
in_i64 (pos n) = ltb n (2 ^ 63)
in_i64 (negsuc n) = ltb n (2 ^ 63)

checked : Option ℤ → Option ℤ
checked none = none
checked (some v) = if in_i64 v then some v else none

signed : (ℕ → ℤ) → Option ℕ → Option ℤ
unfolding checked
signed f none = none
signed f (some n) = checked (some (f n))

unfoldable pub parse : String → Option ℤ
unfolding magnitude signed negate
parse String.[] = none
parse (String.◌∷◌ c s) =
    if code c == b'-'
    then signed negate (magnitude s)
    else if code c == b'+'
    then signed pos (magnitude s)
    else signed pos (magnitude (String.◌∷◌ c s))
