-- ===== src/Samples.antt =====
-- Concrete values of the parameters, for the tests: the rowids that SQLite gives out, and its CAST.
use Prim.Native.Nat.{max}
use assistant_platform.Base.{
  ℕ, RowIds, All, ℤ, pos, suc, ◌<◌, String, ◌≡◌, ap, true, Option, none, some, List, [], ◌∷◌, arith,
}
use assistant_platform.Decimal.{to_string, parse, in_i64}
use assistant_platform.Decimal.RoundTrip.{parse-to_string}
use assistant_platform.Approvals.Model.{TextCast}

abbrev maximum : List ℕ → ℕ
maximum [] = 0
maximum (i ∷ ids) = max i (maximum ids)

abbrev above_maximum : List ℕ → ℕ
above_maximum ids = suc (maximum ids)

All-below : (ids : List ℕ) (n : ℕ) → maximum ids < n → All (λ i. i < n) ids
All-below [] n h = tt
All-below (i ∷ ids) n h = (omega arith, All-below ids n (omega arith))

pub maximum-above : (ids : List ℕ) → All (λ i. i < above_maximum ids) ids
maximum-above ids = All-below ids (suc (maximum ids)) (omega arith)

abbrev pub row_ids : RowIds
row_ids = record { next = above_maximum; above = maximum-above }

abbrev value_of : Option ℤ → ℤ
value_of none = pos 0
value_of (some v) = v

unfoldable pub cast_text : String → ℤ
cast_text s = value_of (parse s)

pub cast_text-to_string : (v : ℤ) → in_i64 v ≡ true → cast_text (to_string v) ≡ v
unfolding cast_text
cast_text-to_string v h = ap value_of (parse-to_string v h)

abbrev pub text_cast : TextCast
text_cast = record { cast = cast_text; cast-to_string = cast_text-to_string }
