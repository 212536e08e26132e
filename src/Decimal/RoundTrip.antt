-- ===== src/Decimal/RoundTrip.antt =====
-- What is printed is read back.
use Prim.Native.Char.{code, char}
use assistant_platform.Base.{
  ℕ, ltb, Bool-cases, zero, suc, ◌+◌, ◌*◌, ◌/◌, ◌%◌, ◌<◌, String, ◌≡◌, refl, inl, inr, arith, ℤ,
  pos, negsuc, sym, ap, ◌∙◌, true, some,
}
use assistant_platform.Decimal.{digit, digits, scan, to_string, in_i64, parse, magnitude}

code-digit : (d : ℕ) → d < 10 → code (digit d) ≡ 48 + d
code-digit zero h = refl
code-digit (suc zero) h = refl
code-digit (suc (suc zero)) h = refl
code-digit (suc (suc (suc zero))) h = refl
code-digit (suc (suc (suc (suc zero)))) h = refl
code-digit (suc (suc (suc (suc (suc zero))))) h = refl
code-digit (suc (suc (suc (suc (suc (suc zero)))))) h = refl
code-digit (suc (suc (suc (suc (suc (suc (suc zero))))))) h = refl
code-digit (suc (suc (suc (suc (suc (suc (suc (suc zero)))))))) h = refl
code-digit (suc (suc (suc (suc (suc (suc (suc (suc (suc zero))))))))) h = refl
code-digit (suc (suc (suc (suc (suc (suc (suc (suc (suc (suc d)))))))))) h = absurd (omega arith)

scan-digit : (d n : ℕ) (s : String) → d < 10 → scan (String.◌∷◌ (digit d) s) n ≡ scan s (n * 10 + d)
unfolding scan
scan-digit d n s h = ground (arith, code-digit d)

scan-digits : (fuel n : ℕ) (s : String) → n < fuel → scan (digits fuel n s) 0 ≡ scan s n
unfolding digits
scan-digits zero n s h = elim h [ ]
scan-digits (suc fuel) n s h = elim (Bool-cases (ltb n 10)) [
  | inl small ↦ rw small (scan-digit n 0 s (ground arith) ∙ ap (scan s) (omega arith))
  | inr big ↦ rw big (
      scan-digits fuel (n / 10) (String.◌∷◌ (digit (n % 10)) s) (ground arith)
      ∙ (scan-digit (n % 10) (n / 10) s (omega arith) ∙ ap (scan s) (omega arith)))
]

-- The first character is a digit.
digits-head :
    (fuel n : ℕ) (s : String)
    → n < fuel
    → (d : ℕ) × (t : String) × (d < 10) × (digits fuel n s ≡ String.◌∷◌ (digit d) t)
unfolding digits
digits-head zero n s h = elim h [ ]
digits-head (suc fuel) n s h = elim (Bool-cases (ltb n 10)) [
  | inl small ↦ (n, s, ground arith, rw small)
  | inr big ↦ rw big (digits-head fuel (n / 10) (String.◌∷◌ (digit (n % 10)) s) (ground arith))
]

magnitude-digits : (fuel n : ℕ) → n < fuel → magnitude (digits fuel n String.[]) ≡ some n
unfolding magnitude
magnitude-digits fuel n h =
    let (d, t, small, e) = digits-head fuel n String.[] h in
    rw e (sym (ap (λ u. scan u 0) e) ∙ scan-digits fuel n String.[] h)

to_string-pos : (n : ℕ) → to_string (pos n) ≡ digits (suc n) n String.[]
unfolding to_string
to_string-pos n = refl

to_string-negsuc :
    (n : ℕ)
    → to_string (negsuc n) ≡ String.◌∷◌ (char b'-' tt) (digits (suc (suc n)) (suc n) String.[])
unfolding to_string
to_string-negsuc n = refl

parse-digits :
    (d n : ℕ) (t : String)
    → d < 10
    → magnitude (String.◌∷◌ (digit d) t) ≡ some n
    → in_i64 (pos n) ≡ true
    → parse (String.◌∷◌ (digit d) t) ≡ some (pos n)
unfolding parse
parse-digits d n t small m h = ground (arith, code-digit d)

-- Every `i64` is read back from the text that it is written as.
pub parse-to_string : (v : ℤ) → in_i64 v ≡ true → parse (to_string v) ≡ some v
parse-to_string (pos n) h =
    let (d, t, small, e) = digits-head (suc n) n String.[] (omega arith) in
    rw (to_string-pos n, e)
      (parse-digits d n t small (rw e at (magnitude-digits (suc n) n (omega arith))) h)
parse-to_string (negsuc n) h =
    rw (to_string-negsuc n)
      (unfold parse in rw (magnitude-digits (suc (suc n)) (suc n) (omega arith), h) refl)
