-- ===== src/Prelude/Decimal.antt =====
-- Go's `strconv` at base 10 and 64 bits: `FormatInt`, `Itoa`, `ParseInt`, `Atoi`; and the
-- wrap-around of `int` and `int64`.
use Prim.Native.Nat.{ℕ, zero, suc, ◌+◌, ◌-◌, ◌*◌, ◌/◌, ◌%◌, ◌<◌, ◌≤◌}
use Prim.Native.Char.{Char, code}
use Prim.Native.String.{String}
use mathlib.Core.Path.{◌≡◌, refl, ap, ◌∙◌}
use mathlib.Core.Bool.{Bool, true, false, ◌&&◌}
use mathlib.Core.Logic.{inl, inr}
use native.Mathlib.Omega.{arith}
use acm_caas_poc.Prelude.Tests.{ltb, leb, eqb, if◌then◌else◌, Bool-cases, ltb→lt}
use acm_caas_poc.Prelude.Int.{ℤ, pos, negsuc, pos_part, neg_part}

abbrev digit : ℕ → Char
digit zero = "0"
digit (suc zero) = "1"
digit (suc (suc zero)) = "2"
digit (suc (suc (suc zero))) = "3"
digit (suc (suc (suc (suc zero)))) = "4"
digit (suc (suc (suc (suc (suc zero))))) = "5"
digit (suc (suc (suc (suc (suc (suc zero)))))) = "6"
digit (suc (suc (suc (suc (suc (suc (suc zero))))))) = "7"
digit (suc (suc (suc (suc (suc (suc (suc (suc zero)))))))) = "8"
digit _ = "9"

-- The digits of `n` before `rest`, on fuel above `n`.
print_before : ℕ → ℕ → String → String
print_before zero n rest = rest
print_before (suc fuel) n rest =
    let more = print_before fuel (n / 10) (String.◌∷◌ (digit (n % 10)) rest) in
    if ltb n 10 then String.◌∷◌ (digit n) rest else more

-- `strconv.FormatInt(n, 10)`, `strconv.Itoa(n)`
unfoldable pub format_int : ℤ → String
unfolding print_before
format_int (pos n) = print_before (suc n) n ""
format_int (negsuc n) = String.◌∷◌ "-" (print_before (suc (suc n)) (suc n) "")

-- The number that a text of digits adds to what stands before it.
pub data Digits : Type 0 where
  digits : ℕ → Digits
  not_digits : Digits

unfoldable pub is_digit : Char → Bool
is_digit c = leb 48 (code c) && leb (code c) 57

read_after : ℕ → String → Digits
unfolding is_digit
read_after n String.[] = digits n
read_after n (String.◌∷◌ c s) =
    let more = read_after (n * 10 + (code c - 48)) s in if is_digit c then more else not_digits

abbrev pub max_int64 : ℕ
max_int64 = 9223372036854775807

-- `strconv.ParseInt(s, 10, 64)`: on a range error the value is the nearest one.
pub data Parsed : Type 0 where
  parsed : ℤ → Parsed
  syntax_error : Parsed
  range_error : ℤ → Parsed

positive_in_range : Digits → Parsed
positive_in_range not_digits = syntax_error
positive_in_range (digits n) =
    if leb n max_int64 then parsed (pos n) else range_error (pos max_int64)

negate : ℕ → ℤ
negate zero = pos 0
negate (suc n) = negsuc n

negative_in_range : Digits → Parsed
unfolding negate
negative_in_range not_digits = syntax_error
negative_in_range (digits n) =
    if leb n (max_int64 + 1) then parsed (negate n) else range_error (negsuc max_int64)

-- At least one digit.
read_some : String → Digits
unfolding read_after
read_some String.[] = not_digits
read_some (String.◌∷◌ c s) = read_after 0 (String.◌∷◌ c s)

unfoldable pub parse_int : String → Parsed
unfolding read_some positive_in_range negative_in_range
parse_int String.[] = syntax_error
parse_int (String.◌∷◌ c s) =
    if eqb (code c) b'-'
    then negative_in_range (read_some s)
    else if eqb (code c) b'+'
    then positive_in_range (read_some s)
    else positive_in_range (read_some (String.◌∷◌ c s))

-- `v, _ := strconv.ParseInt(…)`
abbrev pub parsed_value : Parsed → ℤ
parsed_value (parsed z) = z
parsed_value syntax_error = pos 0
parsed_value (range_error z) = z

-- Two's complement at 64 bits.
abbrev pub two_64 : ℕ
two_64 = 18446744073709551616

to_word : ℤ → ℕ
to_word z = (pos_part z + (two_64 - neg_part z % two_64)) % two_64

unfoldable pub of_word : ℕ → ℤ
of_word u = if leb u max_int64 then pos u else negsuc (two_64 - u - 1)

-- `a + b` of `int` and `int64`.
unfoldable pub add_int : ℤ → ℤ → ℤ
unfolding to_word of_word
add_int a b = of_word ((to_word a + to_word b) % two_64)

-- `a * b` of `int64`.
unfoldable pub mul_int : ℤ → ℤ → ℤ
unfolding to_word of_word
mul_int a b = of_word ((to_word a * to_word b) % two_64)

to_word-pos : (a : ℕ) → a < two_64 → to_word (pos a) ≡ a
unfolding to_word
to_word-pos a h = omega arith

pub mul_int-pos :
    (a b : ℕ) → a < two_64 → b < two_64 → mul_int (pos a) (pos b) ≡ of_word (a * b % two_64)
unfolding mul_int
mul_int-pos a b ha hb = rw (to_word-pos a ha, to_word-pos b hb) refl

is_digit-digit : (n : ℕ) → n < 10 → is_digit (digit n) ≡ true
unfolding is_digit
is_digit-digit zero h = refl
is_digit-digit (suc zero) h = refl
is_digit-digit (suc (suc zero)) h = refl
is_digit-digit (suc (suc (suc zero))) h = refl
is_digit-digit (suc (suc (suc (suc zero)))) h = refl
is_digit-digit (suc (suc (suc (suc (suc zero))))) h = refl
is_digit-digit (suc (suc (suc (suc (suc (suc zero)))))) h = refl
is_digit-digit (suc (suc (suc (suc (suc (suc (suc zero))))))) h = refl
is_digit-digit (suc (suc (suc (suc (suc (suc (suc (suc zero)))))))) h = refl
is_digit-digit (suc (suc (suc (suc (suc (suc (suc (suc (suc n))))))))) h = refl

code-digit : (n : ℕ) → n < 10 → code (digit n) ≡ 48 + n
code-digit zero h = refl
code-digit (suc zero) h = refl
code-digit (suc (suc zero)) h = refl
code-digit (suc (suc (suc zero))) h = refl
code-digit (suc (suc (suc (suc zero)))) h = refl
code-digit (suc (suc (suc (suc (suc zero))))) h = refl
code-digit (suc (suc (suc (suc (suc (suc zero)))))) h = refl
code-digit (suc (suc (suc (suc (suc (suc (suc zero))))))) h = refl
code-digit (suc (suc (suc (suc (suc (suc (suc (suc zero)))))))) h = refl
code-digit (suc (suc (suc (suc (suc (suc (suc (suc (suc n))))))))) h = omega arith

read_digit :
    (a n : ℕ) (rest : String)
    → n < 10
    → read_after a (String.◌∷◌ (digit n) rest) ≡ read_after (a * 10 + n) rest
unfolding read_after
read_digit a n rest h =
    rw (is_digit-digit n h, code-digit n h) (ap (λ m. read_after m rest) (omega arith))

read-print :
    (fuel n : ℕ) (rest : String)
    → n < fuel
    → read_after 0 (print_before fuel n rest) ≡ read_after n rest
unfolding print_before
read-print zero n rest h = elim h [ ]
read-print (suc fuel) n rest h = elim (Bool-cases (ltb n 10)) [
  | inl e ↦ rw e (read_digit 0 n rest (ltb→lt n 10 e) ∙ ap (λ m. read_after m rest) (omega arith))
  | inr e ↦ rw e (
      read-print fuel (n / 10) (String.◌∷◌ (digit (n % 10)) rest) (shorter n fuel h e)
      ∙ read_digit (n / 10) (n % 10) rest (omega arith)
      ∙ ap (λ m. read_after m rest) (omega arith))
]
  where
    shorter : (n fuel : ℕ) → n < suc fuel → ltb n 10 ≡ false → n / 10 < fuel
    shorter n fuel h e = ground arith

-- A printed number begins with a digit.
abbrev StartsWithDigit : String → Type 0
StartsWithDigit t = (m : ℕ) × (s : String) × (m < 10) × (t ≡ String.◌∷◌ (digit m) s)

print-head : (fuel n : ℕ) (rest : String) → StartsWithDigit (print_before (suc fuel) n rest)
unfolding print_before
print-head zero n rest = elim (Bool-cases (ltb n 10)) [
  | inl e ↦ (n, rest, ltb→lt n 10 e, rw e refl)
  | inr e ↦ (n % 10, rest, omega arith, rw e refl)
]
print-head (suc fuel) n rest = elim (Bool-cases (ltb n 10)) [
  | inl e ↦ (n, rest, ltb→lt n 10 e, rw e refl)
  | inr e ↦
      let (m, s, h, same) = print-head fuel (n / 10) (String.◌∷◌ (digit (n % 10)) rest) in
      (m, s, h, rw e same)
]

parse_int-digit :
    (m : ℕ) (s : String)
    → m < 10
    → parse_int (String.◌∷◌ (digit m) s) ≡ positive_in_range (read_after 0 (String.◌∷◌ (digit m) s))
unfolding parse_int
parse_int-digit m s h = ground (arith, code-digit m h)

format_int_pos : (n : ℕ) → format_int (pos n) ≡ print_before (suc n) n ""
unfolding format_int
format_int_pos n = refl

positive_in_range_digits : (n : ℕ) → n ≤ max_int64 → positive_in_range (digits n) ≡ parsed (pos n)
unfolding positive_in_range
positive_in_range_digits n h = ground arith

read_after_end : (n : ℕ) → read_after n "" ≡ digits n
unfolding read_after
read_after_end n = refl

-- What `FormatInt` prints of a number that is not negative, `ParseInt` reads back.
pub parse_int-format_int : (n : ℕ) → n ≤ max_int64 → parse_int (format_int (pos n)) ≡ parsed (pos n)
parse_int-format_int n h =
    let (m, s, hm, e) = print-head n n "" in
    let back = read-print (suc n) n "" (omega arith) ∙ read_after_end n in
    rw (format_int_pos n, e)
      (parse_int-digit m s hm ∙ ap positive_in_range (rw e at back) ∙ positive_in_range_digits n h)
