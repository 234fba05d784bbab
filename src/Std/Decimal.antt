-- ===== src/Std/Decimal.antt =====
-- std::to_string of an std::int64_t and std::stoll.
use pawspective_backend.Base.{
  ℕ, zero, suc, ◌+◌, ◌-◌, ◌*◌, ◌/◌, ◌%◌, ◌^◌, ◌≤◌, ◌<◌, ℤ, pos, negsuc, ◌≡◌, refl, ◌∙◌, arith, Bool,
  true, false, ◌&&◌, [], ◌∷◌, ltb, leb, eqb, if◌then◌else◌, Bool-cases, inl, inr,
}
use pawspective_backend.Errors.{Result, ok, err, invalid_argument, out_of_range}
use pawspective_backend.Std.Chars.{Bytes, is_space}

-- The digits of `n` in front of `out`, the last one first; the fuel `n + 1` is enough.
pub digits : ℕ → ℕ → Bytes → Bytes
digits zero n out = out
digits (suc fuel) n out =
    let last = 48 + n % 10 in
    let more = digits fuel (n / 10) (last ∷ out) in if ltb n 10 then last ∷ out else more

unfoldable pub to_string : ℤ → Bytes
unfolding digits
to_string (pos n) = digits (suc n) n []
to_string (negsuc n) = 45 ∷ digits (suc (suc n)) (suc n) []

pub is_digit : ℕ → Bool
is_digit c = leb 48 c && leb c 57

-- The digits at the front.
pub scan : ℕ → Bytes → ℕ
scan n [] = n
scan n (c ∷ s) = let rest = scan (n * 10 + (c - 48)) s in if is_digit c then rest else n

abbrev in_range : ℤ → Bool
in_range (pos n) = ltb n (2 ^ 63)
in_range (negsuc n) = ltb n (2 ^ 63)

abbrev pub Int64 : ℤ → Type 0
Int64 (pos n) = n < 2 ^ 63
Int64 (negsuc n) = n < 2 ^ 63

abbrev checked : ℤ → Result ℤ
checked i = if in_range i then ok i else err out_of_range

abbrev negated : ℕ → ℤ
negated zero = pos 0
negated (suc n) = negsuc n

abbrev signed : Bool → ℕ → ℤ
signed true n = negated n
signed false n = pos n

-- After the sign: at least one digit, and what follows the digits is ignored.
abbrev read_digits : Bool → Bytes → Result ℤ
read_digits minus [] = err invalid_argument
read_digits minus (c ∷ s) =
    if is_digit c then checked (signed minus (scan 0 (c ∷ s))) else err invalid_argument

abbrev read_signed : Bytes → Result ℤ
read_signed [] = err invalid_argument
read_signed (c ∷ s) =
    if eqb c 45
    then read_digits true s
    else if eqb c 43
    then read_digits false s
    else read_digits false (c ∷ s)

unfoldable pub stoll : Bytes → Result ℤ
unfolding is_space is_digit scan
stoll [] = err invalid_argument
stoll (c ∷ s) = let rest = stoll s in if is_space c then rest else read_signed (c ∷ s)

abbrev in_int : ℤ → Bool
in_int (pos n) = ltb n (2 ^ 31)
in_int (negsuc n) = ltb n (2 ^ 31)

abbrev narrowed : Result ℤ → Result ℤ
narrowed (ok i) = if in_int i then ok i else err out_of_range
narrowed (err e) = err e

-- std::stoi
unfoldable pub stoi : Bytes → Result ℤ
unfolding stoll
stoi s = narrowed (stoll s)

-- The first byte is a digit.
abbrev StartsDigit : Bytes → Type 0
StartsDigit [] = ⊥
StartsDigit (c ∷ s) = (48 ≤ c) × (c ≤ 57)

digits-StartsDigit : (fuel n : ℕ) (out : Bytes) → 0 < fuel → StartsDigit (digits fuel n out)
unfolding digits
digits-StartsDigit zero n out h = absurd (omega arith)
digits-StartsDigit (suc zero) n out h = elim (Bool-cases (ltb n 10)) [
  | inl small ↦ rw small (omega arith)
  | inr large ↦ rw large (omega arith)
]
digits-StartsDigit (suc (suc fuel)) n out h = elim (Bool-cases (ltb n 10)) [
  | inl small ↦ rw small (omega arith)
  | inr large ↦
      rw large (digits-StartsDigit (suc fuel) (n / 10) ((48 + n % 10) ∷ out) (omega arith))
]

is_digit-true : (c : ℕ) → 48 ≤ c → c ≤ 57 → is_digit c ≡ true
unfolding is_digit
is_digit-true c h k = ground arith

scan_digit : (m d : ℕ) (out : Bytes) → d < 10 → scan m ((48 + d) ∷ out) ≡ scan (m * 10 + d) out
unfolding scan
scan_digit m d out h =
    let e : (48 + d) - 48 ≡ d = omega arith in
    rw (is_digit-true (48 + d) (omega arith) (omega arith), e) refl

scan-digits : (fuel n : ℕ) (out : Bytes) → n < fuel → scan 0 (digits fuel n out) ≡ scan n out
unfolding digits
scan-digits zero n out h = absurd (omega arith)
scan-digits (suc fuel) n out h = elim (Bool-cases (ltb n 10)) [
  | inl small ↦
      let e : 0 * 10 + n % 10 ≡ n = ground arith in
      rw small (scan_digit 0 (n % 10) out (omega arith) ∙ rw e refl)
  | inr large ↦
      let e : n / 10 * 10 + n % 10 ≡ n = omega arith in
      rw large (
        scan-digits fuel (n / 10) ((48 + n % 10) ∷ out) (ground arith)
        ∙ scan_digit (n / 10) (n % 10) out (omega arith)
        ∙ rw e refl)
]

read_digits-lem :
    (minus : Bool) (s : Bytes)
    → StartsDigit s
    → read_digits minus s ≡ checked (signed minus (scan 0 s))
read_digits-lem minus [] h = absurd h
read_digits-lem minus (c ∷ s) h = rw (is_digit-true c h.0 h.1) refl

digit_plain :
    (c : ℕ) → 48 ≤ c → c ≤ 57 → (is_space c ≡ false) × (eqb c 45 ≡ false) × (eqb c 43 ≡ false)
unfolding is_space
digit_plain c h k = (ground arith, ground arith, ground arith)

stoll-plain : (s : Bytes) → StartsDigit s → stoll s ≡ read_digits false s
unfolding stoll
stoll-plain [] h = absurd h
stoll-plain (c ∷ s) h =
    let (space, minus, plus) = digit_plain c h.0 h.1 in rw (space, minus, plus) refl

in_range-true : (n : ℕ) → n < 2 ^ 63 → ltb n (2 ^ 63) ≡ true
in_range-true n h = ground arith

stoll-pos : (s : Bytes) (n : ℕ) → StartsDigit s → scan 0 s ≡ n → n < 2 ^ 63 → stoll s ≡ ok (pos n)
stoll-pos s n h e bound =
    stoll-plain s h ∙ read_digits-lem false s h ∙ rw (e, in_range-true n bound) refl

stoll-negsuc :
    (s : Bytes) (n : ℕ)
    → StartsDigit s
    → scan 0 s ≡ suc n
    → n < 2 ^ 63
    → stoll (45 ∷ s) ≡ ok (negsuc n)
unfolding stoll is_space
stoll-negsuc s n h e bound = read_digits-lem true s h ∙ rw (e, in_range-true n bound) refl

-- An id of 64 bits that is printed and read again is the same.
pub stoll-to_string : (i : ℤ) → Int64 i → stoll (to_string i) ≡ ok i
unfolding to_string scan
stoll-to_string (pos n) h =
    stoll-pos (digits (suc n) n []) n (digits-StartsDigit (suc n) n [] (omega arith))
      (scan-digits (suc n) n [] (omega arith)) h
stoll-to_string (negsuc n) h =
    stoll-negsuc (digits (suc (suc n)) (suc n) []) n
      (digits-StartsDigit (suc (suc n)) (suc n) [] (omega arith))
      (scan-digits (suc (suc n)) (suc n) [] (omega arith)) h
