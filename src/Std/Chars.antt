-- ===== src/Std/Chars.antt =====
-- Bytes of a text, and the functions of <cctype> in the "C" locale.
use Prim.Native.Nat.{ℕ, ◌+◌, compare, Ordering}
use Prim.Native.Char.{Char, char, code, nul, IsLt, IsScalar}
use text.Mathlib.TextEquality.{Char-path}
use pawspective_backend.Base.{
  String, ◌≡◌, refl, ◌↔◌, arith, Bool, true, false, ◌&&◌, ◌||◌, List, [], ◌∷◌, map, leb, eqb,
  if◌then◌else◌, Eq,
}

abbrev pub Bytes : Type 0
Bytes = List ℕ

abbrev pub codes : String → Bytes
codes String.[] = []
codes (String.◌∷◌ c s) = code c ∷ codes s

-- Whether a number is that of a character.
abbrev IsScalarFrom : Ordering → Ordering → Type 0
IsScalarFrom Ordering.lt o = IsLt o
IsScalarFrom Ordering.eq _ = ⊥
IsScalarFrom Ordering.gt _ = ⊥

abbrev IsScalarBy : Ordering → Ordering → Ordering → Type 0
IsScalarBy Ordering.lt _ _ = Unit
IsScalarBy Ordering.eq o p = IsScalarFrom o p
IsScalarBy Ordering.gt o p = IsScalarFrom o p

abbrev dec_IsLt : (o : Ordering) → Dec (IsLt o)
dec_IsLt Ordering.lt = yes tt
dec_IsLt Ordering.eq = no (λ h. h)
dec_IsLt Ordering.gt = no (λ h. h)

abbrev dec_IsScalarFrom : (o p : Ordering) → Dec (IsScalarFrom o p)
dec_IsScalarFrom Ordering.lt p = dec_IsLt p
dec_IsScalarFrom Ordering.eq p = no (λ h. h)
dec_IsScalarFrom Ordering.gt p = no (λ h. h)

abbrev dec_IsScalarBy : (o p q : Ordering) → Dec (IsScalarBy o p q)
dec_IsScalarBy Ordering.lt p q = yes tt
dec_IsScalarBy Ordering.eq p q = dec_IsScalarFrom p q
dec_IsScalarBy Ordering.gt p q = dec_IsScalarFrom p q

abbrev char_from : (n : ℕ) → Dec (IsScalar n) → Char
char_from n (yes p) = char n p
char_from n (no h) = nul

abbrev char_of : ℕ → Char
char_of n = char_from n (dec_IsScalarBy (compare n 55296) (compare 57343 n) (compare n 1114112))

char_from-code : (c : Char) (d : Dec (IsScalar (code c))) → char_from (code c) d ≡ c
char_from-code (char n p) (yes q) = Char-path (char n q) (char n p) refl
char_from-code (char n p) (no h) = absurd (h p)

-- The text of some bytes.
abbrev pub text_of : Bytes → String
text_of [] = String.[]
text_of (c ∷ bytes) = String.◌∷◌ (char_of c) (text_of bytes)

pub text_of-codes : (s : String) → text_of (codes s) ≡ s
text_of-codes String.[] = refl
text_of-codes (String.◌∷◌ c s) = λ i.
    String.◌∷◌
      (char_from-code c
        (dec_IsScalarBy (compare (code c) 55296) (compare 57343 (code c))
          (compare (code c) 1114112))
        i)
      (text_of-codes s i)

abbrev pub bytes_eq : Bytes → Bytes → Bool
bytes_eq [] [] = true
bytes_eq (c ∷ s) (d ∷ t) = eqb c d && bytes_eq s t
bytes_eq _ _ = false

pub bytes_eq_iff : (s t : Bytes) → (bytes_eq s t ≡ true) ↔ (s ≡ t)
bytes_eq_iff [] [] = ground arith
bytes_eq_iff [] (d ∷ t) = ground arith
bytes_eq_iff (c ∷ s) [] = ground arith
bytes_eq_iff (c ∷ s) (d ∷ t) = ground (arith, bytes_eq_iff s t)

instance abbrev pub bytes_Eq : Eq Bytes
bytes_Eq = record { same = bytes_eq; same_iff = bytes_eq_iff }

-- std::isspace
unfoldable pub is_space : ℕ → Bool
is_space c = eqb c 32 || (leb 9 c && leb c 13)

-- std::tolower
unfoldable pub to_lower : ℕ → ℕ
to_lower c = if leb 65 c && leb c 90 then c + 32 else c

-- std::transform of a text with std::tolower
unfoldable pub lower : String → String
unfolding to_lower
lower s = text_of (map to_lower (codes s))
