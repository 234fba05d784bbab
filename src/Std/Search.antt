-- ===== src/Std/Search.antt =====
-- find, rfind and substr of std::string and std::string_view.
use pawspective_backend.Base.{
  ℕ, suc, ◌+◌, ◌≡◌, refl, arith, Option, none, some, [], ◌∷◌, ◌++◌, length, take, drop, eqb,
  if◌then◌else◌,
}
use pawspective_backend.Std.Chars.{Bytes}

abbrev pub one_later : Option ℕ → Option ℕ
one_later none = none
one_later (some i) = some (suc i)

-- `npos` is `none`.
unfoldable pub find_char : ℕ → Bytes → Option ℕ
find_char c [] = none
find_char c (d ∷ s) = if eqb d c then some 0 else one_later (find_char c s)

abbrev or_here : Option ℕ → Option ℕ → Option ℕ
or_here here none = here
or_here here (some i) = some (suc i)

unfoldable pub rfind_char : ℕ → Bytes → Option ℕ
rfind_char c [] = none
rfind_char c (d ∷ s) = or_here (if eqb d c then some 0 else none) (rfind_char c s)

-- substr(pos, count) and substr(pos), with pos not past the end
abbrev pub substr : Bytes → ℕ → ℕ → Bytes
substr s pos count = take count (drop pos s)

abbrev pub substr_from : Bytes → ℕ → Bytes
substr_from s pos = drop pos s

pub find_char-append :
    (c : ℕ) (s t : Bytes) → find_char c s ≡ none → find_char c (s ++ c ∷ t) ≡ some (length s)
unfolding find_char
find_char-append c [] t h = ground arith
find_char-append c (d ∷ s) t h = ground (arith, find_char-append c s t)

pub rfind_char-none : (c : ℕ) (s : Bytes) → find_char c s ≡ none → rfind_char c s ≡ none
unfolding find_char rfind_char
rfind_char-none c [] h = refl
rfind_char-none c (d ∷ s) h = ground (arith, rfind_char-none c s)

pub rfind_char-append :
    (c : ℕ) (s t : Bytes) → find_char c t ≡ none → rfind_char c (s ++ c ∷ t) ≡ some (length s)
unfolding rfind_char
rfind_char-append c [] t h = rw (rfind_char-none c t h) (ground arith)
rfind_char-append c (d ∷ s) t h = rw (rfind_char-append c s t h) refl

pub take-append : (s t : Bytes) → take (length s) (s ++ t) ≡ s
take-append [] t = refl
take-append (d ∷ s) t = rw (take-append s t) refl

drop-append_suc : (s t : Bytes) (c : ℕ) → drop (suc (length s)) (s ++ c ∷ t) ≡ t
drop-append_suc [] t c = refl
drop-append_suc (d ∷ s) t c = drop-append_suc s t c

pub drop-append : (s t : Bytes) (c : ℕ) → drop (length s + 1) (s ++ c ∷ t) ≡ t
drop-append s t c =
    let e : length s + 1 ≡ suc (length s) = omega arith in rw e (drop-append_suc s t c)
