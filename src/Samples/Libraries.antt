-- ===== src/Samples/Libraries.antt =====
-- Functions that behave as the libraries of tokens are assumed to: JSON values as lists of named
-- bytes, and a signature that carries its key.
use pawspective_backend.Base.{
  ℕ, zero, suc, ◌+◌, ◌-◌, ℤ, pos, negsuc, String, ◌≡◌, ◌≢◌, refl, ap, sym, ◌∙◌, arith, Bool, true,
  false, Option, none, some, List, [], ◌∷◌, ◌++◌, map, length, eqb, has_value, if◌then◌else◌,
  Bool-cases, inl, inr,
}
use pawspective_backend.Errors.{Result, ok, err, member_missing, type_mismatch, parse_exception}
use pawspective_backend.Std.Chars.{Bytes, codes, text_of, text_of-codes, bytes_eq, bytes_eq_iff}
use pawspective_backend.Std.Search.{find_char}
use pawspective_backend.Tokens.Libraries.{Kind, Of, Json, Crypto}
use pawspective_backend.Tokens.Jwt.{JwtConfig}

-- Texts in a row, each ended by 0.
abbrev join : List Bytes → Bytes
join [] = []
join (s ∷ rest) = map suc s ++ (0 ∷ join rest)

abbrev split : Bytes → Bytes → List Bytes
split read [] = []
split read (zero ∷ s) = read ∷ split [] s
split read (suc c ∷ s) = split (read ++ c ∷ []) s

append-append : (xs : Bytes) (c : ℕ) (s : Bytes) → (xs ++ c ∷ []) ++ s ≡ xs ++ (c ∷ s)
append-append [] c s = refl
append-append (x ∷ xs) c s = ap (λ l. x ∷ l) (append-append xs c s)

append-none : (xs : Bytes) → xs ++ [] ≡ xs
append-none [] = refl
append-none (x ∷ xs) = ap (λ l. x ∷ l) (append-none xs)

split-map :
    (read s rest : Bytes) → split read (map suc s ++ (0 ∷ rest)) ≡ (read ++ s) ∷ split [] rest
split-map read [] rest = ap (λ l. l ∷ split [] rest) (sym (append-none read))
split-map read (c ∷ s) rest =
    split-map (read ++ c ∷ []) s rest ∙ ap (λ l. l ∷ split [] rest) (append-append read c s)

pub split-join : (texts : List Bytes) → split [] (join texts) ≡ texts
split-join [] = refl
split-join (s ∷ rest) = split-map [] s (join rest) ∙ ap (λ l. s ∷ l) (split-join rest)

abbrev encode : (k : Kind) → Of k → Bytes
encode Kind.text s = codes s
encode Kind.integer (pos n) = 0 ∷ n ∷ []
encode Kind.integer (negsuc n) = 1 ∷ n ∷ []
encode Kind.int32 (pos n) = 0 ∷ n ∷ []
encode Kind.int32 (negsuc n) = 1 ∷ n ∷ []
encode Kind.boolean true = 1 ∷ []
encode Kind.boolean false = 0 ∷ []
encode Kind.texts texts = join (map codes texts)

abbrev decode_integer : Bytes → Result ℤ
decode_integer (zero ∷ n ∷ []) = ok (pos n)
decode_integer (suc s ∷ n ∷ []) = ok (negsuc n)
decode_integer _ = err type_mismatch

abbrev decode_boolean : Bytes → Result Bool
decode_boolean (zero ∷ []) = ok false
decode_boolean (suc s ∷ []) = ok true
decode_boolean _ = err type_mismatch

abbrev decode : (k : Kind) → Bytes → Result (Of k)
decode Kind.text b = ok (text_of b)
decode Kind.integer b = decode_integer b
decode Kind.int32 b = decode_integer b
decode Kind.boolean b = decode_boolean b
decode Kind.texts b = ok (map text_of (split [] b))

map-text_of-codes : (texts : List String) → map text_of (map codes texts) ≡ texts
map-text_of-codes [] = refl
map-text_of-codes (s ∷ rest) = λ i. text_of-codes s i ∷ map-text_of-codes rest i

pub decode-encode : (k : Kind) (x : Of k) → decode k (encode k x) ≡ ok x
decode-encode Kind.text s = ap (λ t. ok t) (text_of-codes s)
decode-encode Kind.integer (pos n) = refl
decode-encode Kind.integer (negsuc n) = refl
decode-encode Kind.int32 (pos n) = refl
decode-encode Kind.int32 (negsuc n) = refl
decode-encode Kind.boolean true = refl
decode-encode Kind.boolean false = refl
decode-encode Kind.texts texts =
    ap (λ l. ok (map text_of l)) (split-join (map codes texts))
    ∙ ap (λ l. ok l) (map-text_of-codes texts)

abbrev Members : Type 0
Members = List (Bytes × Bytes)

abbrev member : Bytes → Members → Option Bytes
member name [] = none
member name ((n, b) ∷ v) = if bytes_eq name n then some b else member name v

abbrev flat : Members → List Bytes
flat [] = []
flat ((n, b) ∷ v) = n ∷ b ∷ flat v

abbrev unflat : List Bytes → Members
unflat [] = []
unflat (n ∷ []) = []
unflat (n ∷ b ∷ rest) = (n, b) ∷ unflat rest

pub unflat-flat : (v : Members) → unflat (flat v) ≡ v
unflat-flat [] = refl
unflat-flat ((n, b) ∷ v) = ap (λ l. (n, b) ∷ l) (unflat-flat v)

abbrev read : (k : Kind) → Option Bytes → Result (Of k)
read k none = err member_missing
read k (some b) = decode k b

abbrev some_of : {A : Type 0} → Result A → Result (Option A)
some_of (ok a) = ok (some a)
some_of (err e) = err e

abbrev read_optional : (k : Kind) → Option Bytes → Result (Option (Of k))
read_optional k none = ok none
read_optional k (some b) = some_of (decode k b)

abbrev parse : Bytes → Result Members
parse [] = err parse_exception
parse (c ∷ s) = if eqb c 7 then ok (unflat (split [] s)) else ok ((codes "alg", codes "HS256") ∷ [])

pub member-same : (name b : Bytes) (v : Members) → member name ((name, b) ∷ v) ≡ some b
member-same name b v =
    let e : bytes_eq name name ≡ true = (bytes_eq_iff name name).1 refl in rw e refl

codes-ne : (s t : String) → s ≢ t → bytes_eq (codes s) (codes t) ≡ false
codes-ne s t h = elim (Bool-cases (bytes_eq (codes s) (codes t))) [
  | inl same ↦
      let e : codes s ≡ codes t = (bytes_eq_iff (codes s) (codes t)).0 same in
      absurd (h (sym (text_of-codes s) ∙ ap text_of e ∙ text_of-codes t))
  | inr other ↦ other
]

pub member-other :
    (s t : String) (b : Bytes) (v : Members)
    → s ≢ t
    → member (codes s) ((codes t, b) ∷ v) ≡ member (codes s) v
member-other s t b v h = rw (codes-ne s t h) refl

abbrev pub sample_json : Json
sample_json = record {
  Value = Members;
  object = [];
  set = λ k v name x. (codes name, encode k x) ∷ v;
  get = λ k v name. read k (member (codes name) v);
  get_optional = λ k v name. read_optional k (member (codes name) v);
  has_member = λ v name. has_value (member (codes name) v);
  to_string = λ v. 7 ∷ join (flat v);
  from_string = parse;
  get-set = λ k v name x. ap (read k) (member-same (codes name) (encode k x) v) ∙ decode-encode k x;
  get-set_other = λ k j v name other x h. ap (read k) (member-other name other (encode j x) v h);
  get_optional-set = λ k v name x.
      ap (read_optional k) (member-same (codes name) (encode k x) v)
      ∙ ap some_of (decode-encode k x);
  get_optional-set_other =
      λ k j v name other x h. ap (read_optional k) (member-other name other (encode j x) v h);
  has_member-set = λ k v name x. ap has_value (member-same (codes name) (encode k x) v);
  has_member-set_other =
      λ k v name other x h. ap has_value (member-other name other (encode k x) v h);
  has_member-object = λ name. refl;
  from_string-to_string =
      λ v. ap (λ l. ok (unflat l)) (split-join (flat v)) ∙ ap (λ l. ok l) (unflat-flat v);
  hs256 = (codes "alg", codes "HS256") ∷ [];
  from_string-header = refl;
  get-alg = refl;
}

abbrev shift : Bytes → Bytes
shift [] = []
shift (c ∷ s) = (c + 47) ∷ shift s

abbrev unshift : Bytes → Bytes
unshift [] = []
unshift (c ∷ s) = (c - 47) ∷ unshift s

pub unshift-shift : (s : Bytes) → unshift (shift s) ≡ s
unshift-shift [] = refl
unshift-shift (c ∷ s) = let e : (c + 47) - 47 ≡ c = omega arith in λ i. e i ∷ unshift-shift s i

pub shift-plain : (s : Bytes) → find_char 46 (shift s) ≡ none
unfolding find_char
shift-plain [] = refl
shift-plain (c ∷ s) = let e : eqb (c + 47) 46 ≡ false = ground arith in rw (e, shift-plain s) refl

abbrev pub sample_crypto : Crypto
sample_crypto = record {
  base64_encode = shift;
  base64_decode = λ s. ok (unshift s);
  sign = λ key message. key ++ message;
  verify = λ key message signature. bytes_eq signature (key ++ message);
  sha256 = λ s. text_of (length s ∷ []);
  decode-encode = λ s. ap (λ l. ok l) (unshift-shift s);
  encode-plain = shift-plain;
  verify-sign = λ key message. (bytes_eq_iff (key ++ message) (key ++ message)).1 refl;
}

abbrev pub sample_config : JwtConfig
sample_config = record { secret_key = codes "key"; access_ttl = 900; refresh_ttl = 604800 }
