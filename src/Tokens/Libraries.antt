-- ===== src/Tokens/Libraries.antt =====
-- What the services take of the libraries: formats::json, crypto::base64, SignerHs256 and
-- VerifierHs256, and Sha256. The laws are what their documentation says.
use pawspective_backend.Base.{ℤ, String, ◌≡◌, ◌≢◌, Bool, true, false, Option, none, some, List}
use pawspective_backend.Errors.{Result, ok}
use pawspective_backend.Std.Chars.{Bytes, codes}
use pawspective_backend.Std.Search.{find_char}

-- The types that `As` is called at.
pub data Kind : Type 0 where
  text integer int32 boolean texts : Kind

abbrev pub Of : Kind → Type 0
Of Kind.text = String
Of Kind.integer = ℤ
Of Kind.boolean = Bool
Of Kind.texts = List String
Of Kind.int32 = ℤ

-- {"alg":"HS256","typ":"JWT"}
abbrev pub hs256_header : Bytes
hs256_header = codes "{\"alg\":\"HS256\",\"typ\":\"JWT\"}"

pub record Json : Type 1 where
  pub Value : Type 0
  -- ValueBuilder{}
  pub object : Value
  -- builder[name] = value
  pub set : (k : Kind) → Value → String → Of k → Value
  -- json[name].As<T>()
  pub get : (k : Kind) → Value → String → Result (Of k)
  -- json[name].As<std::optional<T>>(): a member that is missing or null is `none`
  pub get_optional : (k : Kind) → Value → String → Result (Option (Of k))
  -- json.HasMember(name)
  pub has_member : Value → String → Bool
  -- json::ToString and json::FromString
  pub to_string : Value → Bytes
  pub from_string : Bytes → Result Value
  -- a member that was assigned is read as it was assigned, and the others stay
  pub get-set :
      (k : Kind) (v : Value) (name : String) (x : Of k) → get k (set k v name x) name ≡ ok x
  pub get-set_other :
      (k j : Kind) (v : Value) (name other : String) (x : Of j)
      → name ≢ other
      → get k (set j v other x) name ≡ get k v name
  pub get_optional-set :
      (k : Kind) (v : Value) (name : String) (x : Of k)
      → get_optional k (set k v name x) name ≡ ok (some x)
  pub get_optional-set_other :
      (k j : Kind) (v : Value) (name other : String) (x : Of j)
      → name ≢ other
      → get_optional k (set j v other x) name ≡ get_optional k v name
  pub has_member-set :
      (k : Kind) (v : Value) (name : String) (x : Of k) → has_member (set k v name x) name ≡ true
  pub has_member-set_other :
      (k : Kind) (v : Value) (name other : String) (x : Of k)
      → name ≢ other
      → has_member (set k v other x) name ≡ has_member v name
  pub has_member-object : (name : String) → has_member object name ≡ false
  pub from_string-to_string : (v : Value) → from_string (to_string v) ≡ ok v
  -- what the header of every token reads as
  pub hs256 : Value
  pub from_string-header : from_string hs256_header ≡ ok hs256
  pub get-alg : get Kind.text hs256 "alg" ≡ ok "HS256"

pub record Crypto : Type 0 where
  -- Base64UrlEncode and Base64UrlDecode
  pub base64_encode : Bytes → Bytes
  pub base64_decode : Bytes → Result Bytes
  -- Sign and Verify under a key; Verify throws where this is false
  pub sign : Bytes → Bytes → Bytes
  pub verify : Bytes → Bytes → Bytes → Bool
  pub sha256 : Bytes → String
  -- what is encoded is decoded, and the encoding has no full stop
  pub decode-encode : (s : Bytes) → base64_decode (base64_encode s) ≡ ok s
  pub encode-plain : (s : Bytes) → find_char 46 (base64_encode s) ≡ none
  -- a signature verifies under its key
  pub verify-sign : (key message : Bytes) → verify key message (sign key message) ≡ true
