-- ===== src/License/Keys.antt =====
-- License keys: `verify_license` of src/fis_monitor/licensing/_verify.py with `_codec.py` and
-- `_hmac.py`, and `_build_v2_key` and `_cmd_issue` of `cli.py`. Texts and bytes are lists of numbers.
-- Base64, JSON, HMAC-SHA256 and the dates of Python are the parameter `Codec`.
pub mod Issued
pub mod Signed
use gektar_monitor.Prelude.{
  ℕ, zero, suc, ◌+◌, ◌-◌, ◌%◌, String, Bool, true, false, not, ◌&&◌, ◌||◌, Option, none, some, List,
  [], ◌∷◌, ◌++◌, ◌==◌, leb, ltb, length, is_empty, same_text, if◌then◌else◌, str_eq,
}
use gektar_monitor.License.{LicenseStatus, valid, expired, invalid}

abbrev pub Bytes : Type 0
Bytes = List ℕ

-- A value of JSON; `number` is one that Python finds equal to that number.
pub data Json : Type 0 where
  number : ℕ → Json
  text : Bytes → Json
  other : Bytes → Json

abbrev pub Payload : Type 0
Payload = List (String × Json)

-- `payload.get(key)`
unfoldable pub get : String → Payload → Option Json
get key [] = none
get key ((k, v) ∷ payload) = let rest = get key payload in if str_eq k key then some v else rest

-- UTF-8 and `json.loads`: a dict, a ValueError (also for JSON that is no dict), or the
-- RecursionError of JSON that is nested too deep.
pub data Loaded : Type 0 where
  dict : Payload → Loaded
  value_error recursion_error : Loaded

-- `dumps` is `json.dumps` with its keys sorted, then UTF-8; `none` of a decoder is a ValueError. A
-- date is its day.
pub record Codec : Type 0 where
  pub b64encode : Bytes → Bytes
  pub b64decode : Bytes → Option Bytes
  pub dumps : Payload → Bytes
  pub loads : Bytes → Loaded
  pub hmac : Bytes → Bytes → Bytes
  pub isoformat : ℕ → Bytes
  pub fromisoformat : Bytes → Option ℕ

-- `rstrip(b"=")`
abbrev pub rstrip : Bytes → Bytes
rstrip [] = []
rstrip (c ∷ cs) = let rest = rstrip cs in if is_empty rest && c == b'=' then [] else c ∷ rest

abbrev pub repeat : ℕ → ℕ → Bytes
repeat zero c = []
repeat (suc n) c = c ∷ repeat n c

-- `encoded + "=" * (-len(encoded) % 4)`
unfoldable pub padded : Bytes → Bytes
padded encoded = encoded ++ repeat ((4 - length encoded % 4) % 4) b'='

-- `partition(".")`: the two texts around the first dot.
abbrev pub partition : Bytes → Bytes × Bytes
partition [] = ([], [])
partition (c ∷ cs) = let rest = partition cs in if c == b'.' then ([], cs) else (c ∷ rest.0, rest.1)

unfoldable pub encode_payload : Codec → Payload → Bytes
encode_payload codec payload = rstrip (codec.b64encode (codec.dumps payload))

unfoldable pub decode_payload : Codec → Bytes → Loaded
decode_payload codec encoded = elim (codec.b64decode (padded encoded)) [
  | none ↦ value_error
  | some raw ↦ codec.loads raw
]

unfoldable pub sign : Codec → Bytes → Bytes → Bytes
sign codec payload_bytes secret = codec.hmac secret payload_bytes

unfoldable pub verify_signature : Codec → Bytes → Bytes → Bytes → Bool
verify_signature codec payload_bytes sig_bytes secret =
    same_text (sign codec payload_bytes secret) sig_bytes

pub record LicenseResult : Type 0 where
  pub status : LicenseStatus
  pub expires_at : Option ℕ
  pub licensee : Option Bytes

abbrev pub refused : LicenseResult
refused = record { status = invalid; expires_at = none; licensee = none }

-- What `verify_license` answers; `none` is the RecursionError, which it does not catch.
abbrev pub Answer : Type 0
Answer = Option LicenseResult

-- `now`: whether it has a time zone, and its day there.
pub record Now : Type 0 where
  pub aware : Bool
  pub today : ℕ

-- The fields of a payload, their types checked.
pub record Fields : Type 0 where
  pub nbf : ℕ
  pub exp : ℕ
  pub lic : Bytes

abbrev pub is_two : Option Json → Bool
is_two (some (number n)) = n == 2
is_two (some (text t)) = false
is_two (some (other t)) = false
is_two none = false

abbrev pub text_of : Option Json → Option Bytes
text_of (some (text t)) = some t
text_of (some (number n)) = none
text_of (some (other t)) = none
text_of none = none

-- `_extract_v2_fields` behind the check of the types; `none` is a ValueError.
abbrev pub dates_of : Codec → Option Bytes → Option Bytes → Option Bytes → Option Fields
dates_of codec (some nbf) (some exp) (some lic) = elim (codec.fromisoformat nbf) [
  | none ↦ none
  | some a ↦ elim (codec.fromisoformat exp) [
    | none ↦ none
    | some b ↦ some (record { nbf = a; exp = b; lic = lic })
  ]
]
dates_of codec none exp lic = none
dates_of codec (some nbf) none lic = none
dates_of codec (some nbf) (some exp) none = none

unfoldable pub extract_v2_fields : Codec → Payload → Option Fields
extract_v2_fields codec payload =
    if is_two (get "v" payload)
    then dates_of codec (text_of (get "nbf" payload)) (text_of (get "exp" payload))
        (text_of (get "lic" payload))
    else none

unfoldable pub on_dates : ℕ → Fields → LicenseResult
on_dates today f = if ltb today f.nbf then refused else record {
  status = if ltb f.exp today then expired else valid;
  expires_at = some f.exp;
  licensee = some f.lic;
}

-- Behind the check of the signature.
abbrev pub on_fields : ℕ → Option Fields → LicenseResult
on_fields today none = refused
on_fields today (some f) = on_dates today f

unfoldable pub on_signature : Codec → Bytes → ℕ → Payload → Option Bytes → LicenseResult
on_signature codec secret today payload none = refused
on_signature codec secret today payload (some sig) =
    if not (length sig == 32)
    then refused
    else if not (verify_signature codec (codec.dumps payload) sig secret)
    then refused
    else on_fields today (extract_v2_fields codec payload)

abbrev pub on_loaded : Codec → Bytes → ℕ → Bytes → Loaded → Answer
on_loaded codec secret today encoded_sig value_error = some refused
on_loaded codec secret today encoded_sig recursion_error = none
on_loaded codec secret today encoded_sig (dict payload) =
    some (on_signature codec secret today payload (codec.b64decode (padded encoded_sig)))

-- The part behind `v2.`
unfoldable pub verify_v2 : Codec → Bytes → ℕ → Bytes → Answer
verify_v2 codec secret today body =
    let (encoded_payload, encoded_sig) = partition body in
    if is_empty encoded_payload || is_empty encoded_sig
    then some refused
    else on_loaded codec secret today encoded_sig (decode_payload codec encoded_payload)

unfoldable pub verify_license : Codec → Bytes → Bytes → Now → Answer
verify_license codec key secret now =
    let (prefix, body) = partition key in
    if not now.aware
    then some refused
    else if is_empty prefix || is_empty body
    then some refused
    else if not (same_text prefix (b'v' ∷ b'2' ∷ []))
    then some refused
    else verify_v2 codec secret now.today body

-- `"interactive"`
abbrev pub interactive : Bytes
interactive = b'i' ∷ b'n' ∷ b't' ∷ b'e' ∷ b'r' ∷ b'a' ∷ b'c' ∷ b't' ∷ b'i' ∷ b'v' ∷ b'e' ∷ []

unfoldable pub new_payload : Codec → ℕ → ℕ → Payload
new_payload codec nbf exp =
    ("v", number 2)
    ∷ ("nbf", text (codec.isoformat nbf))
    ∷ ("exp", text (codec.isoformat exp))
    ∷ ("lic", text interactive)
    ∷ []

unfoldable pub build_v2_key : Codec → ℕ → ℕ → Bytes → Bytes
build_v2_key codec nbf exp secret =
    let payload = new_payload codec nbf exp in
    b'v' ∷ b'2' ∷ b'.' ∷ encode_payload codec payload
    ++ (b'.' ∷ rstrip (codec.b64encode (sign codec (codec.dumps payload) secret)))

-- What `_cmd_issue` finds at its place: the directory, and the file it writes to.
pub record Place : Type 0 where
  pub is_dir : Bool
  pub is_symlink : Bool
  pub write_fails : Bool

-- `_cmd_issue`: the exit code, and the text of the file when one is written.
unfoldable pub cmd_issue : Codec → Bytes → Place → ℕ → ℕ → ℕ × Option Bytes
cmd_issue codec secret place nbf exp =
    if ltb exp nbf
    then (1, none)
    else if not place.is_dir
    then (1, none)
    else if place.is_symlink
    then (1, none)
    else if place.write_fails
    then (1, none)
    else (0, some (build_v2_key codec nbf exp secret ++ b'\n' ∷ []))
