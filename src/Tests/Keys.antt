-- ===== src/Tests/Keys.antt =====
-- License keys on concrete inputs.
use gektar_monitor.Prelude.{
  All, ℕ, ◌+◌, ◌-◌, ◌≡◌, ◌≢◌, refl, true, Option, none, some, [], ◌∷◌, ◌++◌, arith,
}
use gektar_monitor.Tests.Fixtures.{also}
use gektar_monitor.License.{valid, invalid}
use gektar_monitor.License.Keys.{
  Bytes, number, text, get, Loaded, dict, value_error, Codec, repeat, text_of, refused, interactive,
  new_payload, build_v2_key, verify_license, padded, encode_payload, decode_payload, sign,
  verify_signature, extract_v2_fields, on_dates, on_signature, verify_v2,
}
use gektar_monitor.License.Keys.Issued.{Plain, IsBase64, IsReadable, verify_license-build_v2_key}
use gektar_monitor.License.Keys.Signed.{IsSigned, verify_license-IsSigned}

-- Four letters for a byte.
abbrev fours : Bytes → Bytes
fours [] = []
fours (b ∷ bs) = (200 + b) ∷ 200 ∷ 200 ∷ 200 ∷ fours bs

abbrev from_fours : Bytes → Bytes
from_fours (a ∷ b ∷ c ∷ d ∷ rest) = (a - 200) ∷ from_fours rest
from_fours _ = []

abbrev text_or_empty : Option Bytes → Bytes
text_or_empty none = []
text_or_empty (some t) = t

abbrev two_days : Bytes → Loaded
two_days (a ∷ b ∷ []) = dict (
    ("v", number 2)
    ∷ ("nbf", text (a ∷ []))
    ∷ ("exp", text (b ∷ []))
    ∷ ("lic", text interactive)
    ∷ [])
two_days _ = value_error

abbrev one_day : Bytes → Option ℕ
one_day (a ∷ []) = some a
one_day _ = none

abbrev total : Bytes → ℕ
total [] = 0
total (b ∷ bs) = b + total bs

abbrev toy : Codec
toy = record {
  b64encode = fours;
  b64decode = λ t. some (from_fours t);
  dumps = λ p. text_or_empty (text_of (get "nbf" p)) ++ text_or_empty (text_of (get "exp" p));
  loads = two_days;
  hmac = λ secret msg. (total secret + total msg) ∷ repeat 31 7;
  isoformat = λ n. n ∷ [];
  fromisoformat = one_day;
}

abbrev secret : Bytes
secret = 5 ∷ []

abbrev from_10_to_20 : Bytes
from_10_to_20 = build_v2_key toy 10 20 secret

fours_plain : (bs : Bytes) → All Plain (fours bs)
fours_plain [] = tt
fours_plain (b ∷ bs) =
    also (ground arith, ground arith)
      (also (refl, refl) (also (refl, refl) (also (refl, refl) (fours_plain bs))))

payload_read : IsBase64 toy (10 ∷ 20 ∷ [])
payload_read = record {
  body = fours (10 ∷ 20 ∷ []);
  padding = 0;
  plain = fours_plain (10 ∷ 20 ∷ []);
  some_letters = refl;
  encodes = refl;
  short = ground arith;
  whole = refl;
  decodes = refl;
}

abbrev digest_35 : Bytes
digest_35 = 35 ∷ repeat 31 7

digest_read : IsBase64 toy digest_35
digest_read = record {
  body = fours digest_35;
  padding = 0;
  plain = fours_plain digest_35;
  some_letters = refl;
  encodes = refl;
  short = ground arith;
  whole = refl;
  decodes = refl;
}

issued_read : IsReadable toy 10 20 secret
unfolding get new_payload
issued_read = record {
  payload_base64 = payload_read;
  sig_base64 = digest_read;
  digest = refl;
  read_back = new_payload toy 10 20;
  loads = refl;
  same = λ key. refl;
  canonical = refl;
  nbf_date = refl;
  exp_date = refl;
}

verify_license-build_v2_key_example :
    verify_license toy from_10_to_20 secret (record { aware = true; today = 20 })
    ≡ some (record { status = valid; expires_at = some 20; licensee = some interactive })
verify_license-build_v2_key_example = verify_license-build_v2_key issued_read 20

-- Another secret.
other_secret :
    verify_license toy from_10_to_20 (6 ∷ []) (record { aware = true; today = 20 }) ≡ some refused
unfolding verify_license build_v2_key verify_v2 encode_payload decode_payload sign verify_signature
    extract_v2_fields on_dates on_signature padded get new_payload
other_secret = refl

on_day_20 :
    verify_license toy from_10_to_20 secret (record { aware = true; today = 20 })
    ≡ some (record { status = valid; expires_at = some 20; licensee = some interactive })
unfolding verify_license build_v2_key verify_v2 encode_payload decode_payload sign verify_signature
    extract_v2_fields on_dates on_signature padded get new_payload
on_day_20 = refl

valid_not_invalid : valid ≢ invalid
valid_not_invalid e = absurd (ground (arith, e))

verify_license-IsSigned_example :
    IsSigned toy secret 20 from_10_to_20
      (record { status = valid; expires_at = some 20; licensee = some interactive })
verify_license-IsSigned_example =
    verify_license-IsSigned toy from_10_to_20 secret (record { aware = true; today = 20 })
      (record { status = valid; expires_at = some 20; licensee = some interactive }) on_day_20
      valid_not_invalid
