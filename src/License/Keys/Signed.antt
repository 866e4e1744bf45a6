-- ===== src/License/Keys/Signed.antt =====
-- What a key that is not refused must be.
use gektar_monitor.Prelude.{
  ℕ, ◌≤◌, ◌≡◌, ◌≢◌, refl, ap, subst, sym, ◌∙◌, Bool, true, false, not, Option, none, some, [], ◌∷◌,
  ◌++◌, ◌==◌, ltb, length, is_empty, same_text, if◌then◌else◌, arith, ==_iff, Bool-cases, inl, inr,
  ◌||◌,
}
use gektar_monitor.License.{valid, expired, invalid}
use gektar_monitor.License.Keys.{
  Bytes, Payload, Loaded, dict, value_error, recursion_error, Codec, padded, partition, Answer,
  decode_payload, sign, verify_signature, LicenseResult, refused, Now, Fields, extract_v2_fields,
  on_dates, on_fields, on_signature, on_loaded, verify_v2, verify_license,
}

same_text_eq : (s t : Bytes) → same_text s t ≡ true → s ≡ t
same_text_eq [] [] e = refl
same_text_eq [] (d ∷ t) e = absurd (ground (arith, e))
same_text_eq (c ∷ s) [] e = absurd (ground (arith, e))
same_text_eq (c ∷ s) (d ∷ t) e = elim (Bool-cases (c == d)) [
  | inl same ↦
      rw ((==_iff c d).0 same) (ap (λ rest. d ∷ rest) (same_text_eq s t (sym (rw same refl) ∙ e)))
  | inr other ↦ absurd (ground (arith, other, e))
]

-- The key, its two parts decoded, and its fields; `sig` is the digest of the payload under the
-- secret.
pub record IsSigned (codec : Codec) (secret : Bytes) (today : ℕ) (key : Bytes) (r : LicenseResult)
    : Type 0 where
  encoded_payload : Bytes
  encoded_sig : Bytes
  payload : Payload
  fields : Fields
  layout : key ≡ b'v' ∷ b'2' ∷ b'.' ∷ encoded_payload ++ (b'.' ∷ encoded_sig)
  decoded : decode_payload codec encoded_payload ≡ dict payload
  signed : codec.b64decode (padded encoded_sig) ≡ some (codec.hmac secret (codec.dumps payload))
  digest : length (codec.hmac secret (codec.dumps payload)) ≡ 32
  extracted : extract_v2_fields codec payload ≡ some fields
  begun : fields.nbf ≤ today
  result : r ≡ record {
    status = if ltb fields.exp today then expired else valid;
    expires_at = some fields.exp;
    licensee = some fields.lic;
  }

abbrev pub Accepted : LicenseResult → Type 0
Accepted r = r.status ≢ invalid

guarded :
    (b : Bool) (r : LicenseResult)
    → Accepted (if not b then refused else r)
    → (b ≡ true) × ((if not b then refused else r) ≡ r) × Accepted r
guarded true r ok = (refl, refl, ok)
guarded false r ok = absurd (ok refl)

fields-Accepted :
    (today : ℕ) (o : Option Fields)
    → Accepted (on_fields today o)
    → (f : Fields) × (o ≡ some f)
      × (f.nbf ≤ today)
      × (on_fields today o ≡ record {
        status = if ltb f.exp today then expired else valid;
        expires_at = some f.exp;
        licensee = some f.lic;
      })
unfolding on_dates
fields-Accepted today none ok = absurd (ok refl)
fields-Accepted today (some f) ok = elim (Bool-cases (ltb today f.nbf)) [
  | inl early ↦ absurd (ok (rw early refl))
  | inr begun ↦ (f, refl, ground (arith, begun), rw begun refl)
]

partition-join :
    (t : Bytes) → is_empty (partition t).1 ≡ false → t ≡ (partition t).0 ++ (b'.' ∷ (partition t).1)
partition-join [] h = absurd (ground (arith, h))
partition-join (c ∷ t) h = elim (Bool-cases (c == b'.')) [
  | inl dot ↦ rw (dot, (==_iff c b'.').0 dot) refl
  | inr other ↦ rw (other) (ap (λ rest. c ∷ rest) (partition-join t (sym (rw other refl) ∙ h)))
]

refused_not : (r : LicenseResult) → ◌≡◌ {A = Answer} (some refused) (some r) → Accepted r → ⊥
refused_not r e ok =
    let same : refused ≡ r = cc e in ok (ap (λ (x : LicenseResult). x.status) (sym same))

-- A guard that refuses was passed.
passed :
    (b : Bool) (a : Answer) (r : LicenseResult)
    → (if b then some refused else a) ≡ some r
    → Accepted r
    → (b ≡ false) × (a ≡ some r)
passed true a r e ok = absurd (refused_not r e ok)
passed false a r e ok = (refl, e)

both_false : (a b : Bool) → (a || b) ≡ false → (a ≡ false) × (b ≡ false)
both_false true b e = absurd (ground (arith, e))
both_false false b e = (refl, e)

not-false : (b : Bool) → not b ≡ false → b ≡ true
not-false true e = refl
not-false false e = absurd (ground (arith, e))

module _ (codec : Codec) (secret : Bytes) (today : ℕ) where
  signature-Accepted :
      (payload : Payload) (o : Option Bytes)
      → Accepted (on_signature codec secret today payload o)
      → (f : Fields) × (o ≡ some (codec.hmac secret (codec.dumps payload)))
        × (length (codec.hmac secret (codec.dumps payload)) ≡ 32)
        × (extract_v2_fields codec payload ≡ some f)
        × (f.nbf ≤ today)
        × (on_signature codec secret today payload o ≡ record {
          status = if ltb f.exp today then expired else valid;
          expires_at = some f.exp;
          licensee = some f.lic;
        })
  unfolding on_signature verify_signature sign
  signature-Accepted payload none ok = absurd (ok refl)
  signature-Accepted payload (some sig) ok =
      let (long, first, ok1) = guarded (length sig == 32) _ ok in
      let (same, second, ok2) =
        guarded (same_text (codec.hmac secret (codec.dumps payload)) sig) _ ok1 in
      let (f, extracted, begun, result) =
        fields-Accepted today (extract_v2_fields codec payload) ok2 in
      let e = same_text_eq (codec.hmac secret (codec.dumps payload)) sig same in
      (
        f,
        ap (λ x. some x) (sym e),
        ap length e ∙ (==_iff (length sig) 32).0 long,
        extracted,
        begun,
        first ∙ (second ∙ result),
      )

  loaded-Accepted :
      (encoded_sig : Bytes) (l : Loaded) (r : LicenseResult)
      → on_loaded codec secret today encoded_sig l ≡ some r
      → Accepted r
      → (payload : Payload) × (l ≡ dict payload)
        × (on_signature codec secret today payload (codec.b64decode (padded encoded_sig)) ≡ r)
  loaded-Accepted encoded_sig (dict payload) r e ok = (payload, refl, cc e)
  loaded-Accepted encoded_sig value_error r e ok = absurd (refused_not r e ok)
  loaded-Accepted encoded_sig recursion_error r e ok = absurd (ground (arith, e))

  -- What is left to check of a key behind its version.
  body-IsSigned :
      (body : Bytes) (r : LicenseResult)
      → verify_v2 codec secret today body ≡ some r
      → Accepted r
      → IsSigned codec secret today (b'v' ∷ b'2' ∷ b'.' ∷ body) r
  unfolding verify_v2
  body-IsSigned body r e ok =
      let (full, read) = passed _ _ r e ok in
      let (payload_full, sig_full) = both_false _ _ full in
      let (payload, decoded, checked) =
        loaded-Accepted (partition body).1 (decode_payload codec (partition body).0) r read ok in
      let (f, signed, digest, extracted, begun, result) =
        signature-Accepted payload (codec.b64decode (padded (partition body).1))
          (subst Accepted (sym checked) ok) in
      record {
        encoded_payload = (partition body).0;
        encoded_sig = (partition body).1;
        payload = payload;
        fields = f;
        layout = ap (λ t. b'v' ∷ b'2' ∷ b'.' ∷ t) (partition-join body sig_full);
        decoded = decoded;
        signed = signed;
        digest = digest;
        extracted = extracted;
        begun = begun;
        result = sym checked ∙ result;
      }

-- A key that is found valid or expired has the form `v2.<payload>.<signature>`, and its signature is
-- the digest of the canonical form of its payload under the secret; its fields could be read, its
-- first day has come, and the answer is `expired` when its last day is over and `valid` otherwise,
-- with that day and the licensee of the payload.
pub verify_license-IsSigned :
    (codec : Codec) (key secret : Bytes) (now : Now) (r : LicenseResult)
    → verify_license codec key secret now ≡ some r
    → r.status ≢ invalid
    → IsSigned codec secret now.today key r
unfolding verify_license
verify_license-IsSigned codec key secret now r e ok =
    let (aware, e1) = passed _ _ r e ok in
    let (full, e2) = passed _ _ r e1 ok in
    let (version, e3) = passed _ _ r e2 ok in
    let (prefix_full, body_full) = both_false _ _ full in
    let is_v2 = same_text_eq (partition key).0 (b'v' ∷ b'2' ∷ []) (not-false _ version) in
    subst (λ t. IsSigned codec secret now.today t r)
      (sym (partition-join key body_full ∙ ap (λ p. p ++ (b'.' ∷ (partition key).1)) is_v2))
      (body-IsSigned codec secret now.today (partition key).1 r e3 ok)
