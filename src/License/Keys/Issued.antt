-- ===== src/License/Keys/Issued.antt =====
-- The keys that are issued, read back by the verifier.
use gektar_monitor.Prelude.{
  ℕ, zero, suc, ◌+◌, ◌-◌, ◌%◌, ◌<◌, ◌≡◌, refl, ap, sym, ◌∙◌, true, false, some, [], ◌∷◌, ◌++◌, ◌==◌,
  ltb, length, is_empty, same_text, if◌then◌else◌, All, arith, ==_refl,
}
use gektar_monitor.License.{valid, expired}
use gektar_monitor.License.Keys.{
  Bytes, Payload, get, dict, Codec, rstrip, repeat, padded, partition, encode_payload,
  decode_payload, sign, verify_signature, refused, extract_v2_fields, on_dates, on_signature,
  verify_v2, verify_license, interactive, new_payload, build_v2_key,
}

-- The alphabet of base64 for URLs has neither a dot nor the sign of padding.
abbrev pub Plain : ℕ → Type 0
Plain c = ((c == b'.') ≡ false) × ((c == b'=') ≡ false)

-- Base64 of `bs`: plain letters, padded to a multiple of four, and decoded to `bs` again.
pub record IsBase64 (codec : Codec) (bs : Bytes) : Type 0 where
  pub body : Bytes
  pub padding : ℕ
  pub plain : All Plain body
  pub some_letters : is_empty body ≡ false
  pub encodes : codec.b64encode bs ≡ body ++ repeat padding b'='
  pub short : padding < 4
  pub whole : (length body + padding) % 4 ≡ 0
  pub decodes : codec.b64decode (codec.b64encode bs) ≡ some bs

rstrip-repeat : (n : ℕ) → rstrip (repeat n b'=') ≡ []
rstrip-repeat zero = refl
rstrip-repeat (suc n) = rw (rstrip-repeat n) refl

rstrip-body : (body : Bytes) (n : ℕ) → All Plain body → rstrip (body ++ repeat n b'=') ≡ body
rstrip-body [] n h = rstrip-repeat n
rstrip-body (c ∷ body) n h = rw (rstrip-body body n h.1, h.0.1) (ground arith)

length-repeat : (n c : ℕ) → length (repeat n c) ≡ n
length-repeat zero c = refl
length-repeat (suc n) c = omega (arith, length-repeat n c)

missing : (l p : ℕ) → p < 4 → (l + p) % 4 ≡ 0 → (4 - l % 4) % 4 ≡ p
missing l p short whole = omega (arith, short, whole)

stripped :
    (codec : Codec) (bs : Bytes) (b : IsBase64 codec bs) → rstrip (codec.b64encode bs) ≡ b.body
stripped codec bs b = ap rstrip b.encodes ∙ rstrip-body b.body b.padding b.plain

-- What is stripped off is put back.
decodes_body :
    (codec : Codec) (bs : Bytes) (b : IsBase64 codec bs) → codec.b64decode (padded b.body) ≡ some bs
unfolding padded
decodes_body codec bs b =
    ap (λ n. codec.b64decode (b.body ++ repeat n b'='))
      (missing (length b.body) b.padding b.short b.whole)
    ∙ (ap codec.b64decode (sym b.encodes) ∙ b.decodes)

partition-dot :
    (body rest : Bytes) → All Plain body → partition (body ++ (b'.' ∷ rest)) ≡ (body, rest)
partition-dot [] rest h = refl
partition-dot (c ∷ body) rest h = rw (h.0.0, partition-dot body rest h.1) refl

is_empty-dot : (s t : Bytes) → is_empty (s ++ (b'.' ∷ t)) ≡ false
is_empty-dot [] t = refl
is_empty-dot (c ∷ s) t = refl

same_text_refl : (t : Bytes) → same_text t t ≡ true
same_text_refl [] = refl
same_text_refl (c ∷ t) = rw (==_refl c, same_text_refl t) refl

-- What an issued key relies on: base64 of its two parts, JSON and the dates read back, and a digest
-- of 32 bytes.
pub record IsReadable (codec : Codec) (nbf exp : ℕ) (secret : Bytes) : Type 0 where
  pub payload_base64 : IsBase64 codec (codec.dumps (new_payload codec nbf exp))
  pub sig_base64 : IsBase64 codec (codec.hmac secret (codec.dumps (new_payload codec nbf exp)))
  pub digest : length (codec.hmac secret (codec.dumps (new_payload codec nbf exp))) ≡ 32
  pub read_back : Payload
  pub loads : codec.loads (codec.dumps (new_payload codec nbf exp)) ≡ dict read_back
  pub same : (key : _) → get key read_back ≡ get key (new_payload codec nbf exp)
  pub canonical : codec.dumps read_back ≡ codec.dumps (new_payload codec nbf exp)
  pub nbf_date : codec.fromisoformat (codec.isoformat nbf) ≡ some nbf
  pub exp_date : codec.fromisoformat (codec.isoformat exp) ≡ some exp

module _ {codec : Codec} {nbf exp : ℕ} {secret : Bytes}
    (readable : IsReadable codec nbf exp secret) where
  fields_read :
      extract_v2_fields codec readable.read_back
      ≡ some (record { nbf = nbf; exp = exp; lic = interactive })
  unfolding extract_v2_fields get new_payload
  fields_read =
      rw
        (
          readable.same "v",
          readable.same "nbf",
          readable.same "exp",
          readable.same "lic",
          readable.nbf_date,
          readable.exp_date,
        )
        refl

  signature_read :
      (today : ℕ)
      → on_signature codec secret today readable.read_back
          (some (codec.hmac secret (codec.dumps (new_payload codec nbf exp))))
        ≡ on_dates today (record { nbf = nbf; exp = exp; lic = interactive })
  unfolding on_signature verify_signature sign
  signature_read today =
      rw
        (
          readable.digest,
          readable.canonical,
          same_text_refl (codec.hmac secret (codec.dumps (new_payload codec nbf exp))),
          fields_read,
        )
        refl

  body_read :
      (today : ℕ)
      → verify_v2 codec secret today (
          encode_payload codec (new_payload codec nbf exp)
          ++ (b'.'
              ∷ rstrip
                  (codec.b64encode (sign codec (codec.dumps (new_payload codec nbf exp)) secret))))
        ≡ some (on_dates today (record { nbf = nbf; exp = exp; lic = interactive }))
  unfolding verify_v2 encode_payload decode_payload sign
  body_read today =
      let p = readable.payload_base64 in
      let s = readable.sig_base64 in
      rw
        (
          stripped codec (codec.dumps (new_payload codec nbf exp)) p,
          stripped codec (codec.hmac secret (codec.dumps (new_payload codec nbf exp))) s,
          partition-dot p.body s.body p.plain,
          p.some_letters,
          decode_payload,
          s.some_letters,
          decodes_body codec (codec.dumps (new_payload codec nbf exp)) p,
          readable.loads,
          decodes_body codec (codec.hmac secret (codec.dumps (new_payload codec nbf exp))) s,
          signature_read today,
        )
        refl

  -- A key that is issued for the days from `nbf` to `exp` is valid on exactly these days for a
  -- verifier with the same secret: ahead of them it is refused, and behind them it has expired, with
  -- its last day and its licensee in the answer. Base64, JSON, the digest and the dates of the two
  -- parts of the key are read back as their libraries say.
  pub verify_license-build_v2_key :
      (today : ℕ)
      → verify_license codec
          (build_v2_key codec nbf exp secret)
          secret
          (record { aware = true; today = today })
        ≡ some (
            if ltb today nbf then refused else record {
              status = if ltb exp today then expired else valid;
              expires_at = some exp;
              licensee = some interactive;
            })
  unfolding verify_license build_v2_key on_dates
  verify_license-build_v2_key today =
      rw (is_empty-dot (encode_payload codec (new_payload codec nbf exp)) _, body_read today) refl
