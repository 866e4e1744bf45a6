-- ===== src/Lots/Columns/Laws.antt =====
-- What is read back from the columns of a lot.
use gektar_monitor.Prelude.{
  ◌≡◌, refl, ap, String, Bool, true, false, Option, none, some, is_empty, codes,
}
use gektar_monitor.Domain.{Instant, EnrichmentStatus, pending, done, failed, permanent_fail, Lot}
use gektar_monitor.Lots.Columns.{
  aware, Codec, iso, parse_text, parse_dt, to_int, to_bool, bool_to_int, boundaries, read_json,
  stored_enrichment, parse_enrichment, read_enrichment,
}

-- What Python documents of the two pairs of functions: an aware datetime is read back from its text,
-- and a JSON value from its own, which is never empty.
pub record IsCodec (codec : Codec) : Type 0 where
  pub times : (t : Instant) → codec.fromisoformat (codec.isoformat t) ≡ some (aware t)
  pub values : (j : String) → codec.loads (codec.dumps j) ≡ some j
  pub filled : (j : String) → is_empty (codes (codec.dumps j)) ≡ false

-- The lot behind the write: one that was stored before keeps its time of discovery.
abbrev pub rediscovered : Option Lot → Lot → Lot
rediscovered none lot = lot
rediscovered (some old) lot = record lot { first_seen = old.first_seen }

module _ (codec : Codec) (law : IsCodec codec) where
  pub parse_text-isoformat : (t : Instant) → parse_text codec (codec.isoformat t) ≡ some t
  unfolding parse_text
  parse_text-isoformat t = rw (law.times t) refl

  pub parse_dt-iso : (o : Option Instant) → parse_dt codec (iso codec o) ≡ some o
  unfolding parse_dt
  parse_dt-iso none = refl
  parse_dt-iso (some t) = rw (parse_text-isoformat t) refl

  pub read_json-dumps : (j : String) → read_json codec (codec.dumps j) ≡ some j
  unfolding read_json
  read_json-dumps j = rw (law.filled j, law.values j) refl

  pub read_enrichment_lem :
      (o : Option EnrichmentStatus) → read_enrichment (stored_enrichment o) ≡ some o
  unfolding read_enrichment parse_enrichment
  read_enrichment_lem none = refl
  read_enrichment_lem (some pending) = refl
  read_enrichment_lem (some done) = refl
  read_enrichment_lem (some failed) = refl
  read_enrichment_lem (some permanent_fail) = refl

  pub to_bool-to_int : (b : Bool) → to_bool (to_int b) ≡ b
  to_bool-to_int true = refl
  to_bool-to_int false = refl

  pub boundaries_lem : (o : Option Bool) → boundaries (bool_to_int o) ≡ o
  boundaries_lem none = refl
  boundaries_lem (some b) = ap (λ x. some x) (to_bool-to_int b)
