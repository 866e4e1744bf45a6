-- ===== src/Domain/Failures.antt =====
-- The exceptions of src/fis_monitor/domain/errors.py that the services tell apart, with the text
-- that `_safe_error_str` of src/fis_monitor/services/monitor_cycle.py makes of one. A text of an
-- exception is the list of its code points.
use gektar_monitor.Prelude.{
  ℕ, ◌≤◌, String, Bool, true, false, List, ◌++◌, ◌∷◌, take, length, length-take-le, codes, decimal,
  str_eq, if◌then◌else◌,
}
use gektar_monitor.Domain.{
  ErrorCategory, network, http_5xx, http_4xx, redirect_login, timeout, schema_anomaly,
  internal_error,
}

abbrev pub Text : Type 0
Text = List ℕ

-- The class of an exception. `UpstreamError.category` is a text that nothing checks at run time;
-- `other` is every class that is none of the domain's.
pub data Kind : Type 0 where
  upstream : String → Kind
  session_expired parse_bug parser_version_mismatch other : Kind

pub record Failure : Type 0 where
  pub kind : Kind
  pub type_name : Text
  pub message : Text

abbrev pub is_upstream : Kind → Bool
is_upstream (upstream _) = true
is_upstream session_expired = false
is_upstream parse_bug = false
is_upstream parser_version_mismatch = false
is_upstream other = false

abbrev pub is_version_mismatch : Kind → Bool
is_version_mismatch (upstream _) = false
is_version_mismatch session_expired = false
is_version_mismatch parse_bug = false
is_version_mismatch parser_version_mismatch = true
is_version_mismatch other = false

-- `f"{type_name}: {raw_msg}"[:200]`, with a message of at most 150 characters.
unfoldable pub safe_error_str : Failure → Text
safe_error_str e = take 200 (e.type_name ++ b':' ∷ b' ' ∷ take 150 e.message)

-- `ParseBugError(selector="<list-row-conversion>", context=f"row_index={index}")`
unfoldable pub conversion_failure : ℕ → Failure
conversion_failure index = record {
  kind = parse_bug;
  type_name = codes "ParseBugError";
  message =
      codes "parse bug: selector='<list-row-conversion>' context='row_index="
      ++ decimal index
      ++ codes "'";
}

-- `_upstream_to_error_category`
unfoldable pub upstream_to_error_category : String → ErrorCategory
upstream_to_error_category cat =
    if str_eq cat "http_5xx"
    then http_5xx
    else if str_eq cat "http_4xx"
    then http_4xx
    else if str_eq cat "redirect_login"
    then redirect_login
    else if str_eq cat "timeout"
    then timeout
    else if str_eq cat "parse_bug"
    then ErrorCategory.parse_bug
    else if str_eq cat "schema_anomaly"
    then schema_anomaly
    else if str_eq cat "internal_error"
    then internal_error
    else network

-- The text never exceeds what `CycleResult.error` admits.
pub length-safe_error_str : (e : Failure) → length (safe_error_str e) ≤ 200
unfolding safe_error_str
length-safe_error_str e = length-take-le 200 _
