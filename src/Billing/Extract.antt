-- ===== src/Billing/Extract.antt =====
-- billing.py: the four billing fields of one SDK event, and the merge of two snapshots
-- (`_merge_evidence` of sdk_session.py).
use hermes_claude_agent_sdk.Common.{
  String, Bool, true, false, not, ◌&&◌, ◌||◌, List, [], ◌∷◌, ◌++◌, Option, none, some, any,
  contains, if◌then◌else◌,
}
use hermes_claude_agent_sdk.Common.Names.{sorted_set}
use hermes_claude_agent_sdk.Python.{
  Value, null, str, list, tuple, set, dict, object, end, absent, raised, found, Interpreter,
  class_name, is_mapping, is_null, is_bool, eq_str, lookup, read,
}
use hermes_claude_agent_sdk.Python.Text
use hermes_claude_agent_sdk.Billing.{Evidence, no_evidence}
use hermes_claude_agent_sdk.Billing.Normalize.{texts, names_value}

-- An event that is evidence already, or any other object.
pub data Input : Type 0 where
  typed : Evidence → Input
  value : Value → Input

-- `_read_field(value, *names, default=...)`. A mapping that raises gives the default, an attribute
-- that is missing or raises lets the next name be tried.
unfoldable pub read_field : Value → List String → Value → Value
unfolding lookup read
read_field v [] default = default
read_field (object _ fs) (name ∷ names) default =
    let rest = read_field (object "" fs) names default in
    elim (lookup fs name) [ found x ↦ x | _ ↦ rest ]
read_field v (name ∷ names) default =
    let rest = read_field v names default in
    elim (read v name) [ found x ↦ x | raised ↦ default | absent ↦ rest ]

-- `any(key in event for key in names)` on a mapping; `none` is an exception.
unfoldable pub has_any : Value → List String → Option Bool
has_any (dict fs) names =
    some (any (λ name. elim (lookup fs name) [ found _ ↦ true | _ ↦ false ]) names)
has_any (Value.broken) names = none
has_any _ names = some false

-- What `extract_sdk_billing_evidence` returns: `None`, the evidence, or an exception.
pub data Extraction : Type 0 where
  unsupported failed : Extraction
  evidence : Evidence → Extraction

module _ (py : Interpreter) where
  unfoldable pub event_kind : Value → String
  unfolding read_field
  event_kind event =
      let kind =
        if is_mapping event
        then read_field event ("type" ∷ "kind" ∷ []) (str "")
        else str (class_name event) in
      elim kind [ str s ↦ py.lower (Text.remove_char b' ' (Text.replace b'-' "_" s)) | _ ↦ "" ]

abbrev is_init : Value → Bool
is_init subtype = is_null subtype || eq_str subtype "init"

-- The branch for a system message.
unfoldable pub system_evidence : Value → Extraction
system_evidence event =
    if not (is_init (read_field event ("subtype" ∷ []) null))
    then unsupported
    else let fields = read_field event ("data" ∷ []) event in
      if not (is_mapping fields)
      then evidence
          (record no_evidence { malformed_fields = tuple (names_value ("api_key_source" ∷ [])) })
      else evidence (record no_evidence {
        api_key_source = read_field fields ("apiKeySource" ∷ "api_key_source" ∷ []) null;
      })

-- The branch for a rate-limit event, once its `info` is known.
unfoldable pub rate_limit_evidence : Value → Evidence
rate_limit_evidence info =
    let found_raw = read_field info ("raw" ∷ []) (dict end) in
    let raw = if is_mapping found_raw then found_raw else dict end in
    let bad_raw = not (is_null found_raw) && not (is_mapping found_raw) in
    let overage_value =
      read_field info ("is_using_overage" ∷ "isUsingOverage" ∷ [])
        (read_field raw ("isUsingOverage" ∷ "is_using_overage" ∷ []) null) in
    let bad_value = not (is_null overage_value) && not (is_bool overage_value) in
    record {
      api_key_source = null;
      is_using_overage = overage_value;
      overage_status =
          read_field info ("overage_status" ∷ "overageStatus" ∷ [])
            (read_field raw ("overageStatus" ∷ "overage_status" ∷ []) null);
      rate_limit_type =
          read_field info ("rate_limit_type" ∷ "rateLimitType" ∷ [])
            (read_field raw ("rateLimitType" ∷ "rate_limit_type" ∷ []) null);
      malformed_fields =
          tuple (names_value (if bad_raw || bad_value then "is_using_overage" ∷ [] else []));
    }

abbrev rate_limit_keys : List String
rate_limit_keys =
    "raw" ∷ "isUsingOverage" ∷ "is_using_overage" ∷ "overageStatus" ∷ "overage_status"
    ∷ "rateLimitType" ∷ "rate_limit_type" ∷ []

module _ (py : Interpreter) where
  abbrev is_rate_limit_kind : Value → Bool
  is_rate_limit_kind event =
      contains ("ratelimitevent" ∷ "rate_limit_event" ∷ "rate_limit" ∷ []) (event_kind py event)

  -- The rest of the function, past the system branch.
  unfoldable pub rate_limit_branch : Value → Extraction
  unfolding rate_limit_evidence
  rate_limit_branch event =
      let info = read_field event ("rate_limit_info" ∷ "rateLimitInfo" ∷ []) null in
      if is_null info && is_mapping event
      then elim (has_any event rate_limit_keys) [
        | none ↦ if is_rate_limit_kind event then evidence (rate_limit_evidence event) else failed
        | some direct ↦
            if is_rate_limit_kind event || direct
            then evidence (rate_limit_evidence event)
            else unsupported
      ]
      else if is_rate_limit_kind event
      then evidence (rate_limit_evidence info)
      else unsupported

  unfoldable pub extract_sdk_billing_evidence : Input → Extraction
  unfolding system_evidence rate_limit_branch event_kind
  extract_sdk_billing_evidence (typed given) = evidence given
  extract_sdk_billing_evidence (value event) =
      elim (has_any event ("apiKeySource" ∷ "api_key_source" ∷ [])) [
        | none ↦ failed
        | some direct ↦
            if contains ("systemmessage" ∷ "system_message" ∷ "system" ∷ []) (event_kind py event)
              || (direct && is_init (read_field event ("subtype" ∷ []) null))
            then system_evidence event
            else rate_limit_branch event
      ]

abbrev newer : Value → Value → Value
newer update current = if is_null update then current else update

-- The texts that the malformed fields list; extraction always makes a tuple of texts.
unfoldable pub listed_names : Value → List String
unfolding texts
listed_names (tuple xs) = texts xs
listed_names (list xs) = texts xs
listed_names (set xs) = texts xs
listed_names _ = []

unfoldable pub merge_evidence : Option Evidence → Evidence → Evidence
unfolding listed_names
merge_evidence none update = update
merge_evidence (some current) update = record {
  api_key_source = newer update.api_key_source current.api_key_source;
  is_using_overage = newer update.is_using_overage current.is_using_overage;
  overage_status = newer update.overage_status current.overage_status;
  rate_limit_type = newer update.rate_limit_type current.rate_limit_type;
  malformed_fields = tuple (
      names_value (
        sorted_set
          (listed_names current.malformed_fields ++ listed_names update.malformed_fields)));
}
