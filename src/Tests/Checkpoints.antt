-- ===== src/Tests/Checkpoints.antt =====
-- The theorems on checkpoints, at concrete envelopes. The platform knows one URL, takes one text for a
-- credential, and takes each text for a number.
use text.Mathlib.Text.{◌==◌ as str_eq}
use managed_agents_runtime.Prelude.{
  ◌||◌, ◌∷◌, [], none, some, ◌≡◌, refl, arith, List, if◌then◌else◌,
}
use managed_agents_runtime.Json.{Json, num, str, obj, end, field}
use managed_agents_runtime.Core.Checkpoints.{
  accepted, rejected, Platform, Url, looks_like_credential_value, is_credential_query_parameter,
  is_secret_key, urls_of, check_url, check_urls, check_text, assert_safe_checkpoint_value, get,
  tool_call, credential_value, unsupported_version,
}
use managed_agents_runtime.Core.Checkpoints.Envelope.{
  validate_head, check_blocked, validate_commitments, check_evidence, validate_references,
  validate_selection, validate_checkpoint_envelope, CheckpointInput, empty_commitments,
  empty_references, empty_context_selection, text_field, call_field, last_fields, new_envelope,
  create_checkpoint_envelope, legacy_call, upgrade_legacy, decode_legacy,
  decode_checkpoint_envelope,
}
use managed_agents_runtime.Store.Checkpoints.{
  CheckpointRow, NewCheckpoint, new_checkpoint, insert_checkpoint, latest_checkpoint,
}
use managed_agents_runtime.Store.Checkpoints.Latest.{latest_checkpoint-insert_checkpoint}
use managed_agents_runtime.Core.Checkpoints.Decoding.{IsMadeOf, decode-create_checkpoint_envelope}
use managed_agents_runtime.Core.Checkpoints.Safe.{
  IsSafe, IsConsistent, decode_checkpoint_envelope-IsSafe,
}

abbrev page : Url
page = record { username = ""; password = ""; keys = "page" ∷ [] }

abbrev platform : Platform
platform = record {
  test = λ pattern flags value. str_eq pattern "^\\d+$" || str_eq value "Bearer abcdefgh";
  matches = λ pattern flags value. if str_eq value "https://a.test" then value ∷ [] else [];
  strip = λ pattern url. url;
  parse_url = λ url. some page;
}

abbrev a_call : Json
a_call = obj (field "id" (str "1") (field "name" (str "search") (field "arguments" (obj end) end)))

abbrev input : CheckpointInput
input = record {
  step = 3;
  transcript_tos_key = some "";
  context_summary = some "https://a.test";
  supervisor = some (obj (field "level" (num 1) end));
  pending_tool_call = some a_call;
  commitments = none;
  references = none;
  context_selection = none;
}

abbrev envelope : Json
envelope = obj (new_envelope input)

made : create_checkpoint_envelope platform input ≡ accepted envelope
unfolding looks_like_credential_value is_credential_query_parameter is_secret_key urls_of check_url
    check_urls check_text assert_safe_checkpoint_value get tool_call validate_head check_blocked
    validate_commitments check_evidence validate_references validate_selection
    validate_checkpoint_envelope text_field call_field last_fields new_envelope empty_commitments
    empty_references empty_context_selection create_checkpoint_envelope
made = refl

decode-create_checkpoint_envelope_example :
    (decode_checkpoint_envelope platform 2 (some envelope) ≡ accepted envelope)
    × IsMadeOf input envelope
decode-create_checkpoint_envelope_example =
    decode-create_checkpoint_envelope platform input envelope made

abbrev legacy : Json
legacy = obj (
    field "step" (num 3) (
      field "contextSummary" (str "https://a.test") (
        field "supervisor" (obj (field "level" (num 1) end)) (field "pendingToolCall" a_call end))))

upgraded : decode_checkpoint_envelope platform 1 (some legacy) ≡ accepted envelope
unfolding looks_like_credential_value is_credential_query_parameter is_secret_key urls_of check_url
    check_urls check_text assert_safe_checkpoint_value get tool_call validate_head check_blocked
    validate_commitments check_evidence validate_references validate_selection
    validate_checkpoint_envelope text_field call_field last_fields new_envelope empty_commitments
    empty_references empty_context_selection create_checkpoint_envelope legacy_call upgrade_legacy
    decode_legacy decode_checkpoint_envelope
upgraded = refl

decode_checkpoint_envelope-IsSafe_example : IsSafe platform envelope × IsConsistent envelope
decode_checkpoint_envelope-IsSafe_example =
    decode_checkpoint_envelope-IsSafe platform 1 (some legacy) envelope upgraded

valid : validate_checkpoint_envelope platform (new_envelope input) ≡ accepted tt
unfolding looks_like_credential_value is_credential_query_parameter is_secret_key urls_of check_url
    check_urls check_text assert_safe_checkpoint_value get tool_call validate_head check_blocked
    validate_commitments check_evidence validate_references validate_selection
    validate_checkpoint_envelope text_field call_field last_fields new_envelope empty_commitments
    empty_references empty_context_selection
valid = refl

abbrev second : NewCheckpoint
second = record {
  id = 12;
  run_id = 1;
  attempt_id = 4;
  event_seq = 8;
  workspace_revision_id = none;
  progress = obj end;
  agent_state = new_envelope input;
  now = 500;
}

abbrev first : CheckpointRow
first = record (new_checkpoint second) { id = 11; event_seq = 5 }

latest_checkpoint-insert_checkpoint_example :
    (after : List CheckpointRow) × (insert_checkpoint platform second (first ∷ [])
      ≡ accepted (new_checkpoint second, after))
    × (after ≡ first ∷ new_checkpoint second ∷ [])
    × (latest_checkpoint platform 1 after ≡ accepted (some (new_checkpoint second)))
    × ((new_checkpoint second).agent_state ≡ envelope)
unfolding new_checkpoint
latest_checkpoint-insert_checkpoint_example =
    latest_checkpoint-insert_checkpoint platform second (first ∷ []) valid
      ((λ own. omega arith), tt)

-- A text that looks like a credential, or a version that nothing reads, is refused.
refused :
    assert_safe_checkpoint_value platform (obj (field "note" (str "Bearer abcdefgh") end))
    ≡ rejected credential_value
unfolding assert_safe_checkpoint_value check_text looks_like_credential_value is_secret_key
refused = refl

unknown_version : decode_checkpoint_envelope platform 3 (some legacy) ≡ rejected unsupported_version
unfolding decode_checkpoint_envelope
unknown_version = refl
