-- ===== src/Core/Checkpoints/Envelope.antt =====
-- The checkpoint envelopes of src/core/checkpoints.ts: their validation, how they are made, and how a
-- stored one is decoded. An envelope is the object of JSON that is stored. The field `supervisor` of
-- the input of `createCheckpointEnvelope` is `none` where the input has no such key.
use text.Mathlib.Text.{◌==◌ as str_eq}
use managed_agents_runtime.Prelude.{
  ℕ, String, Bool, true, false, not, ◌||◌, Option, none, some, if◌then◌else◌, ltb, ◌==◌,
}
use managed_agents_runtime.Json.{
  Json, null, num, str, arr, obj, Items, nil, cons, Fields, end, field,
}
use managed_agents_runtime.Core.Checkpoints.{
  Checked, accepted, rejected, ◌>>=◌, ◌>>◌, reject_if, Platform, assert_safe_checkpoint_value, get,
  record_of, non_negative_integer, array, is_string, string_array, required_string, optional_string,
  tool_call, truthy, unsupported_version, invalid, has_text,
}

abbrev pub checkpoint_schema_version : ℕ
checkpoint_schema_version = 2

abbrev is_version : Option Json → ℕ → Bool
is_version (some (num n)) version = n == version
is_version _ version = false

abbrev tool_call_if : Bool → Option Json → Checked (Unit {0})
tool_call_if true (some call) = do _ ← tool_call call; accepted tt
tool_call_if _ call = accepted tt

unfoldable pub validate_head : Fields → Checked (Unit {0})
validate_head envelope = do
  reject_if (not (is_version (get "schemaVersion" envelope) checkpoint_schema_version))
      unsupported_version
  _ ← non_negative_integer (get "step" envelope) "checkpoint step"
  _ ← optional_string (get "transcriptTosKey" envelope) "transcriptTosKey"
  _ ← optional_string (get "contextSummary" envelope) "contextSummary"
  let call = get "pendingToolCall" envelope
  tool_call_if (truthy call) call

abbrev is_null_or_string : Option Json → Bool
is_null_or_string (some null) = true
is_null_or_string value = is_string value

unfoldable pub check_blocked : Items → Checked (Unit {0})
check_blocked nil = accepted tt
check_blocked (cons entry rest) = do
  item ← record_of (some entry) "checkpoint pendingWork.blocked"
  _ ← required_string (get "item" item) "checkpoint pendingWork.blocked.item"
  _ ← required_string (get "reason" item) "checkpoint pendingWork.blocked.reason"
  check_blocked rest

unfoldable pub validate_commitments : Option Json → Checked (Unit {0})
unfolding check_blocked
validate_commitments value = do
  commitments ← record_of value "checkpoint commitments"
  reject_if (not (is_null_or_string (get "awaitedSignal" commitments)))
      (invalid "checkpoint awaitedSignal")
  string_array (get "pendingApprovalIds" commitments) "checkpoint pendingApprovalIds"
  string_array (get "activeChildRunIds" commitments) "checkpoint activeChildRunIds"
  pending_work ← record_of (get "pendingWork" commitments) "checkpoint pendingWork"
  string_array (get "active" pending_work) "checkpoint pendingWork.active"
  string_array (get "remaining" pending_work) "checkpoint pendingWork.remaining"
  blocked ← array (get "blocked" pending_work) "checkpoint pendingWork.blocked"
  check_blocked blocked

unfoldable pub check_evidence : Platform → Items → Checked (Unit {0})
check_evidence p nil = accepted tt
check_evidence p (cons entry rest) = do
  ref ← record_of (some entry) "checkpoint evidence"
  _ ← required_string (get "runId" ref) "checkpoint evidence.runId"
  event_seq ← required_string (get "eventSeq" ref) "checkpoint evidence.eventSeq"
  reject_if (not (p.test "^\\d+$" "" event_seq)) (invalid "checkpoint evidence.eventSeq")
  check_evidence p rest

unfoldable pub validate_references : Platform → Option Json → Checked (Unit {0})
unfolding check_evidence
validate_references p value = do
  references ← record_of value "checkpoint references"
  string_array (get "childRunIds" references) "checkpoint childRunIds"
  string_array (get "artifactIds" references) "checkpoint artifactIds"
  evidence ← array (get "evidence" references) "checkpoint evidence"
  check_evidence p evidence

abbrev pub is_text : Option Json → String → Bool
is_text (some (str s)) text = str_eq s text
is_text _ text = false

unfoldable pub validate_selection : Option Json → Checked (Unit {0})
validate_selection value = do
  selection ← record_of value "checkpoint contextSelection"
  reject_if (not (is_text (get "strategyVersion" selection) "context-compiler/v1"))
      (invalid "checkpoint contextSelection.strategyVersion")
  tail_limit ←
      non_negative_integer (get "transcriptTailLimit" selection)
        "checkpoint contextSelection.transcriptTailLimit"
  available ←
      non_negative_integer (get "transcriptMessagesAvailable" selection)
        "checkpoint contextSelection.transcriptMessagesAvailable"
  selected ←
      non_negative_integer (get "transcriptMessagesSelected" selection)
        "checkpoint contextSelection.transcriptMessagesSelected"
  reject_if (ltb available selected || ltb tail_limit selected)
      (invalid "checkpoint contextSelection transcript selection")
  _ ←
      non_negative_integer (get "userMessageCount" selection)
        "checkpoint contextSelection.userMessageCount"
  _ ←
      non_negative_integer (get "approvalOutcomeCount" selection)
        "checkpoint contextSelection.approvalOutcomeCount"
  string_array (get "memoryIds" selection) "checkpoint contextSelection.memoryIds"
  string_array (get "skillRefs" selection) "checkpoint contextSelection.skillRefs"

unfoldable pub validate_checkpoint_envelope : Platform → Fields → Checked (Unit {0})
unfolding validate_head validate_commitments validate_references validate_selection
validate_checkpoint_envelope p envelope = do
  validate_head envelope
  validate_commitments (get "commitments" envelope)
  validate_references p (get "references" envelope)
  validate_selection (get "contextSelection" envelope)
  assert_safe_checkpoint_value p (obj envelope)

pub record CheckpointInput : Type 0 where
  pub step : ℕ
  pub transcript_tos_key : Option String
  pub context_summary : Option String
  pub supervisor : Option Json
  pub pending_tool_call : Option Json
  pub commitments : Option Json
  pub references : Option Json
  pub context_selection : Option Json

abbrev no_items : Json
no_items = arr nil

unfoldable pub empty_commitments : Json
empty_commitments = obj (
    field "awaitedSignal" null (
      field "pendingApprovalIds" no_items (
        field "activeChildRunIds" no_items (
          field "pendingWork"
            (obj
              (field "active" no_items (field "blocked" no_items (field "remaining" no_items end))))
            end))))

unfoldable pub empty_references : Json
empty_references =
    obj
      (field "childRunIds" no_items (field "artifactIds" no_items (field "evidence" no_items end)))

unfoldable pub empty_context_selection : Json
empty_context_selection = obj (
    field "strategyVersion" (str "context-compiler/v1") (
      field "transcriptTailLimit" (num 60) (
        field "transcriptMessagesAvailable" (num 0) (
          field "transcriptMessagesSelected" (num 0) (
            field "memoryIds" no_items (
              field "userMessageCount" (num 0)
                (field "approvalOutcomeCount" (num 0) (field "skillRefs" no_items end))))))))

abbrev pub or_else : Option Json → Json → Json
or_else none fallback = fallback
or_else (some value) fallback = value

-- `...(text ? { key: text } : {})`.
unfoldable pub text_field : String → Option String → Fields → Fields
text_field key none rest = rest
text_field key (some text) rest = if has_text text then field key (str text) rest else rest

abbrev pub optional_field : String → Option Json → Fields → Fields
optional_field key none rest = rest
optional_field key (some value) rest = field key value rest

unfoldable pub call_field : Option Json → Fields → Fields
call_field call rest = if truthy call then optional_field "pendingToolCall" call rest else rest

-- The members of an envelope from `commitments`, from `pendingToolCall`, from `supervisor` and from
-- `contextSummary` on.
unfoldable pub last_fields : CheckpointInput → Fields
unfolding empty_commitments empty_references empty_context_selection
last_fields input = field "commitments" (or_else input.commitments empty_commitments) (
    field "references" (or_else input.references empty_references)
      (field "contextSelection" (or_else input.context_selection empty_context_selection) end))

abbrev pub from_call : CheckpointInput → Fields
from_call input = call_field input.pending_tool_call (last_fields input)

abbrev pub from_supervisor : CheckpointInput → Fields
from_supervisor input = optional_field "supervisor" input.supervisor (from_call input)

abbrev pub from_summary : CheckpointInput → Fields
from_summary input = text_field "contextSummary" input.context_summary (from_supervisor input)

unfoldable pub new_envelope : CheckpointInput → Fields
unfolding text_field call_field last_fields
new_envelope input = field "schemaVersion" (num checkpoint_schema_version) (
    field "step" (num input.step)
      (text_field "transcriptTosKey" input.transcript_tos_key (from_summary input)))

unfoldable pub create_checkpoint_envelope : Platform → CheckpointInput → Checked Json
unfolding validate_checkpoint_envelope new_envelope
create_checkpoint_envelope p input = do
  validate_checkpoint_envelope p (new_envelope input)
  accepted (obj (new_envelope input))

-- `...(legacy.pendingToolCall ? { pendingToolCall: toolCall(…) } : {})`.
unfoldable pub legacy_call : Option Json → Checked (Option Json)
legacy_call none = accepted none
legacy_call (some call) =
    if truthy (some call)
    then (tool_call call >>= λ checked. accepted (some checked))
    else accepted none

unfoldable pub upgrade_legacy : Fields → Checked CheckpointInput
unfolding legacy_call
upgrade_legacy legacy = do
  step ← non_negative_integer (get "step" legacy) "checkpoint step"
  transcript_tos_key ← optional_string (get "transcriptTosKey" legacy) "transcriptTosKey"
  context_summary ← optional_string (get "contextSummary" legacy) "contextSummary"
  pending_tool_call ← legacy_call (get "pendingToolCall" legacy)
  accepted (record {
    step = step;
    transcript_tos_key = transcript_tos_key;
    context_summary = context_summary;
    supervisor = get "supervisor" legacy;
    pending_tool_call = pending_tool_call;
    commitments = none;
    references = none;
    context_selection = none;
  })

unfoldable pub decode_current : Platform → Option Json → Checked Json
unfolding validate_checkpoint_envelope
decode_current p raw = do
  envelope ← record_of raw "checkpoint envelope"
  validate_checkpoint_envelope p envelope
  accepted (obj envelope)

unfoldable pub decode_legacy : Platform → Option Json → Checked Json
unfolding upgrade_legacy create_checkpoint_envelope
decode_legacy p raw = do
  legacy ← record_of raw "legacy checkpoint state"
  input ← upgrade_legacy legacy
  create_checkpoint_envelope p input

-- `raw` is `none` where the value is undefined.
unfoldable pub decode_checkpoint_envelope : Platform → ℕ → Option Json → Checked Json
unfolding decode_current decode_legacy
decode_checkpoint_envelope p version raw =
    if version == 1
    then decode_legacy p raw
    else if version == checkpoint_schema_version
    then decode_current p raw
    else rejected unsupported_version
