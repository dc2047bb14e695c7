-- ===== src/Core/Checkpoints/Decoding.antt =====
-- What a checkpoint envelope of src/core/checkpoints.ts holds once it was decoded or made.
use mathlib.Core.Path.{subst}
use text.Mathlib.Text.{◌==◌ as str_eq}
use managed_agents_runtime.Prelude.{
  ℕ, String, Bool, true, false, Option, none, some, ◌≡◌, refl, sym, ap, ◌∙◌, Bool-cases, arith, inl,
  inr, if◌then◌else◌, ◌==◌,
}
use managed_agents_runtime.Json.{Json, num, str, obj, Fields}
use managed_agents_runtime.Core.Checkpoints.{
  Checked, accepted, rejected, CheckpointError, ◌>>=◌, reject_if, Platform, get, record_of,
  has_text, truthy,
}
use managed_agents_runtime.Core.Checkpoints.Envelope.{
  CheckpointInput, new_envelope, last_fields, from_call, from_supervisor, from_summary, or_else,
  empty_commitments, empty_references, empty_context_selection, text_field, optional_field,
  call_field, validate_checkpoint_envelope, create_checkpoint_envelope, decode_current,
  decode_legacy, decode_checkpoint_envelope, upgrade_legacy,
}

-- A chain that accepts has two steps that accept.
pub bind-accepted :
    {A B : Type 0} (m : Checked A) (f : A → Checked B) (b : B)
    → (m >>= f) ≡ accepted b
    → (a : A) × (m ≡ accepted a) × (f a ≡ accepted b)
bind-accepted (accepted a) f b h = (a, refl, h)
bind-accepted (rejected e) f b h = cc

pub reject_if-accepted :
    (b : Bool) (e : CheckpointError) (u : Unit {0}) → reject_if b e ≡ accepted u → b ≡ false
reject_if-accepted true e u h = cc
reject_if-accepted false e u h = refl

accepted_injective : {A : Type 0} (a b : A) → accepted a ≡ accepted b → a ≡ b
accepted_injective a b h = cc

-- An envelope that passed the validation.
unfoldable pub IsValidated : Platform → Json → Type 0
IsValidated p e = (f : Fields) × (e ≡ obj f) × (validate_checkpoint_envelope p f ≡ accepted tt)

create_checkpoint_envelope-IsValidated :
    (p : Platform) (input : CheckpointInput) (e : Json)
    → create_checkpoint_envelope p input ≡ accepted e
    → (e ≡ obj (new_envelope input))
      × (validate_checkpoint_envelope p (new_envelope input) ≡ accepted tt)
unfolding create_checkpoint_envelope
create_checkpoint_envelope-IsValidated p input e h =
    let (u, valid, k) = bind-accepted (validate_checkpoint_envelope p (new_envelope input)) _ e h in
    (sym (accepted_injective _ e k), valid)

decode_current-IsValidated :
    (p : Platform) (raw : Option Json) (e : Json)
    → decode_current p raw ≡ accepted e
    → IsValidated p e
unfolding decode_current IsValidated
decode_current-IsValidated p raw e h =
    let (f, _, h1) = bind-accepted (record_of raw "checkpoint envelope") _ e h in
    let (u, valid, k) = bind-accepted (validate_checkpoint_envelope p f) _ e h1 in
    (f, sym (accepted_injective _ e k), valid)

decode_legacy-IsValidated :
    (p : Platform) (raw : Option Json) (e : Json)
    → decode_legacy p raw ≡ accepted e
    → IsValidated p e
unfolding decode_legacy IsValidated
decode_legacy-IsValidated p raw e h =
    let (f, _, h1) = bind-accepted (record_of raw "legacy checkpoint state") _ e h in
    let (input, _, h2) = bind-accepted (upgrade_legacy f) _ e h1 in
    let (made, valid) = create_checkpoint_envelope-IsValidated p input e h2 in
    (new_envelope input, made, valid)

pub decode_checkpoint_envelope-IsValidated :
    (p : Platform) (version : ℕ) (raw : Option Json) (e : Json)
    → decode_checkpoint_envelope p version raw ≡ accepted e
    → IsValidated p e
unfolding decode_checkpoint_envelope
decode_checkpoint_envelope-IsValidated p version raw e h = elim (Bool-cases (version == 1)) [
  | inl one ↦ decode_legacy-IsValidated p raw e (rw one at h)
  | inr other ↦ elim (Bool-cases (version == 2)) [
    | inl two ↦ decode_current-IsValidated p raw e (rw two at (rw other at h))
    | inr none_of ↦ let here = rw none_of at (rw other at h) in cc
  ]
]

-- A validated envelope is decoded as it is.
pub validated_decodes :
    (p : Platform) (e : Json)
    → IsValidated p e
    → decode_checkpoint_envelope p 2 (some e) ≡ accepted e
unfolding decode_checkpoint_envelope decode_current IsValidated
validated_decodes p e (f, same, valid) = rw same (rw valid refl)

-- What an envelope stores of an optional text, and of an optional call: nothing for one that a test
-- takes for false.
stored_text : Option String → Option Json
stored_text none = none
stored_text (some text) = if has_text text then some (str text) else none

stored_call : Option Json → Option Json
stored_call call = if truthy call then call else none

get-text_field-own :
    (key : String) (text : Option String) (rest : Fields)
    → get key rest ≡ none
    → str_eq key key ≡ true
    → get key (text_field key text rest) ≡ stored_text text
unfolding get text_field stored_text
get-text_field-own key none rest absent same = absent
get-text_field-own key (some text) rest absent same = ground arith

get-text_field :
    (key other : String) (text : Option String) (rest : Fields)
    → str_eq key other ≡ false
    → get other (text_field key text rest) ≡ get other rest
unfolding get text_field
get-text_field key other none rest apart = refl
get-text_field key other (some text) rest apart = ground arith

get-optional_field-own :
    (key : String) (value : Option Json) (rest : Fields)
    → get key rest ≡ none
    → str_eq key key ≡ true
    → get key (optional_field key value rest) ≡ value
unfolding get
get-optional_field-own key none rest absent same = absent
get-optional_field-own key (some value) rest absent same = rw same refl

get-optional_field :
    (key other : String) (value : Option Json) (rest : Fields)
    → str_eq key other ≡ false
    → get other (optional_field key value rest) ≡ get other rest
unfolding get
get-optional_field key other none rest apart = refl
get-optional_field key other (some value) rest apart = rw apart refl

get-call_field-own :
    (call : Option Json) (rest : Fields)
    → get "pendingToolCall" rest ≡ none
    → get "pendingToolCall" (call_field call rest) ≡ stored_call call
unfolding call_field stored_call
get-call_field-own call rest absent = elim (Bool-cases (truthy call)) [
  | inl kept ↦ rw kept (get-optional_field-own "pendingToolCall" call rest absent refl)
  | inr dropped ↦ rw dropped absent
]

get-call_field :
    (other : String) (call : Option Json) (rest : Fields)
    → str_eq "pendingToolCall" other ≡ false
    → get other (call_field call rest) ≡ get other rest
unfolding call_field
get-call_field other call rest apart = elim (Bool-cases (truthy call)) [
  | inl kept ↦ rw kept (get-optional_field "pendingToolCall" other call rest apart)
  | inr dropped ↦ rw dropped refl
]

-- A value that was given, or its default.
pub given_or : Option Json → Json → Json
given_or none default = default
given_or (some value) default = value

or_else-given :
    (given : Option Json) (default : Json) → or_else given default ≡ given_or given default
unfolding given_or
or_else-given none default = refl
or_else-given (some value) default = refl

-- An object has at each key of an envelope what the input gives there.
pub IsMadeOf : CheckpointInput → Json → Type 0
IsMadeOf input e =
    (f : Fields) × (e ≡ obj f)
    × (get "schemaVersion" f ≡ some (num 2))
    × (get "step" f ≡ some (num input.step))
    × (get "transcriptTosKey" f ≡ stored_text input.transcript_tos_key)
    × (get "contextSummary" f ≡ stored_text input.context_summary)
    × (get "supervisor" f ≡ input.supervisor)
    × (get "pendingToolCall" f ≡ stored_call input.pending_tool_call)
    × (get "commitments" f ≡ some (given_or input.commitments empty_commitments))
    × (get "references" f ≡ some (given_or input.references empty_references))
    × (get "contextSelection" f ≡ some (given_or input.context_selection empty_context_selection))

module _ (input : CheckpointInput) where
  from_summary-get :
      (key : String)
      → str_eq "contextSummary" key ≡ false
      → get key (from_summary input) ≡ get key (from_supervisor input)
  from_summary-get key apart =
      get-text_field "contextSummary" key input.context_summary (from_supervisor input) apart

  from_supervisor-get :
      (key : String)
      → str_eq "supervisor" key ≡ false
      → get key (from_supervisor input) ≡ get key (from_call input)
  from_supervisor-get key apart =
      get-optional_field "supervisor" key input.supervisor (from_call input) apart

  from_call-get :
      (key : String)
      → str_eq "pendingToolCall" key ≡ false
      → get key (from_call input) ≡ get key (last_fields input)
  from_call-get key apart = get-call_field key input.pending_tool_call (last_fields input) apart

  key_skipped :
      (key : String)
      → str_eq "transcriptTosKey" key ≡ false
      → get key (text_field "transcriptTosKey" input.transcript_tos_key (from_summary input))
        ≡ get key (from_summary input)
  key_skipped key apart =
      get-text_field "transcriptTosKey" key input.transcript_tos_key (from_summary input) apart

  -- The members that every envelope has.
  last_get :
      (key : String)
      → str_eq "transcriptTosKey" key ≡ false
      → str_eq "contextSummary" key ≡ false
      → str_eq "supervisor" key ≡ false
      → str_eq "pendingToolCall" key ≡ false
      → get key (text_field "transcriptTosKey" input.transcript_tos_key (from_summary input))
        ≡ get key (last_fields input)
  last_get key a b c d =
      key_skipped key a ∙ from_summary-get key b ∙ from_supervisor-get key c ∙ from_call-get key d

  new_envelope-IsMadeOf : IsMadeOf input (obj (new_envelope input))
  unfolding IsMadeOf new_envelope get last_fields
  new_envelope-IsMadeOf = (
    new_envelope input,
    refl,
    refl,
    refl,
    get-text_field-own "transcriptTosKey" input.transcript_tos_key (from_summary input)
        (from_summary-get "transcriptTosKey" refl
          ∙ from_supervisor-get "transcriptTosKey" refl
          ∙ from_call-get "transcriptTosKey" refl)
        refl,
    key_skipped "contextSummary" refl
        ∙ get-text_field-own "contextSummary" input.context_summary (from_supervisor input)
            (from_supervisor-get "contextSummary" refl ∙ from_call-get "contextSummary" refl) refl,
    key_skipped "supervisor" refl
        ∙ from_summary-get "supervisor" refl
        ∙ get-optional_field-own "supervisor" input.supervisor (from_call input)
            (from_call-get "supervisor" refl) refl,
    key_skipped "pendingToolCall" refl
        ∙ from_summary-get "pendingToolCall" refl
        ∙ from_supervisor-get "pendingToolCall" refl
        ∙ get-call_field-own input.pending_tool_call (last_fields input) refl,
    last_get "commitments" refl refl refl refl
        ∙ ap some (or_else-given input.commitments empty_commitments),
    last_get "references" refl refl refl refl
        ∙ ap some (or_else-given input.references empty_references),
    last_get "contextSelection" refl refl refl refl
        ∙ ap some (or_else-given input.context_selection empty_context_selection),
  )

-- An envelope that was made holds what it was made of, and decoding what was stored of it gives the
-- same envelope.
pub decode-create_checkpoint_envelope :
    (p : Platform) (input : CheckpointInput) (e : Json)
    → create_checkpoint_envelope p input ≡ accepted e
    → (decode_checkpoint_envelope p 2 (some e) ≡ accepted e) × IsMadeOf input e
unfolding IsValidated
decode-create_checkpoint_envelope p input e h =
    let (made, valid) = create_checkpoint_envelope-IsValidated p input e h in
    (
      validated_decodes p e (new_envelope input, made, valid),
      subst (IsMadeOf input) (sym made) (new_envelope-IsMadeOf input),
    )

-- What decoding gives, of a checkpoint of either version, is decoded again as it is: an upgraded
-- checkpoint may be stored.
decode_checkpoint_envelope_stable :
    (p : Platform) (version : ℕ) (raw : Option Json) (e : Json)
    → decode_checkpoint_envelope p version raw ≡ accepted e
    → decode_checkpoint_envelope p 2 (some e) ≡ accepted e
decode_checkpoint_envelope_stable p version raw e h =
    validated_decodes p e (decode_checkpoint_envelope-IsValidated p version raw e h)
