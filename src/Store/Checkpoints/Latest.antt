-- ===== src/Store/Checkpoints/Latest.antt =====
-- The checkpoint that a run goes on from: what `latestCheckpoint` of src/store/checkpoints.ts gives
-- after `insertCheckpoint`.
use managed_agents_runtime.Prelude.{
  ℕ, ◌<◌, List, ◌∷◌, [], ◌++◌, some, ◌≡◌, refl, ap, ◌∙◌, All, Bool-cases, inl, inr, ◌==◌, ==_iff,
  arith,
}
use managed_agents_runtime.Json.{obj}
use managed_agents_runtime.Core.Checkpoints.{accepted, Platform}
use managed_agents_runtime.Core.Checkpoints.Envelope.{validate_checkpoint_envelope}
use managed_agents_runtime.Core.Checkpoints.Decoding.{IsValidated, validated_decodes}
use managed_agents_runtime.Store.Checkpoints.{
  CheckpointRow, NewCheckpoint, new_checkpoint, decode_row, insert_checkpoint, newest, newer_of,
  decode_found, latest_checkpoint,
}

-- Each checkpoint of the run in the table is of an earlier event.
abbrev pub AreEarlier : ℕ → ℕ → List CheckpointRow → Type 0
AreEarlier run_id event_seq = All (λ c. c.run_id ≡ run_id → c.event_seq < event_seq)

newer_of-later : (c s : CheckpointRow) → c.event_seq < s.event_seq → newer_of c (some s) ≡ s
newer_of-later c s earlier = ground arith

newest-appended :
    (s : CheckpointRow) (checkpoints : List CheckpointRow)
    → AreEarlier s.run_id s.event_seq checkpoints
    → newest s.run_id (checkpoints ++ s ∷ []) ≡ some s
unfolding newest
newest-appended s [] h = ground arith
newest-appended s (c ∷ rest) (earlier, others) = elim (Bool-cases (c.run_id == s.run_id)) [
  | inl same ↦ rw same (
      ap (λ best. some (newer_of c best)) (newest-appended s rest others)
      ∙ ap some (newer_of-later c s (earlier ((==_iff c.run_id s.run_id).0 same))))
  | inr apart ↦ rw apart (newest-appended s rest others)
]

decode_new :
    (p : Platform) (input : NewCheckpoint)
    → validate_checkpoint_envelope p input.agent_state ≡ accepted tt
    → decode_row p (new_checkpoint input) ≡ accepted (new_checkpoint input)
unfolding decode_row new_checkpoint IsValidated
decode_new p input valid =
    rw (validated_decodes p (obj input.agent_state) (input.agent_state, refl, valid)) refl

-- A checkpoint whose state is a valid envelope, of an event after those of the run's other
-- checkpoints, is stored and returned with that state, the other rows are kept, and it is from then on
-- what the run's latest checkpoint is decoded to.
pub latest_checkpoint-insert_checkpoint :
    (p : Platform) (input : NewCheckpoint) (checkpoints : List CheckpointRow)
    → validate_checkpoint_envelope p input.agent_state ≡ accepted tt
    → AreEarlier input.run_id input.event_seq checkpoints
    → (after : List CheckpointRow) × (insert_checkpoint p input checkpoints
        ≡ accepted (new_checkpoint input, after))
      × (after ≡ checkpoints ++ new_checkpoint input ∷ [])
      × (latest_checkpoint p input.run_id after ≡ accepted (some (new_checkpoint input)))
      × ((new_checkpoint input).agent_state ≡ obj input.agent_state)
unfolding insert_checkpoint latest_checkpoint decode_found
latest_checkpoint-insert_checkpoint p input checkpoints valid earlier = (
  checkpoints ++ new_checkpoint input ∷ [],
  rw valid (rw (decode_new p input valid) refl),
  refl,
  rw (newest-appended (new_checkpoint input) checkpoints earlier)
      (rw (decode_new p input valid) refl),
  refl,
)
