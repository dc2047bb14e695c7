-- ===== src/Store/Checkpoints.antt =====
-- src/store/checkpoints.ts: the table `checkpoints`, a list of rows in the order of insertion. The
-- columns of JSON give back the value that was stored. The id and the time of a row are given with it.
pub mod Latest
use managed_agents_runtime.Prelude.{
  ℕ, ◌+◌, Bool, List, ◌∷◌, [], ◌++◌, Option, none, some, if◌then◌else◌, ltb, ◌==◌, ◌||◌, ◌&&◌,
}
use managed_agents_runtime.Json.{Json, obj, Fields}
use managed_agents_runtime.Core.Checkpoints.{Checked, accepted, ◌>>=◌, ◌>>◌, Platform}
use managed_agents_runtime.Core.Checkpoints.Envelope.{
  checkpoint_schema_version, validate_checkpoint_envelope, decode_checkpoint_envelope,
}

pub record CheckpointRow : Type 0 where
  pub id : ℕ
  pub run_id : ℕ
  pub attempt_id : ℕ
  pub event_seq : ℕ
  pub workspace_revision_id : Option ℕ
  pub progress : Json
  pub agent_state : Json
  pub schema_version : ℕ
  pub created_at : ℕ

pub record NewCheckpoint : Type 0 where
  pub id : ℕ
  pub run_id : ℕ
  pub attempt_id : ℕ
  pub event_seq : ℕ
  pub workspace_revision_id : Option ℕ
  pub progress : Json
  pub agent_state : Fields
  pub now : ℕ

unfoldable pub new_checkpoint : NewCheckpoint → CheckpointRow
new_checkpoint input = record {
  id = input.id;
  run_id = input.run_id;
  attempt_id = input.attempt_id;
  event_seq = input.event_seq;
  workspace_revision_id = input.workspace_revision_id;
  progress = input.progress;
  agent_state = obj input.agent_state;
  schema_version = checkpoint_schema_version;
  created_at = input.now;
}

-- `row.agent_state = decodeCheckpointEnvelope(row.schema_version, row.agent_state)`.
unfoldable pub decode_row : Platform → CheckpointRow → Checked CheckpointRow
decode_row p c = do
  state ← decode_checkpoint_envelope p c.schema_version (some c.agent_state)
  accepted (record c { agent_state = state })

-- The row that is returned, and the table after it.
unfoldable pub insert_checkpoint :
    Platform → NewCheckpoint → List CheckpointRow → Checked (CheckpointRow × List CheckpointRow)
unfolding new_checkpoint decode_row
insert_checkpoint p input checkpoints = do
  validate_checkpoint_envelope p input.agent_state
  returned ← decode_row p (new_checkpoint input)
  accepted (returned, checkpoints ++ new_checkpoint input ∷ [])

-- `event_seq DESC, created_at DESC`.
abbrev pub comes_after : CheckpointRow → CheckpointRow → Bool
comes_after c d =
    ltb d.event_seq c.event_seq || ((c.event_seq == d.event_seq) && ltb d.created_at c.created_at)

abbrev pub newer_of : CheckpointRow → Option CheckpointRow → CheckpointRow
newer_of c none = c
newer_of c (some best) = if comes_after best c then best else c

-- The row of `ORDER BY … LIMIT 1`; of rows that are equal in both columns, the first of the table.
unfoldable pub newest : ℕ → List CheckpointRow → Option CheckpointRow
newest run_id [] = none
newest run_id (c ∷ rest) =
    let best = newest run_id rest in if c.run_id == run_id then some (newer_of c best) else best

unfoldable pub decode_found : Platform → Option CheckpointRow → Checked (Option CheckpointRow)
unfolding decode_row
decode_found p none = accepted none
decode_found p (some c) = do decoded ← decode_row p c; accepted (some decoded)

unfoldable pub latest_checkpoint :
    Platform → ℕ → List CheckpointRow → Checked (Option CheckpointRow)
unfolding decode_found newest
latest_checkpoint p run_id checkpoints = decode_found p (newest run_id checkpoints)
