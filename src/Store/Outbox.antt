-- ===== src/Store/Outbox.antt =====
-- src/store/outbox.ts: the relay of the outbox.
pub mod Delivery
use managed_agents_runtime.Prelude.{
  ℕ, zero, suc, ◌+◌, Bool, true, false, ◌&&◌, List, ◌∷◌, [], Option, none, some, if◌then◌else◌, leb,
  ◌==◌, length, filter, any, update_where,
}
use managed_agents_runtime.Store.Rows.{OutboxRow}
use managed_agents_runtime.Store.Database.{
  Db, Tx, Result, ok, err, Error, ◌>>=◌, ◌>>◌, gets, modify, pure, with_transaction,
}

abbrev pub is_published : Option ℕ → Bool
is_published none = false
is_published (some _) = true

abbrev pub insert_by_id : OutboxRow → List OutboxRow → List OutboxRow
insert_by_id r [] = r ∷ []
insert_by_id r (s ∷ rest) =
    let later = insert_by_id r rest in if leb r.id s.id then r ∷ s ∷ rest else s ∷ later

unfoldable pub sort_by_id : List OutboxRow → List OutboxRow
sort_by_id [] = []
sort_by_id (r ∷ rest) = insert_by_id r (sort_by_id rest)

-- `LIMIT`.
abbrev pub take : ℕ → List OutboxRow → List OutboxRow
take zero rows = []
take (suc n) [] = []
take (suc n) (r ∷ rest) = r ∷ take n rest

-- The WHERE clause with `SKIP LOCKED`: `free` says which rows no other transaction has locked.
abbrev pub is_waiting : (ℕ → Bool) → OutboxRow → Bool
is_waiting free r = managed_agents_runtime.Prelude.not (is_published r.published_at) && free r.id

unfoldable pub batch : (ℕ → Bool) → ℕ → Db → List OutboxRow
unfolding sort_by_id
batch free limit db = take limit (sort_by_id (filter (is_waiting free) db.outbox))

-- `UPDATE outbox SET published_at = now() WHERE id = ANY($1)`.
unfoldable pub mark_published : List OutboxRow → Db → Db
mark_published rows db = record db {
  outbox =
      update_where (λ r. any (λ s. s.id == r.id) rows)
        (λ r. record r { published_at = some db.now }) db.outbox;
}

-- `publish` is the publisher, which returns or throws.
unfoldable pub drain_rows : (List OutboxRow → Result (Unit {0})) → List OutboxRow → Tx ℕ
unfolding mark_published
drain_rows publish [] db = ok (0, db)
drain_rows publish (r ∷ rest) db = elim (publish (r ∷ rest)) [
  | ok _ ↦ ok (length (r ∷ rest), mark_published (r ∷ rest) db)
  | err e ↦ err e
]

unfoldable pub drain_outbox :
    (ℕ → Bool) → (List OutboxRow → Result (Unit {0})) → ℕ → Db → Result ℕ × Db
unfolding drain_rows with_transaction batch
drain_outbox free publish limit =
    with_transaction (λ db. drain_rows publish (batch free limit db) db)
