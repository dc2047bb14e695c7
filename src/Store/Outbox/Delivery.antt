-- ===== src/Store/Outbox/Delivery.antt =====
-- What a drain of src/store/outbox.ts delivers.
use mathlib.Core.Path.{subst}
use managed_agents_runtime.Prelude.{
  ℕ, zero, suc, ◌≡◌, ◌≤◌, ◌⊎◌, inl, inr, refl, ap, ◌∙◌, Bool, true, false, Option, none, Some,
  All-map, sym, if◌then◌else◌, List, ◌∷◌, [], some, arith, ◌==◌, leb, length, filter, any, All,
  update_where, Bool-cases,
}
use managed_agents_runtime.Store.Rows.{OutboxRow}
use managed_agents_runtime.Store.Database.{
  Db, Result, ok, err, Error, with_transaction, with_transaction-ok, with_transaction-err,
}
use managed_agents_runtime.Store.Outbox.{
  is_waiting, is_published, insert_by_id, sort_by_id, take, batch, mark_published, drain_rows,
  drain_outbox,
}

module _ (P : OutboxRow → Type 0) where
  All-insert : (r : OutboxRow) (xs : List OutboxRow) → P r → All P xs → All P (insert_by_id r xs)
  All-insert r [] p ps = (p, tt)
  All-insert r (x ∷ xs) p (q, ps) = elim (Bool-cases (leb r.id x.id)) [
    | inl first ↦ rw first (p, (q, ps))
    | inr later ↦ rw later (q, All-insert r xs p ps)
  ]

  All-sort : (xs : List OutboxRow) → All P xs → All P (sort_by_id xs)
  unfolding sort_by_id
  All-sort [] ps = tt
  All-sort (x ∷ xs) (p, ps) = All-insert x (sort_by_id xs) p (All-sort xs ps)

  All-take : (n : ℕ) (xs : List OutboxRow) → All P xs → All P (take n xs)
  All-take zero xs ps = tt
  All-take (suc n) [] ps = tt
  All-take (suc n) (x ∷ xs) (p, ps) = (p, All-take n xs ps)

length-take : (n : ℕ) (xs : List OutboxRow) → length (take n xs) ≤ n
length-take zero xs = omega arith
length-take (suc n) [] = omega arith
length-take (suc n) (x ∷ xs) = omega (arith, length-take n xs)

filter-passes : (p : OutboxRow → Bool) (xs : List OutboxRow) → All (λ r. p r ≡ true) (filter p xs)
filter-passes p [] = tt
filter-passes p (x ∷ xs) = elim (Bool-cases (p x)) [
  | inl passes ↦ rw passes (passes, filter-passes p xs)
  | inr fails ↦ rw fails (filter-passes p xs)
]

filter-Some :
    (p : OutboxRow → Bool) (xs : List OutboxRow) → All (λ r. Some (λ s. s ≡ r) xs) (filter p xs)
filter-Some p [] = tt
filter-Some p (x ∷ xs) =
    let later = All-map (λ r there. inr there) (filter p xs) (filter-Some p xs) in
    elim (Bool-cases (p x)) [
      | inl passes ↦
          let e : filter p (x ∷ xs) ≡ x ∷ filter p xs = rw passes in
          subst (λ l. All (λ r. Some (λ s. s ≡ r) (x ∷ xs)) l) (sym e) (inl refl, later)
      | inr fails ↦
          let e : filter p (x ∷ xs) ≡ filter p xs = rw fails in
          subst (λ l. All (λ r. Some (λ s. s ≡ r) (x ∷ xs)) l) (sym e) later
    ]

is_waiting-parts :
    (free : ℕ → Bool) (r : OutboxRow)
    → is_waiting free r ≡ true
    → (r.published_at ≡ none) × (free r.id ≡ true)
is_waiting-parts free r h = (unpublished r.published_at (ground arith), ground arith)
  where
    unpublished : (at : Option ℕ) → is_published at ≡ false → at ≡ none
    unpublished none e = refl
    unpublished (some t) e = cc

-- The rows that a drain hands to the publisher are rows of the table, are not published, are locked by
-- no other drain, and are at most as many as the limit.
batch_lem :
    (free : ℕ → Bool) (limit : ℕ) (db : Db)
    → All (λ r. is_waiting free r ≡ true) (batch free limit db)
      × All (λ r. Some (λ s. s ≡ r) db.outbox) (batch free limit db)
      × (length (batch free limit db) ≤ limit)
unfolding batch
batch_lem free limit db = (
  All-take _ limit _ (All-sort _ _ (filter-passes (is_waiting free) db.outbox)),
  All-take _ limit _ (All-sort _ _ (filter-Some (is_waiting free) db.outbox)),
  length-take limit _,
)

abbrev pub is_in : List OutboxRow → OutboxRow → Bool
is_in rows r = any (λ s. s.id == r.id) rows

-- The table with exactly the rows of the batch published, at the given time.
abbrev pub delivered : List OutboxRow → ℕ → List OutboxRow → List OutboxRow
delivered rows now [] = []
delivered rows now (x ∷ xs) =
    (if is_in rows x then record x { published_at = some now } else x) ∷ delivered rows now xs

update_where-delivered :
    (rows : List OutboxRow) (now : ℕ) (xs : List OutboxRow)
    → update_where (is_in rows) (λ r. record r { published_at = some now }) xs
      ≡ delivered rows now xs
update_where-delivered rows now [] = refl
update_where-delivered rows now (x ∷ xs) =
    ap (λ l. (if is_in rows x then record x { published_at = some now } else x) ∷ l)
      (update_where-delivered rows now xs)

nothing_delivered : (now : ℕ) (xs : List OutboxRow) → xs ≡ delivered [] now xs
nothing_delivered now [] = refl
nothing_delivered now (x ∷ xs) = ap (λ l. x ∷ l) (nothing_delivered now xs)

drain_rows_lem :
    (publish : List OutboxRow → Result (Unit {0})) (rows : List OutboxRow) (db : Db) (n : ℕ)
    (db' : Db)
    → drain_rows publish rows db ≡ ok (n, db')
    → (n ≡ length rows)
      × ((rows ≡ []) ⊎ (publish rows ≡ ok tt))
      × (db' ≡ record db { outbox = delivered rows db.now db.outbox })
unfolding drain_rows mark_published
drain_rows_lem publish [] db n db' h =
    let e : db' ≡ db = ground arith in
    (
      ground arith,
      inl refl,
      e ∙ ap (λ o. record db { outbox = o }) (nothing_delivered db.now db.outbox),
    )
drain_rows_lem publish (r ∷ rest) db n db' h =
    let accepted : publish (r ∷ rest) ≡ ok tt = ground arith in
    let e : db' ≡ mark_published (r ∷ rest) db = ground arith in
    (
      ground arith,
      inr accepted,
      e ∙ ap (λ o. record db { outbox = o }) (update_where-delivered (r ∷ rest) db.now db.outbox),
    )

with_transaction_outcomes :
    {A : Type 0} (fn : Db → Result (A × Db)) (db : Db)
    → ((a : A) × (db' : Db) × (fn db ≡ ok (a, db')) × (with_transaction fn db ≡ (ok a, db')))
      ⊎ ((e : Error) × (fn db ≡ err e) × (with_transaction fn db ≡ (err e, db)))
with_transaction_outcomes {A} fn db = go (fn db) refl
  where
    go :
        (r : Result (A × Db))
        → fn db ≡ r
        → ((a : A) × (db' : Db) × (fn db ≡ ok (a, db')) × (with_transaction fn db ≡ (ok a, db')))
          ⊎ ((e : Error) × (fn db ≡ err e) × (with_transaction fn db ≡ (err e, db)))
    go (ok (a, db')) h = inl (a, db', h, with_transaction-ok fn db a db' h)
    go (err e) h = inr (e, h, with_transaction-err fn db e h)

-- A drain publishes a batch and marks it, or does nothing: the batch holds rows of the table that were
-- not published and that no other transaction had locked, within the limit; if the drain returns, it
-- returns their number, the publisher took them (or there were none), and exactly they are published
-- now, nothing else being changed; if it throws, every table is as before.
pub drain_outbox_outcomes :
    (free : ℕ → Bool) (publish : List OutboxRow → Result (Unit {0})) (limit : ℕ) (db : Db)
    → let rows = batch free limit db in
      let (result, db') = drain_outbox free publish limit db in
      All (λ r. (r.published_at ≡ none) × (free r.id ≡ true)) rows
      × All (λ r. Some (λ s. s ≡ r) db.outbox) rows
      × (length rows ≤ limit)
      × (((result ≡ ok (length rows))
            × ((rows ≡ []) ⊎ (publish rows ≡ ok tt))
            × (db' ≡ record db { outbox = delivered rows db.now db.outbox }))
          ⊎ ((e : Error) × (result ≡ err e) × (db' ≡ db)))
unfolding drain_outbox
drain_outbox_outcomes free publish limit db =
    let (waiting, there, few) = batch_lem free limit db in
    (
      All-map (λ r. is_waiting-parts free r) _ waiting,
      there,
      few,
      elim (with_transaction_outcomes (λ d. drain_rows publish (batch free limit d) d) db) [
        | inl (n, db', done, e) ↦
            let (count, taken, left) = drain_rows_lem publish (batch free limit db) db n db' done in
            inl (ap (λ p. p.0) e ∙ ap ok count, taken, ap (λ p. p.1) e ∙ left)
        | inr (x, _, e) ↦ inr (x, ap (λ p. p.0) e, ap (λ p. p.1) e)
      ],
    )
