-- ===== src/Harness/Governed/Effects.antt =====
-- How to reason about the effects of src/harness/governedAction.ts: what a statement leaves of the
-- calls, and what holds where it goes on.
use managed_agents_runtime.Prelude.{
  ◌≡◌, ◌⊎◌, inl, inr, refl, sym, ap, ◌∙◌, Bool, true, false, ◌∷◌, if◌then◌else◌, arith,
}
use mathlib.Core.Path.{subst}
use managed_agents_runtime.Store.Database.{
  Db, Error, Result, ok, err, Tx, with_transaction, with_transaction-ok, with_transaction-err,
}
use managed_agents_runtime.Harness.Governed.{
  GovernedResult, completed, Call, World, Outcome, next, exit, thrown, Fx, done, return, throw,
  continue, ◌>>=◌, arrive, try_tx, in_tx, rethrow, query, look,
}

-- A result that is returned early is no fresh completion.
abbrev pub IsEarly : GovernedResult → Type 0
IsEarly (completed value deduplicated) = deduplicated ≡ true
IsEarly _ = Unit

-- What is true of the value and the world with which a statement goes on, or of its early return.
abbrev pub Goes : {A : Type 0} → (A → World → Type 0) → Outcome A × World → Type 0
Goes Q (next a, w) = Q a w
Goes Q (exit r, w) = IsEarly r
Goes Q (thrown e, w) = Unit

abbrev pub QuietAt : {A : Type 0} → (A → World → Type 0) → World → Outcome A × World → Type 0
QuietAt Q before o = (o.1.calls ≡ before.calls) × Goes Q o

-- A statement that makes no call, and where it goes on leaves `Q`.
abbrev pub IsQuiet : {A : Type 0} → Fx A → (A → World → Type 0) → Type 0
IsQuiet m Q = (w : World) → QuietAt Q w (m w)

abbrev pub Anything : {A : Type 0} → A → World → Type 0
Anything a w = Unit

continue-Goes :
    {A B : Type 0} (Q : A → World → Type 0) (R : B → World → Type 0) (f : A → Fx B) (before : World)
    (o : Outcome A × World)
    → o.1.calls ≡ before.calls
    → Goes Q o
    → ((a : A) (w : World) → Q a w → QuietAt R w (f a w))
    → QuietAt R before (continue f o)
continue-Goes Q R f before (next a, w) same q k = let (same', r) = k a w q in (same' ∙ same, r)
continue-Goes Q R f before (exit r, w) same q k = (same, q)
continue-Goes Q R f before (thrown e, w) same q k = (same, tt)

-- What follows may use what the first statement left.
pub >>=-IsQuiet :
    {A B : Type 0} (Q : A → World → Type 0) (R : B → World → Type 0) (m : Fx A) (f : A → Fx B)
    → IsQuiet m Q
    → ((a : A) (w : World) → Q a w → QuietAt R w (f a w))
    → IsQuiet (m >>= f) R
unfolding ◌>>=◌
>>=-IsQuiet Q R m f hm hf w = let (same, q) = hm w in continue-Goes Q R f w (m w) same q hf

module _ {A : Type 0} where
  pub done-IsQuiet : (Q : A → World → Type 0) (a : A) → ((w : World) → Q a w) → IsQuiet (done a) Q
  unfolding done
  done-IsQuiet Q a q w = (refl, q w)

  pub return-IsQuiet :
      (Q : A → World → Type 0) (r : GovernedResult) → IsEarly r → IsQuiet (return {A = A} r) Q
  unfolding return
  return-IsQuiet Q r early w = (refl, early)

  pub throw-IsQuiet : (Q : A → World → Type 0) (e : Error) → IsQuiet (throw {A = A} e) Q
  unfolding throw
  throw-IsQuiet Q e w = (refl, tt)

  pub look-IsQuiet :
      (Q : A → World → Type 0) (f : World → A) → ((w : World) → Q (f w) w) → IsQuiet (look f) Q
  unfolding look
  look-IsQuiet Q f q w = (refl, q w)

  pub if-IsQuiet :
      (Q : A → World → Type 0) (b : Bool) (m n : Fx A)
      → IsQuiet m Q
      → IsQuiet n Q
      → IsQuiet (if b then m else n) Q
  if-IsQuiet Q true m n hm hn = hm
  if-IsQuiet Q false m n hm hn = hn

pub arrive-calls : (w : World) → (arrive w).calls ≡ w.calls
unfolding arrive
arrive-calls w = ground arith

module _ {A : Type 0} (fn : Tx A) where
  abbrev Commits : (A → World → Type 0) → Type 0
  Commits Q = (db : Db) (a : A) (w : World) → fn db ≡ ok (a, w.db) → Q a w

  -- How a transaction ends: with its value in its database, or with its error in the old one.
  abbrev pub Ended : Db → (r : Result A) → World → Type 0
  Ended db (ok a) w = fn db ≡ ok (a, w.db)
  Ended db (err e) w = (fn db ≡ err e) × (w.db ≡ db)

  with_transaction-Ended :
      (db : Db) (w : World) (x : Result (A × Db))
      → fn db ≡ x
      → Ended db (with_transaction fn db).0 (record w { db = (with_transaction fn db).1 })
  with_transaction-Ended db w (ok (a, db')) e =
      subst (λ o. Ended db o.0 (record w { db = o.1 })) (sym (with_transaction-ok fn db a db' e)) e
  with_transaction-Ended db w (err x) e =
      subst (λ o. Ended db o.0 (record w { db = o.1 })) (sym (with_transaction-err fn db x e))
        (e, refl)

  pub try_tx-IsQuiet :
      (Q : Result A → World → Type 0)
      → ((db : Db) (r : Result A) (w : World) → Ended db r w → Q r w)
      → IsQuiet (try_tx fn) Q
  unfolding try_tx
  try_tx-IsQuiet Q q w =
      (arrive-calls w, q (arrive w).db _ _ (with_transaction-Ended (arrive w).db (arrive w) _ refl))

  pub in_tx-IsQuiet : (Q : A → World → Type 0) → Commits Q → IsQuiet (in_tx fn) Q
  unfolding in_tx done throw
  in_tx-IsQuiet Q q =
      >>=-IsQuiet (λ r w. (db : Db) × Ended db r w) Q (try_tx fn) rethrow
        (try_tx-IsQuiet _ (λ db r w e. (db, e))) (λ r w. after r w)
    where
      after : (r : Result A) (w : World) → (db : Db) × Ended db r w → QuietAt Q w (rethrow r w)
      after (ok a) w (db, e) = (refl, q db a w e)
      after (err x) w _ = throw-IsQuiet Q x w

pub query-IsQuiet :
    {A : Type 0} (Q : A → World → Type 0) (f : Db → A)
    → ((w : World) → Q (f w.db) w)
    → IsQuiet (query f) Q
unfolding query
query-IsQuiet Q f q w = (arrive-calls w, q (arrive w))

Goes-weaken :
    {A : Type 0} (P Q : A → World → Type 0) (o : Outcome A × World)
    → ((a : A) (w : World) → P a w → Q a w)
    → Goes P o
    → Goes Q o
Goes-weaken P Q (next a, w) f p = f a w p
Goes-weaken P Q (exit r, w) f p = p
Goes-weaken P Q (thrown e, w) f p = tt

pub IsQuiet_weaken :
    {A : Type 0} (P Q : A → World → Type 0) (m : Fx A)
    → ((a : A) (w : World) → P a w → Q a w)
    → IsQuiet m P
    → IsQuiet m Q
IsQuiet_weaken P Q m f hm w = let (same, p) = hm w in (same, Goes-weaken P Q (m w) f p)

-- A statement that ends without a call, or that makes one of which, and of its end, `P` holds.
abbrev pub OnceAt :
    {A : Type 0} → (Call → Outcome A × World → Type 0) → World → Outcome A × World → Type 0
OnceAt P before o =
    QuietAt (λ _ _. ⊥) before o ⊎ ((c : Call) × (o.1.calls ≡ c ∷ before.calls) × P c o)

once_on :
    {A B : Type 0} (Q : A → World → Type 0) (P : Call → Outcome B × World → Type 0) (f : A → Fx B)
    (before : World) (o : Outcome A × World)
    → QuietAt Q before o
    → ((a : A) (w : World) → Q a w → OnceAt P w (f a w))
    → OnceAt P before (continue f o)
once_on Q P f before (next a, w) (same, q) k = elim (k a w q) [
  | inl (quiet, ended) ↦ inl (quiet ∙ same, ended)
  | inr (c, called, p) ↦ inr (c, called ∙ ap (λ calls. c ∷ calls) same, p)
]
once_on Q P f before (exit r, w) (same, q) k = inl (same, q)
once_on Q P f before (thrown e, w) (same, q) k = inl (same, tt)

-- A quiet statement leaves what follows it its one call.
pub >>=-OnceAt :
    {A B : Type 0} (Q : A → World → Type 0) (P : Call → Outcome B × World → Type 0) (m : Fx A)
    (f : A → Fx B)
    → IsQuiet m Q
    → ((a : A) (w : World) → Q a w → OnceAt P w (f a w))
    → (w : World) → OnceAt P w ((m >>= f) w)
unfolding ◌>>=◌
>>=-OnceAt Q P m f hm hf w = once_on Q P f w (m w) (hm w) hf
