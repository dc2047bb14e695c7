-- ===== src/Harness/Admission/Queue.antt =====
-- `acquireFenceAdmission` of src/harness/governedAction.ts as what it promises: callers stand in one
-- line in the order of their arrival, and the first of the line, up to the limit, hold permits.
use managed_agents_runtime.Prelude.{
  ℕ, zero, suc, ◌+◌, ◌≤◌, ◌≡◌, ◌⊎◌, inl, inr, refl, sym, ap, ◌∙◌, true, false, List, ◌∷◌, [], ◌++◌,
  Option, arith, if◌then◌else◌, leb, Bool-cases, length, length-append,
}
use mathlib.Core.Path.{subst}
use mathlib.Core.List.{append_assoc, append-nil}
use managed_agents_runtime.Harness.Admission.{
  PoolAdmission, first_admission, acquire_fence_admission, includes, remove, pass_on, release,
  Event, acquires, releases, on_event, admission_after,
}

abbrev pub take : ℕ → List ℕ → List ℕ
take zero xs = []
take (suc n) [] = []
take (suc n) (x ∷ xs) = x ∷ take n xs

abbrev pub drop : ℕ → List ℕ → List ℕ
drop zero xs = xs
drop (suc n) [] = []
drop (suc n) (x ∷ xs) = drop n xs

-- The line: who comes goes to its end, and who leaves must be among the first `limit`.
abbrev pub line_after : ℕ → List Event → List ℕ
line_after limit [] = []
line_after limit (acquires caller ∷ before) = line_after limit before ++ caller ∷ []
line_after limit (releases caller ∷ before) =
    let line = line_after limit before in
    if includes caller (take limit line) then remove caller line else line

-- How an admission stands for a line.
pub record Implements (admission : PoolAdmission) (line : List ℕ) : Type 0 where
  pub parts : line ≡ admission.holding ++ admission.waiters
  pub counted : admission.active ≡ length admission.holding
  pub bounded : admission.active ≤ admission.limit
  pub busy : (admission.waiters ≡ []) ⊎ (admission.active ≡ admission.limit)

take_front :
    (n : ℕ) (xs ys : List ℕ)
    → length xs ≤ n
    → (ys ≡ []) ⊎ (length xs ≡ n)
    → (take n (xs ++ ys) ≡ xs) × (drop n (xs ++ ys) ≡ ys)
take_front zero [] [] fits full = (refl, refl)
take_front zero [] (y ∷ ys) fits full = (refl, refl)
take_front zero (x ∷ xs) ys fits full = absurd (omega arith)
take_front (suc n) [] [] fits full = (refl, refl)
take_front (suc n) [] (y ∷ ys) fits (inl e) = absurd (cc)
take_front (suc n) [] (y ∷ ys) fits (inr e) = absurd (omega arith)
take_front (suc n) (x ∷ xs) ys fits full =
    let (front, back) = take_front n xs ys (omega arith) (shorter full) in
    (ap (λ t. x ∷ t) front, back)
  where
    shorter : (ys ≡ []) ⊎ (suc (length xs) ≡ suc n) → (ys ≡ []) ⊎ (length xs ≡ n)
    shorter (inl e) = inl e
    shorter (inr e) = inr (omega arith)

remove-append :
    (caller : ℕ) (xs ys : List ℕ)
    → includes caller xs ≡ true
    → remove caller (xs ++ ys) ≡ remove caller xs ++ ys
remove-append caller [] ys h = absurd (cc)
remove-append caller (x ∷ xs) ys h = ground (arith, remove-append caller xs ys)

length-remove :
    (caller : ℕ) (xs : List ℕ)
    → includes caller xs ≡ true
    → length (remove caller xs) + 1 ≡ length xs
length-remove caller [] h = absurd (cc)
length-remove caller (x ∷ xs) h = ground (arith, length-remove caller xs)

idle :
    (a : PoolAdmission) (line : List ℕ)
    → Implements a line
    → leb a.limit a.active ≡ false
    → a.waiters ≡ []
idle a line r room = elim r.busy [ inl e ↦ e | inr full ↦ absurd (ground arith) ]

acquire-Implements :
    (caller : ℕ) (a : PoolAdmission) (line : List ℕ)
    → Implements a line
    → Implements (acquire_fence_admission caller a) (line ++ caller ∷ [])
unfolding acquire_fence_admission
acquire-Implements caller a line r = elim (Bool-cases (leb a.limit a.active)) [
  | inl full ↦ rw full (record {
    parts = rw (r.parts) (append_assoc a.holding a.waiters (caller ∷ []));
    counted = r.counted;
    bounded = r.bounded;
    busy = inr (let b = r.bounded in ground arith);
  })
  | inr room ↦
      let none_waits = idle a line r room in
      let held : line ≡ a.holding =
        r.parts ∙ ap (λ ws. a.holding ++ ws) none_waits ∙ append-nil a.holding in
      rw room (record {
        parts =
            ap (λ l. l ++ caller ∷ []) held
            ∙ sym (append-nil (a.holding ++ caller ∷ []))
            ∙ ap (λ ws. (a.holding ++ caller ∷ []) ++ ws) (sym none_waits);
        counted = let c = r.counted in omega (arith, length-append a.holding (caller ∷ []));
        bounded = let b = r.bounded in ground arith;
        busy = inl none_waits;
      })
]

pass_on-Implements :
    (caller : ℕ) (a : PoolAdmission) (line ws : List ℕ)
    → a.waiters ≡ ws
    → includes caller a.holding ≡ true
    → Implements a line
    → Implements (pass_on ws (record a { holding = remove caller a.holding })) (remove caller line)
unfolding pass_on
pass_on-Implements caller a line [] e holds r = record {
  parts = ap (remove caller) r.parts ∙ remove-append caller a.holding a.waiters holds;
  counted = let c = r.counted in omega (arith, length-remove caller a.holding holds);
  bounded = let b = r.bounded in omega arith;
  busy = inl e;
}
pass_on-Implements caller a line (w ∷ ws) e holds r = record {
  parts =
      ap (remove caller) r.parts
      ∙ remove-append caller a.holding a.waiters holds
      ∙ ap (λ v. remove caller a.holding ++ v) e
      ∙ sym (append_assoc (remove caller a.holding) (w ∷ []) ws);
  counted =
      let c = r.counted in
      omega (
        arith,
        length-remove caller a.holding holds,
        length-append (remove caller a.holding) (w ∷ []),
      );
  bounded = r.bounded;
  busy = inr (elim r.busy [ inl nobody ↦ absurd (cc) | inr full ↦ full ]);
}

-- The admission's permits are those of the first of the line.
held_first :
    (a : PoolAdmission) (line : List ℕ)
    → Implements a line
    → (a.holding ≡ take a.limit line) × (a.waiters ≡ drop a.limit line)
held_first a line r =
    let c = r.counted in
    let b = r.bounded in
    let full : (a.waiters ≡ []) ⊎ (length a.holding ≡ a.limit) = elim r.busy [
      | inl e ↦ inl e
      | inr e ↦ inr (omega arith)
    ] in
    let (front, back) = take_front a.limit a.holding a.waiters (omega arith) full in
    (sym (ap (take a.limit) r.parts ∙ front), sym (ap (drop a.limit) r.parts ∙ back))

release-Implements :
    (caller : ℕ) (a : PoolAdmission) (line : List ℕ)
    → Implements a line
    → Implements
        (release caller a)
        (if includes caller (take a.limit line) then remove caller line else line)
unfolding release
release-Implements caller a line r =
    rw⁻¹ ((held_first a line r).0) (elim (Bool-cases (includes caller a.holding)) [
      | inl holds ↦ rw holds (pass_on-Implements caller a line a.waiters refl holds r)
      | inr gone ↦ rw gone r
    ])

on_event-limit : (e : Event) (a : PoolAdmission) → (on_event e a).limit ≡ a.limit
unfolding on_event acquire_fence_admission release pass_on
on_event-limit (acquires caller) a = ground arith
on_event-limit (releases caller) a = passed a.waiters
  where
    passed :
        (ws : List ℕ)
        → (if includes caller a.holding
            then pass_on ws (record a { holding = remove caller a.holding })
            else a).limit
          ≡ a.limit
    passed [] = ground arith
    passed (w ∷ ws) = ground arith

-- The number of permits of a pool.
abbrev pub limit_of : Option ℕ → ℕ
limit_of max_option = (first_admission max_option).limit

limit_kept :
    (max_option : Option ℕ) (events : List Event)
    → (admission_after max_option events).limit ≡ limit_of max_option
unfolding admission_after
limit_kept max_option [] = refl
limit_kept max_option (e ∷ before) =
    on_event-limit e (admission_after max_option before) ∙ limit_kept max_option before

stands :
    (max_option : Option ℕ) (events : List Event)
    → Implements (admission_after max_option events) (line_after (limit_of max_option) events)
unfolding admission_after first_admission on_event
stands max_option [] = record {
  parts = refl;
  counted = refl;
  bounded = omega arith;
  busy = inl refl;
}
stands max_option (acquires caller ∷ before) =
    acquire-Implements caller _ _ (stands max_option before)
stands max_option (releases caller ∷ before) =
    subst
      (λ limit. Implements (release caller (admission_after max_option before)) (
        let line = line_after (limit_of max_option) before in
        if includes caller (take limit line) then remove caller line else line))
      (limit_kept max_option before) (release-Implements caller _ _ (stands max_option before))

-- After any sequence of arrivals and releases the admission of a pool stands for the line of its
-- callers: the callers that hold permits are the first of the line up to the limit, in order, the
-- others wait in order, and `active` is the number of permits held, which the limit bounds.
pub admission_after-refines_line :
    (max_option : Option ℕ) (events : List Event)
    → ((admission_after max_option events).holding
        ≡ take (limit_of max_option) (line_after (limit_of max_option) events))
      × ((admission_after max_option events).waiters
          ≡ drop (limit_of max_option) (line_after (limit_of max_option) events))
      × ((admission_after max_option events).active
          ≡ length (admission_after max_option events).holding)
      × ((admission_after max_option events).active ≤ limit_of max_option)
admission_after-refines_line max_option events =
    let r = stands max_option events in
    let (front, back) = held_first _ _ r in
    let same = limit_kept max_option events in
    let b = r.bounded in
    (
      front ∙ ap (λ n. take n (line_after (limit_of max_option) events)) same,
      back ∙ ap (λ n. drop n (line_after (limit_of max_option) events)) same,
      r.counted,
      omega arith,
    )
