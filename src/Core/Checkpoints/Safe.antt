-- ===== src/Core/Checkpoints/Safe.antt =====
-- What `validateCheckpointEnvelope` and `assertSafeCheckpointValue` of src/core/checkpoints.ts keep out
-- of a checkpoint.
use mathlib.Core.Path.{subst}
use managed_agents_runtime.Prelude.{
  ℕ, ◌≤◌, String, Bool, false, not, ◌||◌, List, ◌∷◌, [], ◌++◌, Option, none, some, ◌≡◌, refl, sym,
  All, any, ltb, leb, Bool-cases, arith, inl, inr,
}
use managed_agents_runtime.Json.{
  Json, null, bool, num, str, arr, obj, Items, nil, cons, Fields, end, field,
}
use managed_agents_runtime.Core.Checkpoints.{
  Checked, accepted, ◌>>=◌, ◌>>◌, reject_if, Platform, Url, assert_safe_checkpoint_value,
  assert_safe_items, assert_safe_fields, check_text, check_urls, check_url,
  looks_like_credential_value, is_credential_query_parameter, is_secret_key, urls_of,
  without_punctuation, get, record_of, non_negative_integer, max_safe_integer, has_text,
  credential_value, credential_url, signed_url, secret_field, invalid,
}
use managed_agents_runtime.Core.Checkpoints.Envelope.{
  validate_checkpoint_envelope, decode_checkpoint_envelope, validate_selection, validate_head,
  is_text, validate_commitments, validate_references,
}
use managed_agents_runtime.Core.Checkpoints.Decoding.{
  bind-accepted, reject_if-accepted, IsValidated, decode_checkpoint_envelope-IsValidated,
}

-- The texts and the keys that stand anywhere in a value.
unfoldable mutual
  pub texts_in : Json → List String
  texts_in (str text) = text ∷ []
  texts_in (arr entries) = texts_in_items entries
  texts_in (obj entries) = texts_in_fields entries
  texts_in _ = []

  pub texts_in_items : Items → List String
  texts_in_items nil = []
  texts_in_items (cons entry rest) = texts_in entry ++ texts_in_items rest

  pub texts_in_fields : Fields → List String
  texts_in_fields end = []
  texts_in_fields (field key entry rest) = texts_in entry ++ texts_in_fields rest

unfoldable mutual
  pub keys_in : Json → List String
  keys_in (arr entries) = keys_in_items entries
  keys_in (obj entries) = keys_in_fields entries
  keys_in _ = []

  pub keys_in_items : Items → List String
  keys_in_items nil = []
  keys_in_items (cons entry rest) = keys_in entry ++ keys_in_items rest

  pub keys_in_fields : Fields → List String
  keys_in_fields end = []
  keys_in_fields (field key entry rest) = key ∷ keys_in entry ++ keys_in_fields rest

-- A URL with no name, no password and no parameter that signs it.
abbrev pub IsPlainUrl : Platform → Url → Type 0
IsPlainUrl p url =
    (has_text url.username ≡ false)
    × (has_text url.password ≡ false)
    × All (λ key. is_credential_query_parameter p key ≡ false) url.keys

abbrev pub IsPlainText : Platform → String → Type 0
IsPlainText p text =
    (looks_like_credential_value p text ≡ false)
    × All (λ u. (url : Url) × (p.parse_url (without_punctuation p u) ≡ some url) × IsPlainUrl p url)
        (urls_of p text)

-- No text that looks like a credential, no URL that bears one, and no key that names a secret.
abbrev pub IsSafe : Platform → Json → Type 0
IsSafe p e = All (IsPlainText p) (texts_in e) × All (λ key. is_secret_key p key ≡ false) (keys_in e)

-- A selection of the transcript that is there and within its limit.
abbrev pub HasCounts : Option Json → Type 0
HasCounts value =
    (selection : Fields) × (tail_limit available selected : ℕ) × (value ≡ some (obj selection))
    × (get "transcriptTailLimit" selection ≡ some (num tail_limit))
    × (get "transcriptMessagesAvailable" selection ≡ some (num available))
    × (get "transcriptMessagesSelected" selection ≡ some (num selected))
    × (selected ≤ available)
    × (selected ≤ tail_limit)

abbrev pub IsConsistent : Json → Type 0
IsConsistent e = (f : Fields) × (e ≡ obj f) × HasCounts (get "contextSelection" f)

All-append : {A : Type 0} (P : A → Type 0) (xs ys : List A) → All P xs → All P ys → All P (xs ++ ys)
All-append P [] ys h k = k
All-append P (x ∷ xs) ys (q, h) k = (q, All-append P xs ys h k)

any-false : {A : Type 0} (p : A → Bool) (xs : List A) → any p xs ≡ false → All (λ x. p x ≡ false) xs
any-false p [] h = tt
any-false p (x ∷ xs) h = (ground arith, any-false p xs (ground arith))

or-false : (a b : Bool) → (a || b) ≡ false → (a ≡ false) × (b ≡ false)
or-false a b h = (ground arith, ground arith)

not_less : (a b : ℕ) → ltb a b ≡ false → b ≤ a
not_less a b h = ground arith

both : (m k : Checked (Unit {0})) → (m >> k) ≡ accepted tt → (m ≡ accepted tt) × (k ≡ accepted tt)
both m k h = let (u, first, second) = bind-accepted m _ tt h in (first, second)

check_url-IsPlainUrl :
    (p : Platform) (parsed : Option Url)
    → check_url p parsed ≡ accepted tt
    → (url : Url) × (parsed ≡ some url) × IsPlainUrl p url
unfolding check_url
check_url-IsPlainUrl p none h = cc
check_url-IsPlainUrl p (some url) h =
    let (named, signed) = both _ _ h in
    let (no_name, no_password) = or-false _ _ (reject_if-accepted _ credential_url tt named) in
    (
      url,
      refl,
      (no_name, no_password, any-false _ url.keys (reject_if-accepted _ signed_url tt signed)),
    )

check_urls-IsPlainUrl :
    (p : Platform) (urls : List String)
    → check_urls p urls ≡ accepted tt
    → All
        (λ u. (url : Url) × (p.parse_url (without_punctuation p u) ≡ some url) × IsPlainUrl p url)
        urls
unfolding check_urls
check_urls-IsPlainUrl p [] h = tt
check_urls-IsPlainUrl p (u ∷ urls) h =
    let (first, later) = both (check_url p (p.parse_url (without_punctuation p u))) _ h in
    (check_url-IsPlainUrl p _ first, check_urls-IsPlainUrl p urls later)

check_text-IsPlainText :
    (p : Platform) (text : String) → check_text p text ≡ accepted tt → IsPlainText p text
unfolding check_text
check_text-IsPlainText p text h =
    let (plain, urls) =
      both (reject_if (looks_like_credential_value p text) credential_value) _ h in
    (reject_if-accepted _ credential_value tt plain, check_urls-IsPlainUrl p _ urls)

mutual
  unfolding assert_safe_checkpoint_value texts_in keys_in

  assert_safe_checkpoint_value-IsSafe :
      (p : Platform) (e : Json) → assert_safe_checkpoint_value p e ≡ accepted tt → IsSafe p e
  assert_safe_checkpoint_value-IsSafe p null h = (tt, tt)
  assert_safe_checkpoint_value-IsSafe p (bool b) h = (tt, tt)
  assert_safe_checkpoint_value-IsSafe p (num n) h = (tt, tt)
  assert_safe_checkpoint_value-IsSafe p (str text) h = ((check_text-IsPlainText p text h, tt), tt)
  assert_safe_checkpoint_value-IsSafe p (arr entries) h = assert_safe_items-AreSafe p entries h
  assert_safe_checkpoint_value-IsSafe p (obj entries) h = assert_safe_fields-AreSafe p entries h

  assert_safe_items-AreSafe :
      (p : Platform) (entries : Items)
      → assert_safe_items p entries ≡ accepted tt
      → All (IsPlainText p) (texts_in_items entries)
        × All (λ key. is_secret_key p key ≡ false) (keys_in_items entries)
  assert_safe_items-AreSafe p nil h = (tt, tt)
  assert_safe_items-AreSafe p (cons entry rest) h =
      let (first, later) = both (assert_safe_checkpoint_value p entry) _ h in
      let (texts, keys) = assert_safe_checkpoint_value-IsSafe p entry first in
      let (other_texts, other_keys) = assert_safe_items-AreSafe p rest later in
      (All-append _ _ _ texts other_texts, All-append _ _ _ keys other_keys)

  assert_safe_fields-AreSafe :
      (p : Platform) (entries : Fields)
      → assert_safe_fields p entries ≡ accepted tt
      → All (IsPlainText p) (texts_in_fields entries)
        × All (λ key. is_secret_key p key ≡ false) (keys_in_fields entries)
  assert_safe_fields-AreSafe p end h = (tt, tt)
  assert_safe_fields-AreSafe p (field key entry rest) h =
      let (named, others) = both (reject_if (is_secret_key p key) secret_field) _ h in
      let (first, later) = both (assert_safe_checkpoint_value p entry) _ others in
      let (texts, keys) = assert_safe_checkpoint_value-IsSafe p entry first in
      let (other_texts, other_keys) = assert_safe_fields-AreSafe p rest later in
      (
        All-append _ _ _ texts other_texts,
        (reject_if-accepted _ secret_field tt named, All-append _ _ _ keys other_keys),
      )

record_of-eq-accepted :
    (value : Option Json) (label : String) (f : Fields)
    → record_of value label ≡ accepted f
    → value ≡ some (obj f)
record_of-eq-accepted none label f h = cc
record_of-eq-accepted (some null) label f h = cc
record_of-eq-accepted (some (bool b)) label f h = cc
record_of-eq-accepted (some (num n)) label f h = cc
record_of-eq-accepted (some (str text)) label f h = cc
record_of-eq-accepted (some (arr entries)) label f h = cc
record_of-eq-accepted (some (obj g)) label f h = cc

non_negative_integer-eq-accepted :
    (value : Option Json) (label : String) (n : ℕ)
    → non_negative_integer value label ≡ accepted n
    → value ≡ some (num n)
non_negative_integer-eq-accepted none label n h = cc
non_negative_integer-eq-accepted (some null) label n h = cc
non_negative_integer-eq-accepted (some (bool b)) label n h = cc
non_negative_integer-eq-accepted (some (num m)) label n h =
    elim (Bool-cases (leb m max_safe_integer)) [
      | inl small ↦ let here = rw small at h in cc
      | inr large ↦ let here = rw large at h in cc
    ]
non_negative_integer-eq-accepted (some (str text)) label n h = cc
non_negative_integer-eq-accepted (some (arr entries)) label n h = cc
non_negative_integer-eq-accepted (some (obj g)) label n h = cc

-- A chain that reads a number and accepts.
number_read :
    (value : Option Json) (label : String) (f : ℕ → Checked (Unit {0}))
    → (non_negative_integer value label >>= f) ≡ accepted tt
    → (n : ℕ) × (value ≡ some (num n)) × (f n ≡ accepted tt)
number_read value label f h =
    let (n, read, rest) = bind-accepted (non_negative_integer value label) f tt h in
    (n, non_negative_integer-eq-accepted value label n read, rest)

validate_selection-HasCounts :
    (value : Option Json) → validate_selection value ≡ accepted tt → HasCounts value
unfolding validate_selection
validate_selection-HasCounts value h =
    let (selection, found, h1) =
      bind-accepted (record_of value "checkpoint contextSelection") _ tt h in
    let (_, h2) =
      both
        (reject_if (not (is_text (get "strategyVersion" selection) "context-compiler/v1"))
          (invalid "checkpoint contextSelection.strategyVersion"))
        _ h1 in
    let (tail_limit, limit_there, h3) =
      number_read (get "transcriptTailLimit" selection)
        "checkpoint contextSelection.transcriptTailLimit" _ h2 in
    let (available, available_there, h4) =
      number_read (get "transcriptMessagesAvailable" selection)
        "checkpoint contextSelection.transcriptMessagesAvailable" _ h3 in
    let (selected, selected_there, h5) =
      number_read (get "transcriptMessagesSelected" selection)
        "checkpoint contextSelection.transcriptMessagesSelected" _ h4 in
    let (fits, _) =
      both
        (reject_if (ltb available selected || ltb tail_limit selected)
          (invalid "checkpoint contextSelection transcript selection"))
        _ h5 in
    let (below, within) = or-false _ _ (reject_if-accepted _ _ tt fits) in
    (
      selection,
      tail_limit,
      available,
      selected,
      record_of-eq-accepted value _ selection found,
      limit_there,
      available_there,
      selected_there,
      not_less available selected below,
      not_less tail_limit selected within,
    )

-- What decoding gives, of a checkpoint of either version, holds no credential anywhere, and selects
-- no more of the transcript than there is and than its limit allows.
pub decode_checkpoint_envelope-IsSafe :
    (p : Platform) (version : ℕ) (raw : Option Json) (e : Json)
    → decode_checkpoint_envelope p version raw ≡ accepted e
    → IsSafe p e × IsConsistent e
unfolding IsValidated validate_checkpoint_envelope
decode_checkpoint_envelope-IsSafe p version raw e h =
    let (f, same, valid) = decode_checkpoint_envelope-IsValidated p version raw e h in
    let (_, h1) = both (validate_head f) _ valid in
    let (_, h2) = both (validate_commitments (get "commitments" f)) _ h1 in
    let (_, h3) = both (validate_references p (get "references" f)) _ h2 in
    let (selects, safe) = both (validate_selection (get "contextSelection" f)) _ h3 in
    (
      subst (IsSafe p) (sym same) (assert_safe_checkpoint_value-IsSafe p (obj f) safe),
      subst IsConsistent (sym same) (f, refl, validate_selection-HasCounts _ selects),
    )
