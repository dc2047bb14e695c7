-- ===== src/Core/Checkpoints.antt =====
-- src/core/checkpoints.ts: the readers of unknown values, and the values that no checkpoint may hold.
-- The regular expressions and the URL parser of the language are parameters; a pattern is given by its
-- text and its flags. The errors name what failed, without the place in the value. A number of `Json`
-- is a natural number, so a negative or fractional one is not among the values.
pub mod Envelope
pub mod Decoding
pub mod Safe
use text.Mathlib.Text.{◌==◌ as str_eq}
use managed_agents_runtime.Prelude.{
  ℕ, String, Bool, true, false, not, ◌&&◌, ◌||◌, List, ◌∷◌, [], Option, none, some, if◌then◌else◌,
  leb, ◌==◌, any,
}
use managed_agents_runtime.Json.{
  Json, null, bool, num, str, arr, obj, Items, nil, cons, Fields, end, field,
}

pub data CheckpointError : Type 0 where
  unsupported_version : CheckpointError
  not_an_object not_an_array not_only_strings invalid : String → CheckpointError
  credential_value invalid_url credential_url signed_url secret_field : CheckpointError

pub data Checked (A : Type 0) : Type 0 where
  accepted : A → Checked A
  rejected : CheckpointError → Checked A

infixl 5 ◌>>=◌ ◌>>◌
abbrev pub ◌>>=◌ : {A B : Type 0} → Checked A → (A → Checked B) → Checked B
m >>= f = elim m [ accepted a ↦ f a | rejected e ↦ rejected e ]

abbrev pub ◌>>◌ : {B : Type 0} → Checked (Unit {0}) → Checked B → Checked B
m >> k = m >>= λ _. k

-- `if (failed) throw e`.
abbrev pub reject_if : Bool → CheckpointError → Checked (Unit {0})
reject_if true e = rejected e
reject_if false e = accepted tt

-- What the code uses of a parsed `URL`; `keys` are those of `searchParams`.
pub record Url : Type 0 where
  pub username : String
  pub password : String
  pub keys : List String

-- `new RegExp(pattern, flags).test(value)`, `value.match`, `value.replace(pattern, '')`, `new URL`.
pub record Platform : Type 0 where
  pub test : String → String → String → Bool
  pub matches : String → String → String → List String
  pub strip : String → String → String
  pub parse_url : String → Option Url

unfoldable pub looks_like_credential_value : Platform → String → Bool
looks_like_credential_value p value =
    p.test "\\b(?:Bearer|Basic)\\s+[A-Za-z0-9._~+\\/-]{8,}={0,2}\\b" "i" value
    || p.test "\\b(?:gh[pousr]_[A-Za-z0-9]{20,}|github_pat_[A-Za-z0-9_]{20,})\\b" "" value
    || p.test "\\b(?:AKIA|ASIA)[A-Z0-9]{16}\\b" "" value
    || p.test "\\bxox[baprs]-[A-Za-z0-9-]{10,}\\b" "" value
    || p.test "\\bAIza[0-9A-Za-z_-]{30,}\\b" "" value
    || p.test "\\beyJ[A-Za-z0-9_-]{8,}\\.eyJ[A-Za-z0-9_-]{8,}\\.[A-Za-z0-9_-]{8,}\\b" "" value
    || p.test "-----BEGIN (?:[A-Z0-9]+ )?PRIVATE KEY-----" "" value

unfoldable pub is_credential_query_parameter : Platform → String → Bool
is_credential_query_parameter p key =
    p.test "(?:signature|credential|token|ticket|authorization|cookie|expires)" "i" key
    || p.test "^(?:sig|se|sv|sp|sr|skoid|sktid|skt|ske|sks|skv|policy|key-pair-id)$" "i" key

unfoldable pub is_secret_key : Platform → String → Bool
is_secret_key p =
    p.test
      "(?:secret|password|authorization|cookie|api[_-]?key|access[_-]?key|session[_-]?token|signed[_-]?url)"
      "i"

-- The URLs in a text, without the punctuation after them.
unfoldable pub urls_of : Platform → String → List String
urls_of p = p.matches "(?:https?|wss?):\\/\\/[^\\s\\\"'<>]+" "gi"

abbrev pub has_text : String → Bool
has_text s = not (str_eq s "")

unfoldable pub check_url : Platform → Option Url → Checked (Unit {0})
check_url p none = rejected invalid_url
check_url p (some url) = do
  reject_if (has_text url.username || has_text url.password) credential_url
  reject_if (any (is_credential_query_parameter p) url.keys) signed_url

abbrev pub without_punctuation : Platform → String → String
without_punctuation p = p.strip "[),.;]+$"

unfoldable pub check_urls : Platform → List String → Checked (Unit {0})
unfolding check_url
check_urls p [] = accepted tt
check_urls p (url ∷ rest) = do
  check_url p (p.parse_url (without_punctuation p url))
  check_urls p rest

unfoldable pub check_text : Platform → String → Checked (Unit {0})
unfolding check_urls
check_text p value = do
  reject_if (looks_like_credential_value p value) credential_value
  check_urls p (urls_of p value)

unfoldable mutual
  unfolding check_text

  pub assert_safe_checkpoint_value : Platform → Json → Checked (Unit {0})
  assert_safe_checkpoint_value p (str value) = check_text p value
  assert_safe_checkpoint_value p (arr entries) = assert_safe_items p entries
  assert_safe_checkpoint_value p (obj entries) = assert_safe_fields p entries
  assert_safe_checkpoint_value p _ = accepted tt

  pub assert_safe_items : Platform → Items → Checked (Unit {0})
  assert_safe_items p nil = accepted tt
  assert_safe_items p (cons entry rest) =
      assert_safe_checkpoint_value p entry >> assert_safe_items p rest

  pub assert_safe_fields : Platform → Fields → Checked (Unit {0})
  assert_safe_fields p end = accepted tt
  assert_safe_fields p (field key entry rest) =
      reject_if (is_secret_key p key) secret_field
      >> (assert_safe_checkpoint_value p entry >> assert_safe_fields p rest)

-- `value[key]`, `none` where it is undefined.
unfoldable pub get : String → Fields → Option Json
get key end = none
get key (field k v rest) = if str_eq k key then some v else get key rest

abbrev pub record_of : Option Json → String → Checked Fields
record_of (some (obj fields)) label = accepted fields
record_of _ label = rejected (not_an_object label)

-- `Number.MAX_SAFE_INTEGER`.
abbrev pub max_safe_integer : ℕ
max_safe_integer = 9007199254740991

abbrev pub non_negative_integer : Option Json → String → Checked ℕ
non_negative_integer (some (num n)) label =
    if leb n max_safe_integer then accepted n else rejected (invalid label)
non_negative_integer _ label = rejected (invalid label)

abbrev pub array : Option Json → String → Checked Items
array (some (arr entries)) label = accepted entries
array _ label = rejected (not_an_array label)

abbrev pub is_string : Option Json → Bool
is_string (some (str _)) = true
is_string _ = false

abbrev pub only_strings : Items → Bool
only_strings nil = true
only_strings (cons entry rest) = is_string (some entry) && only_strings rest

abbrev pub string_array : Option Json → String → Checked (Unit {0})
string_array value label =
    array value label >>= λ entries. reject_if (not (only_strings entries)) (not_only_strings label)

abbrev pub required_string : Option Json → String → Checked String
required_string (some (str value)) label = accepted value
required_string _ label = rejected (invalid label)

abbrev pub optional_string : Option Json → String → Checked (Option String)
optional_string none label = accepted none
optional_string (some (str value)) label = accepted (some value)
optional_string _ label = rejected (invalid label)

abbrev pub is_object : Option Json → Bool
is_object (some (obj _)) = true
is_object _ = false

unfoldable pub tool_call : Json → Checked Json
tool_call value = do
  candidate ← record_of (some value) "pending tool call"
  reject_if
      (not (
        is_string (get "id" candidate)
        && is_string (get "name" candidate)
        && is_object (get "arguments" candidate)))
      (invalid "pending tool call")
  accepted value

-- Whether a test in `if` or `?:` takes the value for true.
abbrev pub truthy : Option Json → Bool
truthy none = false
truthy (some null) = false
truthy (some (bool b)) = b
truthy (some (num n)) = not (n == 0)
truthy (some (str s)) = has_text s
truthy _ = true
