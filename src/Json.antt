-- ===== src/Json.antt =====
-- Values of JSON, as the payloads of events, results and arguments hold them
-- (`Record<string, unknown>` throughout src/), and the object spread `{ ...a, ...b }`.
use text.Mathlib.Text.{◌==◌ as str_eq}
use managed_agents_runtime.Prelude.{
  ℕ, String, Bool, List, [], ◌∷◌, Option, none, some, if◌then◌else◌,
}

mutual
  pub data Json : Type 0 where
    null : Json
    bool : Bool → Json
    num : ℕ → Json
    str : String → Json
    arr : Items → Json
    obj : Fields → Json

  pub data Items : Type 0 where
    nil : Items
    cons : Json → Items → Items

  pub data Fields : Type 0 where
    end : Fields
    field : String → Json → Fields → Fields

-- An object with its keys in insertion order.
abbrev pub Payload : Type 0
Payload = List (String × Json)

-- `o[key] = value`: a key that is there keeps its place.
unfoldable pub assign : String → Json → Payload → Payload
assign key v [] = (key, v) ∷ []
assign key v ((k, w) ∷ o) = if str_eq k key then (k, v) ∷ o else (k, w) ∷ assign key v o

-- `{ ...base, ...extra }`.
unfoldable pub spread : Payload → Payload → Payload
unfolding assign
spread base [] = base
spread base ((k, v) ∷ extra) = spread (assign k v base) extra

-- `o[key]`, `none` where the key is missing.
unfoldable pub member : String → Payload → Option Json
member key [] = none
member key ((k, v) ∷ o) = if str_eq k key then some v else member key o
