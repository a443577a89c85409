-- ===== src/Hotkey/Keys.antt =====
-- `ParseKey`, `parseModifier` and `translate` of client/internal/hotkey.
use local_dictation.Prelude.{
  Bool, false, ◌&&◌, ◌||◌, List, [], ◌∷◌, Option, none, some, if◌then◌else◌, leb, ◌⊎◌, inl, inr,
}
use local_dictation.Text.{Text, codes, beq, trim_space, to_lower, to_upper}

-- `Binding`
pub record Binding : Type 0 where
  pub modifiers : List Text
  pub key : Text

-- The modifiers of the library; Option is Alt and Cmd is Win on Windows.
pub data Modifier : Type 0 where
  ctrl shift option cmd : Modifier

-- `keyNames`
abbrev pub is_key : Text → Bool
is_key (c ∷ []) = leb b'A' c && leb c b'Z' || leb b'0' c && leb c b'9'
is_key name = beq name (codes "SPACE")

-- `ParseKey`; a key is its name
unfoldable pub parse_key : Text → Option Text
parse_key name = let upper = to_upper (trim_space name) in if is_key upper then some upper else none

abbrev pub is_one_of : Text → List Text → Bool
is_one_of t [] = false
is_one_of t (u ∷ us) = beq t u || is_one_of t us

-- `parseModifier`
unfoldable pub parse_modifier : Text → Option Modifier
parse_modifier name =
    let lower = to_lower (trim_space name) in
    if is_one_of lower (codes "ctrl" ∷ codes "control" ∷ [])
    then some ctrl
    else if beq lower (codes "shift")
    then some shift
    else if is_one_of lower (codes "alt" ∷ codes "option" ∷ codes "opt" ∷ [])
    then some option
    else if is_one_of lower (codes "cmd" ∷ codes "command" ∷ codes "super" ∷ codes "win" ∷ [])
    then some cmd
    else none

pub data Untranslatable : Type 0 where
  unknown_key : Text → Untranslatable
  no_modifier : Untranslatable
  unknown_modifier : Text → Untranslatable

-- In `translate`, one modifier before the others.
abbrev pub with_modifier :
    Text → Option Modifier → List Modifier ⊎ Untranslatable → List Modifier ⊎ Untranslatable
with_modifier name none rest = inr (unknown_modifier name)
with_modifier name (some m) (inr e) = inr e
with_modifier name (some m) (inl ms) = inl (m ∷ ms)

-- In `translate`, the loop.
unfoldable pub parse_modifiers : List Text → List Modifier ⊎ Untranslatable
parse_modifiers [] = inl []
parse_modifiers (name ∷ names) = with_modifier name (parse_modifier name) (parse_modifiers names)

-- In `translate`, the key and the modifiers together.
abbrev pub chord : Text → List Modifier ⊎ Untranslatable → (List Modifier × Text) ⊎ Untranslatable
chord key (inr e) = inr e
chord key (inl ms) = inl (ms, key)

-- In `translate`, after the key.
abbrev pub with_key : Text → List Text → (List Modifier × Text) ⊎ Untranslatable
with_key key [] = inr no_modifier
with_key key (name ∷ names) = chord key (parse_modifiers (name ∷ names))

-- `translate`
unfoldable pub translate : Binding → (List Modifier × Text) ⊎ Untranslatable
translate b = elim (parse_key b.key) [
  | none ↦ inr (unknown_key b.key)
  | some key ↦ with_key key b.modifiers
]
