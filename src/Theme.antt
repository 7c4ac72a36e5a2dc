-- ===== src/Theme.antt =====
-- frontend/src/components/theme-provider.tsx: the theme of one page. The state is the provider's theme,
-- the classes of the root element, the browser's storage and the system's preference. An effect runs
-- after the change that it depends on, and what another page writes to the storage reaches this page
-- before its own next action. The suppressed transitions leave nothing behind and are left out.
pub mod InStep
mod Tests
use webmeow.Prelude.{
  String, Bool, true, false, not, ◌==◌, ◌||◌, Option, none, some, List, [], ◌∷◌, ◌++◌,
  if◌then◌else◌, Dict, put, remove, or_default, keep,
}

pub data ResolvedTheme : Type 0 where
  dark light : ResolvedTheme

pub data Theme : Type 0 where
  resolved : ResolvedTheme → Theme
  system : Theme

abbrev pub resolved_name : ResolvedTheme → String
resolved_name dark = "dark"
resolved_name light = "light"

abbrev pub theme_name : Theme → String
theme_name (resolved r) = resolved_name r
theme_name system = "system"

-- `isTheme(value)`, with the theme that the value is.
unfoldable pub is_theme : Option String → Option Theme
is_theme none = none
is_theme (some value) =
    if value == "dark"
    then some (resolved dark)
    else if value == "light"
    then some (resolved light)
    else if value == "system"
    then some system
    else none

pub record Page : Type 0 where
  pub theme : Theme
  pub classes : List String
  pub storage : Dict String
  pub prefers : ResolvedTheme

-- A pressed key, with what the handler reads of it.
pub record KeyDown : Type 0 where
  pub repeats : Bool
  pub meta_key : Bool
  pub ctrl_key : Bool
  pub alt_key : Bool
  pub in_editable : Bool
  pub key : String

abbrev pub opposite : ResolvedTheme → ResolvedTheme
opposite dark = light
opposite light = dark

-- `prefers` is what `getSystemTheme` answers.
unfoldable pub get_next_shortcut_theme : ResolvedTheme → Theme → ResolvedTheme
get_next_shortcut_theme prefers (resolved r) = opposite r
get_next_shortcut_theme prefers system = opposite prefers

abbrev pub resolve : ResolvedTheme → Theme → ResolvedTheme
resolve prefers (resolved r) = r
resolve prefers system = prefers

abbrev pub is_color : String → Bool
is_color name = (name == "light") || (name == "dark")

unfoldable pub apply_theme : Theme → Page → Page
apply_theme next_theme p = record p {
  classes =
      keep (λ name. not (is_color name)) p.classes
      ++ (resolved_name (resolve p.prefers next_theme) ∷ []);
}

-- `setThemeState`, with the effect that follows a change of the theme.
unfoldable pub set_theme_state : Theme → Page → Page
unfolding apply_theme
set_theme_state next_theme p =
    if theme_name p.theme == theme_name next_theme
    then p
    else apply_theme next_theme (record p { theme = next_theme })

-- A guard of the key handler: it returns unless the key is a bare d that is not typed into a field.
unfoldable pub is_ignored : KeyDown → Bool
is_ignored e =
    e.repeats
    || (e.meta_key || (e.ctrl_key || e.alt_key))
    || e.in_editable
    || not ((e.key == "d") || (e.key == "D"))

-- What the browser tells of a storage that another page has changed: `storageArea === localStorage`,
-- the key and its new value.
pub record StorageEvent : Type 0 where
  pub in_local_storage : Bool
  pub key : Option String
  pub new_value : Option String

module _ (storage_key : String) (default_theme : Theme) where
  -- The provider is mounted: it reads the storage, and applies the theme.
  unfoldable pub mount : List String → Dict String → ResolvedTheme → Page
  unfolding apply_theme
  mount classes storage prefers =
      let theme = or_default (is_theme (storage storage_key)) default_theme in
      apply_theme theme
        (record { theme = theme; classes = classes; storage = storage; prefers = prefers })

  unfoldable pub set_theme : Theme → Page → Page
  unfolding set_theme_state
  set_theme next_theme p =
      set_theme_state next_theme
        (record p { storage = put p.storage storage_key (theme_name next_theme) })

  unfoldable pub handle_key_down : KeyDown → Page → Page
  unfolding set_theme is_ignored get_next_shortcut_theme
  handle_key_down e p =
      if is_ignored e then p else set_theme (resolved (get_next_shortcut_theme p.prefers p.theme)) p

  -- `handleChange`, which is registered while the theme is the system's.
  abbrev pub when_system : Theme → Page → Page
  when_system (resolved r) p = p
  when_system system p = apply_theme system p

  unfoldable pub handle_change : ResolvedTheme → Page → Page
  unfolding apply_theme
  handle_change prefers p = when_system p.theme (record p { prefers = prefers })

  -- The value of the key as the other page leaves it.
  abbrev pub write : String → Option String → Dict String → Dict String
  write key none storage = remove storage key
  write key (some value) storage = put storage key value

  -- `event.key === storageKey`; the key is null where the whole storage was cleared.
  abbrev is_own_key : Option String → Bool
  is_own_key none = false
  is_own_key (some key) = key == storage_key

  unfoldable pub handle_storage_change : StorageEvent → Page → Page
  unfolding set_theme_state is_theme
  handle_storage_change e p =
      if e.in_local_storage
      then (if is_own_key e.key
          then set_theme_state (or_default (is_theme e.new_value) default_theme) p
          else p)
      else p

  -- What happens to the page. Another page writes or removes a key of the local storage, or one of the
  -- session's.
  pub data Event : Type 0 where
    picks : Theme → Event
    presses : KeyDown → Event
    prefers_now : ResolvedTheme → Event
    writes writes_session : String → Option String → Event

  unfoldable pub happen : Event → Page → Page
  unfolding set_theme handle_key_down handle_change handle_storage_change
  happen (picks next_theme) p = set_theme next_theme p
  happen (presses e) p = handle_key_down e p
  happen (prefers_now prefers) p = handle_change prefers p
  happen (writes key value) p =
      handle_storage_change (record { in_local_storage = true; key = some key; new_value = value })
        (record p { storage = write key value p.storage })
  happen (writes_session key value) p =
      handle_storage_change (record { in_local_storage = false; key = some key; new_value = value })
        p

  unfoldable pub happen_all : List Event → Page → Page
  unfolding happen
  happen_all [] p = p
  happen_all (e ∷ rest) p = happen_all rest (happen e p)
