-- ===== src/Web/Theme.antt =====
-- The theme of the page (apps/web/src/components/theme/ThemeProvider.tsx). A theme is the text that
-- is stored; `prefers_dark` is what the media query answers when an event happens.
pub mod Painted
use ai_gcm.Base.{
  String, Bool, true, false, Option, none, some, List, [], ◌∷◌, ◌++◌, ◌==◌, not, ◌||◌, ◌&&◌,
  if◌then◌else◌,
}
use ai_gcm.Effect.{Result, ok, err, plain}

pub record ThemeState : Type 0 where
  pub theme : String
  pub resolved_theme : String
  pub mounted : Bool
  -- localStorage's item.
  pub saved : Option String
  -- The classes of the root element.
  pub classes : List String

abbrev pub get_system_theme : (prefers_dark : Bool) → String
get_system_theme prefers_dark = if prefers_dark then "dark" else "light"

abbrev pub resolve : (prefers_dark : Bool) → String → String
resolve prefers_dark theme = if theme == "system" then get_system_theme prefers_dark else theme

-- `classList.contains`, `remove` and `add`.
abbrev pub has : String → List String → Bool
has c [] = false
has c (d ∷ cs) = (d == c) || has c cs

abbrev pub remove : String → List String → List String
remove c [] = []
remove c (d ∷ cs) = let rest = remove c cs in if d == c then rest else d ∷ rest

abbrev pub add : String → List String → List String
add c cs = if has c cs then cs else cs ++ c ∷ []

-- `root.classList.remove('light', 'dark'); root.classList.add(resolved)`.
abbrev pub paint : String → List String → List String
paint resolved cs = add resolved (remove "dark" (remove "light" cs))

-- `localStorage.getItem(THEME_KEY) || 'dark'`.
abbrev pub saved_theme : Option String → String
saved_theme none = "dark"
saved_theme (some s) = if s == "" then "dark" else s

-- The first effect.
unfoldable pub mount : (prefers_dark : Bool) → ThemeState → ThemeState
mount prefers_dark s =
    let theme = saved_theme s.saved in
    let resolved = resolve prefers_dark theme in
    record s {
      theme = theme;
      resolved_theme = resolved;
      mounted = true;
      classes = paint resolved s.classes;
    }

-- handleSystemChange, which listens once the provider is mounted.
unfoldable pub system_change : (prefers_dark : Bool) → ThemeState → ThemeState
system_change prefers_dark s =
    if s.mounted && (s.theme == "system")
    then record s {
      resolved_theme = get_system_theme prefers_dark;
      classes = paint (get_system_theme prefers_dark) s.classes;
    }
    else s

unfoldable pub set_theme : (prefers_dark : Bool) → String → ThemeState → ThemeState
set_theme prefers_dark new_theme s =
    let resolved = resolve prefers_dark new_theme in
    record s {
      theme = new_theme;
      saved = some new_theme;
      resolved_theme = resolved;
      classes = paint resolved s.classes;
    }

unfoldable pub toggle_theme : (prefers_dark : Bool) → ThemeState → ThemeState
unfolding set_theme
toggle_theme prefers_dark s =
    set_theme prefers_dark (if s.resolved_theme == "dark" then "light" else "dark") s

pub data Event : Type 0 where
  mounts changes toggles : (prefers_dark : Bool) → Event
  sets : (prefers_dark : Bool) → (theme : String) → Event

abbrev pub step : ThemeState → Event → ThemeState
step s (mounts b) = mount b s
step s (changes b) = system_change b s
step s (toggles b) = toggle_theme b s
step s (sets b t) = set_theme b t s

abbrev pub steps : ThemeState → List Event → ThemeState
steps s [] = s
steps s (e ∷ es) = steps (step s e) es

-- useTheme, for the context that a provider gives.
unfoldable pub use_theme : {A : Type 0} → Option A → Result A
use_theme none = err (plain "useTheme must be used within a ThemeProvider")
use_theme (some context) = ok context
