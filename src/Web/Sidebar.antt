-- ===== src/Web/Sidebar.antt =====
-- The sidebar of the dashboard (apps/web/src/components/layout/Sidebar.tsx): its links, what it shows
-- of the user, and signing out. `upper` is toUpperCase.
pub mod Active
use Prim.Native.String.{◌++◌ as ◌<>◌}
use text.Mathlib.Text.{starts_with}
use ai_gcm.Base.{String, Bool, ◌||◌, Option, none, some, List, [], ◌∷◌, ◌==◌, if◌then◌else◌}
use ai_gcm.Js.{Value, str, get, as_string}
use ai_gcm.Web.Store.{AppState, logout, act}

pub record NavItem : Type 0 where
  pub label : String
  pub href : String

abbrev pub link : String → String → NavItem
link l h = record { label = l; href = h }

abbrev pub nav : List NavItem
nav =
    link "Overview" "/overview"
    ∷ link "Analytics" "/cost"
    ∷ link "Usage" "/usage"
    ∷ link "Budgets" "/budgets"
    ∷ link "Policies" "/policies"
    ∷ link "API Keys" "/keys"
    ∷ link "Alerts" "/alerts"
    ∷ link "Audit Log" "/audit"
    ∷ link "Reports" "/reports"
    ∷ link "Settings" "/settings"
    ∷ []

-- `pathname === href || pathname.startsWith(href + '/')`.
abbrev pub is_active : (pathname href : String) → Bool
is_active pathname href = (pathname == href) || starts_with pathname (href <> "/")

-- `user?.[key] || fallback`, for a text.
abbrev pub text_or : Value → String → String
text_or (str s) fallback = if s == "" then fallback else s
text_or _ fallback = fallback

abbrev pub org_name : Value → String
org_name user = text_or (get user "orgName") "Acme Corp"

abbrev pub user_name : Value → String
user_name user = text_or (get user "name") "User Admin"

-- `user?.role ? user.role.toUpperCase() : 'ADMIN'`.
abbrev pub user_role : (upper : String → String) → Value → String
user_role upper user = elim (as_string (get user "role")) [
  | none ↦ "ADMIN"
  | some role ↦ if role == "" then "ADMIN" else upper role
]

-- `handleLogout`: the state of the store, and the page that it goes to.
abbrev pub handle_logout : AppState → AppState × String
handle_logout s = (act s logout, "/login")
