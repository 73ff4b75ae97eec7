-- ===== src/Web/Store.antt =====
-- The browser's state (apps/web/src/store/useAppStore.ts) and the guard of the dashboard
-- (apps/web/src/components/layout/AuthGuard.tsx). A token or a user that is not there is null.
pub mod Session
pub mod Requests
use ai_gcm.Base.{Bool, true, false, not, ◌&&◌, ◌||◌, List, [], ◌∷◌, if◌then◌else◌}
use ai_gcm.Js.{Value, truthy}

pub record AppState : Type 0 where
  pub user : Value
  pub token : Value
  pub date_range : Value
  pub selected_team_id : Value
  pub sidebar_open : Bool

-- The state before anyone signs in, for the range of the last thirty days.
abbrev pub initial : Value → AppState
initial range = record {
  user = Value.null;
  token = Value.null;
  date_range = range;
  selected_team_id = Value.null;
  sidebar_open = true;
}

pub data Action : Type 0 where
  set_user : Value → Action
  set_auth : (token user : Value) → Action
  logout : Action
  set_date_range : Value → Action
  set_selected_team_id : Value → Action
  toggle_sidebar : Action

abbrev pub act : AppState → Action → AppState
act s (set_user user) = record s { user = user }
act s (set_auth token user) = record s { token = token; user = user }
act s logout = record s { token = Value.null; user = Value.null }
act s (set_date_range range) = record s { date_range = range }
act s (set_selected_team_id id) = record s { selected_team_id = id }
act s toggle_sidebar = record s { sidebar_open = not s.sidebar_open }

abbrev pub act_all : AppState → List Action → AppState
act_all s [] = s
act_all s (a ∷ as') = act_all (act s a) as'

-- What `partialize` keeps in the browser's storage.
pub record Persisted : Type 0 where
  pub token : Value
  pub user : Value
  pub date_range : Value
  pub sidebar_open : Bool

abbrev pub partialize : AppState → Persisted
partialize s = record {
  token = s.token;
  user = s.user;
  date_range = s.date_range;
  sidebar_open = s.sidebar_open;
}

pub data Screen : Type 0 where
  spinner children : Screen

-- What the guard renders.
abbrev pub guard : (mounted : Bool) → AppState → Screen
guard mounted s =
    if not mounted || (not (truthy s.token) || not (truthy s.user)) then spinner else children

-- Whether its effect goes to /login.
abbrev pub redirects : (mounted : Bool) → AppState → Bool
redirects mounted s = mounted && (not (truthy s.token) || not (truthy s.user))
