-- ===== src/Web/Tests.antt =====
-- The theorems of the browser's state at concrete states.
use mathlib.Core.List.{reverse}
use ai_gcm.Base.{◌≡◌, ◌+◌, ◌≤◌, ◌⊎◌, String, true, false, none, some, List, [], ◌∷◌, length, All}
use ai_gcm.Js.{Value, str, object}
use ai_gcm.Effect.{ok}
use ai_gcm.Effect.Run.{run}
use ai_gcm.Effect.Post.{Post}
use ai_gcm.Web.Api
use ai_gcm.Web.Api.{ApiEnv, Session, fetch, read_json}
use ai_gcm.Web.Signin.{credentials, is_demo, submit_login}
use ai_gcm.Web.Signin.Outcomes.{Signed, submit_login-Signed}
use ai_gcm.Web.AlertsPage.{alerts_shown, dismiss, dismiss_all, unread, keep}
use ai_gcm.Web.AlertsPage.Dismissal.{unread_with, dismissal}
use ai_gcm.Web.Signup.{slug_of}
use ai_gcm.Web.Signup.Slugs.{IsTame, slug_of-IsTame}
use ai_gcm.Web.Registration.{SignupForm, signup_body, is_mocked, submit_signup}
use ai_gcm.Web.Registration.Outcomes.{submit_signup-Signed}
use ai_gcm.Web.Store.{
  AppState, Action, set_user, logout, toggle_sidebar, set_auth, initial, act, act_all, spinner,
  guard, redirects,
}
use ai_gcm.Web.Store.Requests.{IsAnonymous, session_of, signed_out-IsAnonymous}
use ai_gcm.Web.Sidebar.{nav, is_active, handle_logout}
use ai_gcm.Web.Sidebar.Active.{one_active}
use ai_gcm.Web.KeysPage
use ai_gcm.Web.KeysPage.{KeyCard}
use ai_gcm.Web.ReportsPage.{history, monthly_summary}
use ai_gcm.Web.ReportsPage.History.{since, history-eq}
use ai_gcm.Web.Overview
use ai_gcm.Web.Overview.{PeriodKey, Event, handle, handle_all, initial_alerts}
use ai_gcm.Web.Overview.Reading.{Remains, handle_all-reads}
use ai_gcm.Web.Store.Session.{guard_logged_out}
use ai_gcm.Web.Theme.{ThemeState, mount, changes, toggles, sets, steps}
use ai_gcm.Web.Theme.Painted.{IsPainted, mounted-IsPainted}

abbrev signed_in : AppState
signed_in = act (initial (object [])) (set_auth (str "t") (object []))

abbrev later : List Action
later = toggle_sidebar ∷ set_user (object []) ∷ []

guard_logged_out_example :
    (guard true (act_all (act signed_in logout) later) ≡ spinner)
    × (redirects true (act_all (act signed_in logout) later) ≡ true)
guard_logged_out_example = guard_logged_out signed_in later true (tt, (tt, tt))

abbrev fresh : ThemeState
fresh = record {
  theme = "dark";
  resolved_theme = "dark";
  mounted = false;
  saved = some "system";
  classes = [];
}

mounted-IsPainted_example :
    IsPainted (steps (mount true fresh) (changes false ∷ toggles false ∷ sets true "system" ∷ []))
mounted-IsPainted_example =
    mounted-IsPainted true fresh (changes false ∷ toggles false ∷ sets true "system" ∷ [])

-- A service that accepts every request, with the token "t".
abbrev service : ApiEnv
service h (fetch sent) = ok (record { status = 200; status_text = "OK" })
service h (read_json res) = ok (object (("access_token", str "t") ∷ ("user", object []) ∷ []))

abbrev session : Session
session = record {
  token = Value.null;
  store_token = Value.null;
  api_base = "http://localhost:3001";
}

abbrev unchanged : String → String
unchanged s = s

abbrev text_of : Value → String
text_of (str s) = s
text_of _ = ""

submit_login-Signed_example :
    Post service
      (Signed service []
        (Api.login text_of session (credentials "ada@org.example" "secret"))
        (is_demo unchanged "ada@org.example"))
      []
      (submit_login unchanged text_of session "ada@org.example" "secret")
submit_login-Signed_example =
    submit_login-Signed service [] unchanged text_of session "ada@org.example" "secret"

abbrev form : SignupForm
form = record {
  org_name = "Org";
  org_slug = "org";
  name = "Ada";
  email = "ada@org.example";
  password = "correct horse";
  agree_terms = true;
}

submit_signup-Signed_example :
    Post service
      (Signed service []
        (Api.register text_of session (signup_body unchanged form))
        (is_mocked form))
      []
      (submit_signup unchanged text_of session form)
submit_signup-Signed_example = submit_signup-Signed service [] unchanged text_of session form

slug_of-IsTame_example : (slug_of "acme  corp!" ≡ "") ⊎ IsTame true (slug_of "acme  corp!")
slug_of-IsTame_example = slug_of-IsTame "acme  corp!"

dismissal_example :
    (unread (dismiss "1" alerts_shown) + unread_with "1" alerts_shown ≡ unread alerts_shown)
    × (dismiss_all (dismiss "1" alerts_shown) ≡ dismiss_all alerts_shown)
    × (unread (dismiss_all alerts_shown) ≡ 0)
dismissal_example = dismissal "1" alerts_shown

signed_out-IsAnonymous_example :
    All IsAnonymous
      (run service [] (
        Api.request text_of
          (session_of "http://localhost:3001" (act_all (handle_logout signed_in).0 later))
          "/usage"
          Api.gets)).1
signed_out-IsAnonymous_example =
    signed_out-IsAnonymous text_of service "http://localhost:3001" signed_in later "/usage" Api.gets
      (tt, (tt, tt))

abbrev clicks : List Event
clicks = Event.click_alert "1" ∷ Event.dismiss "3" ∷ Event.set_period PeriodKey.qtd ∷ []

handle_all-reads_example :
    Remains (handle_all Overview.initial clicks).alerts initial_alerts
    × ((Overview.unread (handle_all Overview.initial clicks).alerts
          ≤ Overview.unread initial_alerts)
        × (Overview.unread (handle_all (handle Overview.initial Event.mark_all) clicks).alerts ≡ 0))
handle_all-reads_example = handle_all-reads Overview.initial clicks

abbrev claude : KeyCard
claude = record {
  id = "1";
  provider = "anthropic";
  label = "Production — Claude";
  preview = "sk-ant-ap1••";
  hash = "a8f3c912••••••••••••••••";
  active = true;
  last_used = "2 min ago";
  expires = none;
  rotate_at = none;
  models = [];
}

history-eq_example : history monthly_summary ≡ reverse (since none monthly_summary)
history-eq_example = history-eq monthly_summary

one_active_example : length (keep (λ n. is_active "/keys/7" n.href) nav) ≤ 1
one_active_example = one_active "/keys/7"
