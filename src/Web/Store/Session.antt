-- ===== src/Web/Store/Session.antt =====
-- When the dashboard is shown (apps/web/src/store/useAppStore.ts,
-- apps/web/src/components/layout/AuthGuard.tsx).
use ai_gcm.Base.{◌≡◌, refl, ◌∙◌, ◌⊎◌, inl, inr, Bool, true, false, List, [], ◌∷◌, All}
use ai_gcm.Js.{Value}
use ai_gcm.Web.Store.{
  AppState, Action, set_user, set_auth, logout, set_date_range, set_selected_team_id,
  toggle_sidebar, act, act_all, spinner, guard, redirects,
}

-- The action signs nobody in.
abbrev pub IsPlain : Action → Type 0
IsPlain (set_auth token user) = ⊥
IsPlain _ = Unit

act-token :
    (s : AppState) (a : Action)
    → IsPlain a
    → ((act s a).token ≡ s.token) ⊎ ((act s a).token ≡ Value.null)
act-token s (set_user user) p = inl refl
act-token s (set_auth token user) p = elim p [ ]
act-token s logout p = inr refl
act-token s (set_date_range range) p = inl refl
act-token s (set_selected_team_id id) p = inl refl
act-token s toggle_sidebar p = inl refl

pub act_all-null :
    (s : AppState) (as' : List Action)
    → s.token ≡ Value.null
    → All IsPlain as'
    → (act_all s as').token ≡ Value.null
act_all-null s [] e p = e
act_all-null s (a ∷ as') e (p, ps) = elim (act-token s a p) [
  | inl same ↦ act_all-null (act s a) as' (same ∙ e) ps
  | inr gone ↦ act_all-null (act s a) as' gone ps
]

-- After a logout, whatever is done but signing in, the guard shows no page, and it goes to the
-- login once it is mounted.
pub guard_logged_out :
    (s : AppState) (as' : List Action) (mounted : Bool)
    → All IsPlain as'
    → (guard mounted (act_all (act s logout) as') ≡ spinner)
      × (redirects mounted (act_all (act s logout) as') ≡ mounted)
guard_logged_out s as' true p = rw (act_all-null (act s logout) as' refl p) (refl, refl)
guard_logged_out s as' false p = (refl, refl)
