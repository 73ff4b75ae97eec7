-- ===== src/Web/AuditPage.antt =====
-- The filters of the audit page (apps/web/src/app/(dashboard)/audit/page.tsx). `lower` is
-- toLowerCase.
pub mod Narrowing
use ai_gcm.Base.{String, Bool, true, false, not, ◌||◌, ◌&&◌, List, ◌==◌, if◌then◌else◌}
use ai_gcm.Web.Signin.{includes}
use ai_gcm.Web.AlertsPage.{keep}

-- The columns that the filters read.
pub record AuditRow : Type 0 where
  pub id : String
  pub user : String
  pub team : String
  pub model : String
  pub status : String
  pub dlp : Bool

pub record Filters : Type 0 where
  pub search : String
  pub status_filter : String
  pub dlp_only : Bool

abbrev pub finds : (lower : String → String) → (q : String) → AuditRow → Bool
finds lower q r =
    includes q r.user || (includes q r.model || (includes q (lower r.team) || includes q r.id))

abbrev pub shows : (lower : String → String) → Filters → AuditRow → Bool
shows lower f r =
    if not (f.status_filter == "all") && not (r.status == f.status_filter)
    then false
    else if f.dlp_only && not r.dlp
    then false
    else if not (f.search == "")
    then finds lower (lower f.search) r
    else true

unfoldable pub shown_rows : (lower : String → String) → Filters → List AuditRow → List AuditRow
unfolding includes
shown_rows lower f rows = keep (shows lower f) rows
