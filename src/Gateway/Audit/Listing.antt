-- ===== src/Gateway/Audit/Listing.antt =====
-- The statements of the audit log (services/api-gateway/src/routes/audit.ts).
use ai_gcm.Js.{Value, get, truthy}
use ai_gcm.Sql.Numbering.{IsNumbered, by_org-IsNumbered, push_if-IsNumbered, fixed_if-IsNumbered}
use ai_gcm.Gateway.Listing.{IsBound, page-IsBound}
use ai_gcm.Gateway.Audit.{audit_filter, count_events, select_events}

-- Whatever the query, the filter's placeholders are its parameters in order, and its first
-- condition holds the rows to the organisation of the caller.
pub audit_filter-IsNumbered : (org_id q : Value) → IsNumbered org_id (audit_filter org_id q)
unfolding audit_filter
audit_filter-IsNumbered org_id q =
    fixed_if-IsNumbered (truthy (get q "dlp_only")) "dlp_violation = TRUE" _ (
      push_if-IsNumbered _ _ _ (truthy (get q "status")) _ (
        push_if-IsNumbered _ _ _ (truthy (get q "model")) _ (
          push_if-IsNumbered _ _ _ (truthy (get q "provider")) _ (
            push_if-IsNumbered _ _ _ (truthy (get q "team_id")) _ (
              push_if-IsNumbered _ _ _ (truthy (get q "user_id")) _ (
                push_if-IsNumbered _ _ _ (truthy (get q "end")) _ (
                  push_if-IsNumbered _ _ _ (truthy (get q "start")) _
                    (by_org-IsNumbered org_id))))))))

-- Whatever the query, both statements of GET /audit name each of their parameters exactly once
-- and in order.
pub audit-IsBound :
    (org_id q : Value)
    → IsBound (count_events (audit_filter org_id q))
      × IsBound (select_events q (audit_filter org_id q))
audit-IsBound org_id q =
    let w = audit_filter-IsNumbered org_id q in
    (
      w.numbered,
      page-IsBound "" " ORDER BY created_at DESC LIMIT $" " OFFSET $" (audit_filter org_id q)
          (get q "limit") (get q "offset") w,
    )
