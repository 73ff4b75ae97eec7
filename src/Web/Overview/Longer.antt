-- ===== src/Web/Overview/Longer.antt =====
-- The figures of the last thirty days and the quarter to date (apps/web/src/app/(dashboard)/overview/page.tsx).
use ai_gcm.Base.{[], ◌∷◌}
use ai_gcm.Web.Overview.{PeriodData, kpi, point, share, team, pos, negsuc}

abbrev pub last_30d_data : PeriodData
last_30d_data = record {
  label = "Last 30 Days";
  subtitle = "May 17 - June 15, 2026 · Acme Corp";
  provider_subtitle = "Trailing 30 days cost by provider";
  kpis = record {
    spend = kpi "Total Spend (30d)" "$48,210" (pos 18) "vs prior 30d ($40,850)";
    utilization = kpi "Budget Utilization" "85.7%" (pos 12) "$56,250 rolling budget";
    users = kpi "Active Users (30d)" "415" (pos 31) "↑ 98 new active users";
    violations = kpi "Policy Violations (30d)" "7" (pos 2) "↑ 1 vs prior window";
  };
  cost_trend =
      point "May 17-21" 3400 2100 850
      ∷ point "May 22-26" 3800 2400 950
      ∷ point "May 27-31" 3600 2300 900
      ∷ point "Jun 1-5" 4300 2700 1100
      ∷ point "Jun 6-10" 4200 2650 1050
      ∷ point "Jun 11-15" 4800 3050 1260
      ∷ [];
  provider_breakdown =
      share "Anthropic" 24100 "#8b5cf6"
      ∷ share "OpenAI" 15200 "#3b82f6"
      ∷ share "Google" 6110 "#10b981"
      ∷ share "Azure" 2800 "#f59e0b"
      ∷ [];
  teams =
      team "Engineering" 23900 28000 "claude-3-5-sonnet" 85
      ∷ team "Data Science" 10200 11000 "claude-3-opus" 93
      ∷ team "Product" 8100 11500 "gpt-4o" 70
      ∷ team "Customer Ops" 3450 7500 "gpt-4o-mini" 46
      ∷ team "Sales" 2560 5500 "gemini-2.0-flash" 47
      ∷ [];
}

abbrev pub qtd_data : PeriodData
qtd_data = record {
  label = "Quarter to Date";
  subtitle = "Q2 2026 (Apr 1 - Jun 15) · Acme Corp";
  provider_subtitle = "QTD cost by provider";
  kpis = record {
    spend = kpi "Total Spend QTD" "$94,620" (pos 27) "$17,880 remaining of $112.5k";
    utilization = kpi "Q2 Utilization" "84.1%" (pos 8) "$112,500 total Q2 budget";
    users = kpi "Active Users QTD" "512" (pos 45) "↑ 159 since Q1";
    violations = kpi "Policy Violations QTD" "14" (negsuc 18) "↓ 4 vs Q1";
  };
  cost_trend =
      point "Apr W1-2" 6200 3900 1600
      ∷ point "Apr W3-4" 7100 4400 1850
      ∷ point "May W1-2" 8500 5300 2200
      ∷ point "May W3-4" 9100 5700 2350
      ∷ point "Jun W1-2" 10200 6300 2600
      ∷ point "Jun W3" 6400 4000 1700
      ∷ [];
  provider_breakdown =
      share "Anthropic" 47500 "#8b5cf6"
      ∷ share "OpenAI" 29600 "#3b82f6"
      ∷ share "Google" 12300 "#10b981"
      ∷ share "Azure" 5220 "#f59e0b"
      ∷ [];
  teams =
      team "Engineering" 46800 55000 "claude-3-5-sonnet" 85
      ∷ team "Data Science" 20400 21000 "claude-3-opus" 97
      ∷ team "Product" 15900 22000 "gpt-4o" 72
      ∷ team "Customer Ops" 6700 14000 "gpt-4o-mini" 48
      ∷ team "Sales" 4820 11000 "gemini-2.0-flash" 44
      ∷ [];
}
