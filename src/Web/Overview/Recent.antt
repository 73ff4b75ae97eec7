-- ===== src/Web/Overview/Recent.antt =====
-- The figures of the month to date and the last seven days (apps/web/src/app/(dashboard)/overview/page.tsx).
use ai_gcm.Base.{[], ◌∷◌}
use ai_gcm.Web.Overview.{PeriodData, kpi, point, share, team, pos, negsuc}

abbrev pub mtd_data : PeriodData
mtd_data = record {
  label = "Month to Date";
  subtitle = "June 1 - June 15, 2026 · Acme Corp";
  provider_subtitle = "MTD cost by provider";
  kpis = record {
    spend = kpi "Total Spend MTD" "$24,891" (pos 12) "$12,609 remaining of $37.5k";
    utilization = kpi "Budget Utilization" "67%" (negsuc 2) "$37,500 total limit";
    users = kpi "Active Users" "342" (pos 23) "↑ 23 this month";
    violations = kpi "Policy Violations" "3" (negsuc 7) "↓ 8 vs last month";
  };
  cost_trend =
      point "Jun 1" 1200 800 400
      ∷ point "Jun 3" 1400 950 380
      ∷ point "Jun 6" 1100 700 420
      ∷ point "Jun 9" 1800 1100 500
      ∷ point "Jun 12" 2100 1300 600
      ∷ point "Jun 14" 1950 1200 550
      ∷ point "Jun 15" 2400 1450 680
      ∷ [];
  provider_breakdown =
      share "Anthropic" 12450 "#8b5cf6"
      ∷ share "OpenAI" 7800 "#3b82f6"
      ∷ share "Google" 3200 "#10b981"
      ∷ share "Azure" 1441 "#f59e0b"
      ∷ [];
  teams =
      team "Engineering" 12450 15000 "claude-3-5-sonnet" 83
      ∷ team "Product" 4200 6000 "gpt-4o" 70
      ∷ team "Data Science" 5100 5500 "claude-3-opus" 93
      ∷ team "Customer Ops" 1800 4000 "gpt-4o-mini" 45
      ∷ team "Sales" 1341 3000 "gemini-2.0-flash" 45
      ∷ [];
}

abbrev pub last_7d_data : PeriodData
last_7d_data = record {
  label = "Last 7 Days";
  subtitle = "June 9 - June 15, 2026 · Acme Corp";
  provider_subtitle = "Last 7 days cost by provider";
  kpis = record {
    spend = kpi "Total Spend (7d)" "$6,840" (negsuc 4) "vs prior 7 days ($7,200)";
    utilization = kpi "Weekly Pace" "18.2%" (negsuc 1) "On track with monthly cap";
    users = kpi "Active Users (7d)" "289" (pos 14) "↑ 36 active this week";
    violations = kpi "Policy Violations (7d)" "1" (negsuc 66) "↓ 2 vs previous week";
  };
  cost_trend =
      point "Jun 9" 480 310 140
      ∷ point "Jun 10" 520 340 160
      ∷ point "Jun 11" 490 290 150
      ∷ point "Jun 12" 560 380 180
      ∷ point "Jun 13" 610 410 210
      ∷ point "Jun 14" 580 390 190
      ∷ point "Jun 15" 640 440 210
      ∷ [];
  provider_breakdown =
      share "Anthropic" 3420 "#8b5cf6"
      ∷ share "OpenAI" 2180 "#3b82f6"
      ∷ share "Google" 890 "#10b981"
      ∷ share "Azure" 350 "#f59e0b"
      ∷ [];
  teams =
      team "Engineering" 3420 3750 "claude-3-5-sonnet" 91
      ∷ team "Data Science" 1380 1375 "claude-3-opus" 100
      ∷ team "Product" 1150 1500 "gpt-4o" 77
      ∷ team "Customer Ops" 490 1000 "gpt-4o-mini" 49
      ∷ team "Sales" 400 750 "gemini-2.0-flash" 53
      ∷ [];
}
