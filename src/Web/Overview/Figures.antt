-- ===== src/Web/Overview/Figures.antt =====
-- The figures of the overview page agree with each other
-- (apps/web/src/app/(dashboard)/overview/page.tsx).
use Prim.Native.Char.{code}
use Prim.Native.String.{[], ◌∷◌}
use ai_gcm.Base.{
  leb, ◌&&◌, if◌then◌else◌, ◌-◌, ℕ, ◌+◌, ◌*◌, ◌/◌, String, ◌≡◌, refl, List, [], ◌∷◌, All,
}
use ai_gcm.Web.Overview.{PeriodKey, mtd, last_7d, last_30d, qtd, PeriodData, ProviderShare, TeamRow}
use ai_gcm.Web.Overview.Recent.{mtd_data, last_7d_data}
use ai_gcm.Web.Overview.Longer.{last_30d_data, qtd_data}

-- PERIOD_DATA[period].
abbrev pub period_data : PeriodKey → PeriodData
period_data mtd = mtd_data
period_data last_7d = last_7d_data
period_data last_30d = last_30d_data
period_data qtd = qtd_data

abbrev pub sum_shares : List ProviderShare → ℕ
sum_shares [] = 0
sum_shares (p ∷ ps) = p.value + sum_shares ps

abbrev pub sum_spend : List TeamRow → ℕ
sum_spend [] = 0
sum_spend (t ∷ ts) = t.spend + sum_spend ts

-- The number that the digits of a text make, other characters left out.
abbrev digit_on : ℕ → ℕ → ℕ
digit_on acc c = if leb 48 c && leb c 57 then acc * 10 + (c - 48) else acc

abbrev amount_from : ℕ → String → ℕ
amount_from acc [] = acc
amount_from acc (c ∷ s) = amount_from (digit_on acc (code c)) s

abbrev pub amount_of : String → ℕ
amount_of s = amount_from 0 s

-- The percentage is the spend over the budget, rounded to the nearest whole number.
abbrev pub IsRounded : TeamRow → Type 0
IsRounded t = (200 * t.spend + t.budget) / (2 * t.budget) ≡ t.pct

-- In every period, the shares of the providers and the spends of the teams have the same sum, which
-- is the amount that the first card shows, and every team's percentage is its spend over its budget, rounded to the nearest whole number.
pub figures_agree :
    (p : PeriodKey)
    → ((sum_shares (period_data p).provider_breakdown ≡ sum_spend (period_data p).teams)
        × (amount_of (period_data p).kpis.spend.value ≡ sum_spend (period_data p).teams))
      × All IsRounded (period_data p).teams
figures_agree mtd = ((refl, refl), (refl, (refl, (refl, (refl, (refl, tt))))))
figures_agree last_7d = ((refl, refl), (refl, (refl, (refl, (refl, (refl, tt))))))
figures_agree last_30d = ((refl, refl), (refl, (refl, (refl, (refl, (refl, tt))))))
figures_agree qtd = ((refl, refl), (refl, (refl, (refl, (refl, (refl, tt))))))
