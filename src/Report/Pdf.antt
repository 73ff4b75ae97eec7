-- ===== src/Report/Pdf.antt =====
-- The drawing of a PDF report (services/report-service/src/renderer/pdf.ts), as the calls of
-- pdfkit's document in their order. `F` and `js` are JavaScript's numbers with their formats,
-- `utc` is `new Date(s).toUTCString()`. A colour and a font are pdfkit's texts.
pub mod Body
pub mod Labels
pub mod Texts
mod Tests
use Prim.Native.Char.{Char, code}
use Prim.Native.String.{◌++◌ as ◌<>◌, [] as ε, ◌∷◌ as ◌∷s◌}
use ai_gcm.Base.{
  ℕ, zero, suc, ◌+◌, ◌-◌, String, Bool, true, false, Option, none, some, List, [], ◌∷◌, map, leb,
  take, nat_eq, if◌then◌else◌,
}
use ai_gcm.Effect.{Prog, done, await, ◌>>=◌, ◌>>◌}

-- `dec 35 1` is 3.5.
pub record Doubles (F : Type 0) : Type 0 where
  pub dec : (digits scale : ℕ) → F
  pub add : F → F → F
  pub sub : F → F → F
  pub mul : F → F → F
  pub div : F → F → F
  pub max : F → F → F
  pub round : F → F
  pub at_least : F → F → Bool
  pub to_fixed : F → ℕ → String
  pub to_locale_string : F → String

pub record TextOptions (F : Type 0) : Type 0 where
  pub width : Option F
  pub align : Option String

-- The methods of the document, and the reads and writes of its `y` and of its page.
pub data Call (F : Type 0) : Type 0 where
  pipe finish : Call F
  rect : (x y width height : F) → Call F
  fill stroke fill_color font : String → Call F
  font_size : ℕ → Call F
  text : String → (x y : Option F) → TextOptions F → Call F
  move_down : F → Call F
  read_y read_page_width read_page_height : Call F
  write_y : F → Call F

abbrev pub Answer : {F : Type 0} → Call F → Type 0
Answer {F} read_y = F
Answer {F} read_page_width = F
Answer {F} read_page_height = F
Answer {F} _ = Unit

pub record Row (F : Type 0) : Type 0 where
  pub label : String
  pub request_count : F
  pub total_tokens : F
  pub cost_usd : F
  pub pct : F

pub record ReportData (F : Type 0) : Type 0 where
  pub org_name : String
  pub period_start : String
  pub period_end : String
  pub total_cost_usd : F
  pub total_requests : F
  pub total_tokens : F
  pub cache_hit_rate : F
  pub rows : List (Row F)
  pub generated_at : String

abbrev pub brand_dark : String
brand_dark = "#0F172A"

abbrev pub brand_blue : String
brand_blue = "#3B82F6"

abbrev pub brand_light : String
brand_light = "#F8FAFC"

abbrev pub accent : String
accent = "#10B981"

abbrev pub text_muted : String
text_muted = "#64748B"

-- UTF-16 units of a character.
abbrev pub units_of : Char → ℕ
units_of c = if leb 65536 (code c) then 2 else 1

-- `s.slice(0, n)`, in UTF-16 units; of a character that it would cut in two nothing is kept.
abbrev pub slice_units : ℕ → String → String
slice_units n ε = ε
slice_units n (c ∷s s) = if leb (units_of c) n then c ∷s slice_units (n - units_of c) s else ε

abbrev pub spaces : ℕ → String
spaces zero = ε
spaces (suc n) = " " <> spaces n

-- `s.padEnd(n)`.
abbrev pub pad_end : ℕ → String → String
pad_end n ε = spaces n
pad_end n (c ∷s s) = c ∷s pad_end (n - units_of c) s

pub record Kpi : Type 0 where
  pub label : String
  pub value : String
  pub color : String

abbrev pub Drawing : (F : Type 0) → Type 0
Drawing F = Prog (Call F) Answer (Unit {0})

module _ {F : Type 0} where
  -- `forEach`, from an index on.
  abbrev pub each : {A : Type 0} → (ℕ → A → Drawing F) → ℕ → List A → Drawing F
  each f i [] = done tt
  each f i (a ∷ as') = f i a >> each f (suc i) as'

  abbrev pub plain_text : TextOptions F
  plain_text = record { width = none; align = none }

  abbrev pub aligned : String → TextOptions F
  aligned a = record { width = none; align = some a }

  abbrev pub within : F → String → TextOptions F
  within w a = record { width = some w; align = some a }

module _ {F : Type 0} (js : Doubles F) where
  abbrev pub whole : ℕ → F
  whole n = js.dec n 0

  -- formatTokens.
  abbrev pub format_tokens : F → String
  format_tokens n =
      if js.at_least n (whole 1000000)
      then js.to_fixed (js.div n (whole 1000000)) 1 <> "M"
      else (if js.at_least n (whole 1000)
          then js.to_fixed (js.div n (whole 1000)) 1 <> "K"
          else js.to_locale_string n)

  abbrev pub dollars : ℕ → F → String
  dollars digits n = "$" <> js.to_fixed n digits

  -- The band at the top, with the day of the report.
  abbrev pub draw_header : (utc : String → String) → ReportData F → Drawing F
  draw_header utc d = do
    w ← await read_page_width
    await (rect (whole 0) (whole 0) w (whole 90))
    await (fill brand_dark)
    await (fill_color "#FFFFFF")
    await (font_size 22)
    await (font "Helvetica-Bold")
    await (
        text "AI Governance & Cost Management" (some (whole 60)) (some (whole 25)) (aligned "left"))
    await (font_size 11)
    await (font "Helvetica")
    await (fill_color "#94A3B8")
    await (text "Cost Intelligence Report" (some (whole 60)) (some (whole 52)) plain_text)
    await (fill_color "#FFFFFF")
    await (font_size 10)
    await (
        text ("Generated: " <> utc d.generated_at) (some (whole 60)) (some (whole 68))
          (aligned "right"))

  abbrev pub draw_title : ReportData F → Drawing F
  draw_title d = do
    await (move_down (js.dec 35 1))
    await (fill_color brand_dark)
    await (font_size 16)
    await (font "Helvetica-Bold")
    await (text d.org_name none none (aligned "center"))
    await (font_size 12)
    await (font "Helvetica")
    await (fill_color text_muted)
    await (text (d.period_start <> ("  →  " <> d.period_end)) none none (aligned "center"))
    await (move_down (js.dec 15 1))

  abbrev pub kpis : ReportData F → List Kpi
  kpis d =
      record { label = "Total Cost"; value = dollars 2 d.total_cost_usd; color = brand_blue }
      ∷ record { label = "Requests"; value = js.to_locale_string d.total_requests; color = accent }
      ∷ record { label = "Tokens"; value = format_tokens d.total_tokens; color = "#8B5CF6" }
      ∷ record {
        label = "Cache Hit";
        value = js.to_fixed (js.mul d.cache_hit_rate (whole 100)) 1 <> "%";
        color = "#F59E0B";
      }
      ∷ []

  abbrev pub draw_kpi : (kpi_y kpi_w : F) → ℕ → Kpi → Drawing F
  draw_kpi kpi_y kpi_w i kpi =
      let x = js.add (whole 60) (js.mul (whole i) (js.add kpi_w (whole 10))) in
      let inner = within (js.sub kpi_w (whole 16)) "center" in
      do
        await (rect x kpi_y kpi_w (whole 70))
        await (fill brand_light)
        await (stroke "#E2E8F0")
        await (fill_color kpi.color)
        await (font_size 20)
        await (font "Helvetica-Bold")
        await (text kpi.value (some (js.add x (whole 8))) (some (js.add kpi_y (whole 12))) inner)
        await (fill_color text_muted)
        await (font_size 9)
        await (font "Helvetica")
        await (text kpi.label (some (js.add x (whole 8))) (some (js.add kpi_y (whole 44))) inner)

  abbrev pub draw_kpis : (page_width : F) → ReportData F → Drawing F
  draw_kpis page_width d = do
    kpi_y ← await read_y
    each (draw_kpi kpi_y (js.div (js.sub page_width (whole 30)) (whole 4))) 0 (kpis d)
    await (write_y (js.add kpi_y (whole 80)))
    await (move_down (whole 1))
