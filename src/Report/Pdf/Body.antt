-- ===== src/Report/Pdf/Body.antt =====
-- The table, the bars and the foot of a PDF report, and the whole drawing
-- (services/report-service/src/renderer/pdf.ts).
use Prim.Native.String.{◌++◌ as ◌<>◌}
use ai_gcm.Base.{ℕ, ◌%◌, String, some, none, List, [], ◌∷◌, take, nat_eq, if◌then◌else◌}
use ai_gcm.Effect.{await, ◌>>=◌, ◌>>◌}
use ai_gcm.Report.Pdf.{
  Doubles, pipe, finish, rect, fill, fill_color, font, font_size, text, move_down, read_y,
  read_page_width, read_page_height, write_y, Row, ReportData, brand_dark, brand_blue, brand_light,
  text_muted, slice_units, pad_end, Drawing, each, plain_text, within, whole, format_tokens,
  dollars, draw_header, draw_title, draw_kpis,
}

-- A cell of a line of the table, with its entries of colX and widths.
pub record Cell : Type 0 where
  pub content : String
  pub col_x : ℕ
  pub width : ℕ

abbrev pub cells : (name requests tokens cost share : String) → List Cell
cells name requests tokens cost share =
    record { content = name; col_x = 60; width = 140 }
    ∷ record { content = requests; col_x = 200; width = 110 }
    ∷ record { content = tokens; col_x = 310; width = 90 }
    ∷ record { content = cost; col_x = 400; width = 70 }
    ∷ record { content = share; col_x = 470; width = 65 }
    ∷ []

module _ {F : Type 0} (js : Doubles F) where
  -- Each text is placed above where the one before it left the document.
  abbrev pub draw_cell : (lift : ℕ) → ℕ → Cell → Drawing F
  draw_cell lift i c = do
    y ← await read_y
    await (
        text c.content (some (js.add (whole js c.col_x) (whole js 4)))
          (some (js.sub y (whole js lift)))
          (within (whole js c.width) (if nat_eq i 0 then "left" else "right")))

  abbrev pub draw_table_header : (page_width : F) → Drawing F
  draw_table_header page_width = do
    await (fill_color brand_dark)
    await (font_size 13)
    await (font "Helvetica-Bold")
    await (text "Cost Breakdown" (some (whole js 60)) none plain_text)
    await (move_down (js.dec 4 1))
    y ← await read_y
    await (rect (whole js 60) y page_width (whole js 22))
    await (fill brand_dark)
    await (fill_color "#FFFFFF")
    await (font_size 9)
    await (font "Helvetica-Bold")
    each (draw_cell 17) 0 (cells "Name" "Requests" "Tokens" "Cost (USD)" "Share")
    y' ← await read_y
    await (write_y (js.add y' (whole js 7)))

  abbrev pub row_cells : Row F → List Cell
  row_cells row =
      cells row.label (js.to_locale_string row.request_count) (format_tokens js row.total_tokens)
        (dollars js 4 row.cost_usd) (js.to_fixed row.pct 1 <> "%")

  abbrev pub draw_row : (page_width : F) → ℕ → Row F → Drawing F
  draw_row page_width idx row = do
    y ← await read_y
    await (rect (whole js 60) y page_width (whole js 20))
    await (fill (if nat_eq (idx % 2) 0 then "#FFFFFF" else brand_light))
    await (fill_color brand_dark)
    await (font_size 9)
    await (font "Helvetica")
    each (draw_cell 14) 0 (row_cells row)
    y' ← await read_y
    await (write_y (js.add y' (whole js 6)))

  -- `Math.max(...rows.map(r => r.costUsd), 0.001)`.
  abbrev pub max_cost : List (Row F) → F
  max_cost [] = js.dec 1 3
  max_cost (row ∷ rows) = js.max row.cost_usd (max_cost rows)

  abbrev pub bar_label : String → String
  bar_label label = pad_end 26 (slice_units 25 label)

  -- `continued: false` is pdfkit's default.
  abbrev pub draw_bar : (bar_max_width highest : F) → ℕ → Row F → Drawing F
  draw_bar bar_max_width highest i row =
      let bar_w = js.round (js.mul (js.div row.cost_usd highest) bar_max_width) in
      do
        await (fill_color text_muted)
        await (font_size 8)
        await (font "Helvetica")
        y ← await read_y
        await (
            text (bar_label row.label) (some (whole js 60)) (some (js.add y (whole js 1)))
              (record { width = some (whole js 95); align = none }))
        y' ← await read_y
        await (
            rect (whole js 158) (js.sub y' (whole js 10)) (js.max bar_w (whole js 2)) (whole js 11))
        await (fill brand_blue)
        await (fill_color brand_dark)
        await (font_size 8)
        await (
            text (dollars js 2 row.cost_usd)
              (some (js.add (js.add (whole js 162) bar_w) (whole js 4)))
              (some (js.add (js.sub y' (whole js 10)) (whole js 1))) plain_text)
        await (move_down (js.dec 6 1))

  abbrev pub draw_bars : (page_width : F) → List (Row F) → Drawing F
  draw_bars page_width rows = do
    await (move_down (js.dec 15 1))
    await (fill_color brand_dark)
    await (font_size 13)
    await (font "Helvetica-Bold")
    await (text "Visual Breakdown" none none plain_text)
    await (move_down (js.dec 4 1))
    each (draw_bar (js.sub page_width (whole js 100)) (max_cost rows)) 0 (take 10 rows)

  abbrev pub draw_footer : Drawing F
  draw_footer = do
    h ← await read_page_height
    w ← await read_page_width
    await (rect (whole js 0) (js.sub h (whole js 50)) w (whole js 50))
    await (fill brand_dark)
    await (fill_color "#94A3B8")
    await (font_size 8)
    w' ← await read_page_width
    await (
        text "AI-GCM Platform  •  Confidential  •  Do not distribute externally"
          (some (whole js 60)) (some (js.add (js.sub h (whole js 50)) (whole js 18)))
          (within (js.sub w' (whole js 120)) "center"))

  -- What renderPDF does with the document before its promise settles.
  unfoldable pub render_pdf : (utc : String → String) → ReportData F → Drawing F
  render_pdf utc d = do
    await pipe
    w ← await read_page_width
    draw_header js utc d
    draw_title js d
    draw_kpis js (js.sub w (whole js 120)) d
    draw_table_header (js.sub w (whole js 120))
    each (draw_row (js.sub w (whole js 120))) 0 (take 20 d.rows)
    draw_bars (js.sub w (whole js 120)) d.rows
    draw_footer
    await finish
