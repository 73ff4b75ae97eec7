-- ===== src/Report/Pdf/Texts.antt =====
-- The texts of a PDF report (services/report-service/src/renderer/pdf.ts).
use Prim.Native.String.{◌++◌ as ◌<>◌}
use mathlib.Core.Path.{subst}
use ai_gcm.Base.{ℕ, suc, String, ◌≡◌, refl, sym, ap, ◌∙◌, List, [], ◌∷◌, ◌++◌, take}
use ai_gcm.Effect.{ok, await, ◌>>◌}
use ai_gcm.Effect.Run.{run, run-bind, continue}
use ai_gcm.Report.Pdf.{
  Doubles, Call, Answer, text, Row, ReportData, Drawing, each, whole, finish, pipe, read_page_width,
  format_tokens, draw_header, draw_title, draw_kpis,
}
use ai_gcm.Report.Pdf.Labels.{IsCount, IsLabel, format_tokens-IsCount, bar_label-IsLabel}
use ai_gcm.Report.Pdf.Body.{
  bar_label, draw_row, max_cost, draw_bar, draw_bars, draw_table_header, draw_footer, render_pdf,
}

-- The texts that were drawn, the first one first, before those given.
abbrev pub shown : {F : Type 0} → List (Call F) → List String → List String
shown [] rest = rest
shown (text s x y o ∷ h) rest = shown h (s ∷ rest)
shown (_ ∷ h) rest = shown h rest

-- What a text of a report is to be: itself, the short form of a count, or the label of a name.
pub data Expected (F : Type 0) : Type 0 where
  exactly : String → Expected F
  count : F → Expected F
  label : String → Expected F

abbrev pub gather : {A B : Type 0} → (A → List B) → List A → List B
gather f [] = []
gather f (a ∷ as') = f a ++ gather f as'

module _ {F : Type 0} (js : Doubles F) where
  abbrev pub Is : Expected F → String → Type 0
  Is (exactly s) t = t ≡ s
  Is (count n) t = IsCount js n t
  Is (label name) t = IsLabel name t

  -- The texts are those expected, in order.
  abbrev pub Reads : List (Expected F) → List String → Type 0
  Reads [] [] = Unit
  Reads (e ∷ es) (t ∷ ts) = Is e t × Reads es ts
  Reads [] (t ∷ ts) = ⊥
  Reads (e ∷ es) [] = ⊥

  abbrev text_of : Expected F → String
  text_of (exactly s) = s
  text_of (count n) = format_tokens js n
  text_of (label name) = bar_label js name

  -- The texts that are drawn, before those given.
  abbrev texts_of : List (Expected F) → List String → List String
  texts_of [] rest = rest
  texts_of (e ∷ es) rest = text_of e ∷ texts_of es rest

  text_of-Is : (e : Expected F) → Is e (text_of e)
  text_of-Is (exactly s) = refl
  text_of-Is (count n) = format_tokens-IsCount js n
  text_of-Is (label name) = bar_label-IsLabel js name

  texts_of-Reads : (es : List (Expected F)) → Reads es (texts_of es [])
  texts_of-Reads [] = tt
  texts_of-Reads (e ∷ es) = (text_of-Is e, texts_of-Reads es)

  texts_of-append :
      (es fs : List (Expected F)) (rest : List String)
      → texts_of (es ++ fs) rest ≡ texts_of es (texts_of fs rest)
  texts_of-append [] fs rest = refl
  texts_of-append (e ∷ es) fs rest = ap (λ l. text_of e ∷ l) (texts_of-append es fs rest)

-- What one part of the drawing shows, when no call throws.
module _ {F : Type 0} (js : Doubles F) (answer : List (Call F) → (c : Call F) → Answer c) where
  pub record Shows (p : Drawing F) (texts : List (Expected F)) (h : List (Call F)) : Type 0 where
    pub after : List (Call F)
    pub ran : run (λ h' c. ok (answer h' c)) h p ≡ (ok tt, after)
    pub drawn : (rest : List String) → shown after rest ≡ shown h (texts_of js texts rest)

  Shows-then :
      (p q : Drawing F) (ts us : List (Expected F))
      → ((h : List (Call F)) → Shows p ts h)
      → ((h : List (Call F)) → Shows q us h)
      → (h : List (Call F)) → Shows (p >> q) (ts ++ us) h
  Shows-then p q ts us a b h =
      let first = a h in
      let second = b first.after in
      record {
        after = second.after;
        ran =
            run-bind (λ h' c. ok (answer h' c)) h p (λ _. q)
            ∙ (ap (continue (λ h' c. ok (answer h' c)) (λ _. q)) first.ran ∙ second.ran);
        drawn = λ rest.
            second.drawn rest
            ∙ (first.drawn (texts_of js us rest)
                ∙ ap (shown h) (sym (texts_of-append js ts us rest)));
      }

  Shows-each :
      {A : Type 0} (f : ℕ → A → Drawing F) (ts : A → List (Expected F))
      → ((i : ℕ) (a : A) (h : List (Call F)) → Shows (f i a) (ts a) h)
      → (i : ℕ) (as' : List A) (h : List (Call F)) → Shows (each f i as') (gather ts as') h
  Shows-each f ts each_shows i [] h = record { after = h; ran = refl; drawn = λ rest. refl }
  Shows-each f ts each_shows i (a ∷ as') h =
      Shows-then (f i a) (each f (suc i) as') (ts a) (gather ts as') (each_shows i a)
        (Shows-each f ts each_shows (suc i) as') h

module _ {F : Type 0} (js : Doubles F) (utc : String → String) where
  abbrev pub row_texts : Row F → List (Expected F)
  row_texts r =
      exactly r.label
      ∷ exactly (js.to_locale_string r.request_count)
      ∷ count r.total_tokens
      ∷ exactly ("$" <> js.to_fixed r.cost_usd 4)
      ∷ exactly (js.to_fixed r.pct 1 <> "%")
      ∷ []

  abbrev pub bar_texts : Row F → List (Expected F)
  bar_texts r = label r.label ∷ exactly ("$" <> js.to_fixed r.cost_usd 2) ∷ []

  abbrev pub header_texts : ReportData F → List (Expected F)
  header_texts d =
      exactly "AI Governance & Cost Management"
      ∷ exactly "Cost Intelligence Report"
      ∷ exactly ("Generated: " <> utc d.generated_at)
      ∷ []

  abbrev pub title_texts : ReportData F → List (Expected F)
  title_texts d = exactly d.org_name ∷ exactly (d.period_start <> ("  →  " <> d.period_end)) ∷ []

  abbrev pub total_texts : ReportData F → List (Expected F)
  total_texts d =
      exactly ("$" <> js.to_fixed d.total_cost_usd 2)
      ∷ exactly "Total Cost"
      ∷ exactly (js.to_locale_string d.total_requests)
      ∷ exactly "Requests"
      ∷ count d.total_tokens
      ∷ exactly "Tokens"
      ∷ exactly (js.to_fixed (js.mul d.cache_hit_rate (js.dec 100 0)) 1 <> "%")
      ∷ exactly "Cache Hit"
      ∷ []

  abbrev pub column_texts : List (Expected F)
  column_texts =
      exactly "Cost Breakdown"
      ∷ exactly "Name"
      ∷ exactly "Requests"
      ∷ exactly "Tokens"
      ∷ exactly "Cost (USD)"
      ∷ exactly "Share"
      ∷ []

  abbrev pub footer_texts : List (Expected F)
  footer_texts = exactly "AI-GCM Platform  •  Confidential  •  Do not distribute externally" ∷ []

  -- The texts of a report, from the top of the first page to its foot.
  abbrev pub report_texts : ReportData F → List (Expected F)
  report_texts d =
      header_texts d
      ++ (title_texts d
          ++ (total_texts d
              ++ (column_texts
                  ++ (gather row_texts (take 20 d.rows)
                      ++ ((exactly "Visual Breakdown" ∷ gather bar_texts (take 10 d.rows))
                          ++ footer_texts)))))

  module _ (answer : List (Call F) → (c : Call F) → Answer c) where
    bars-Shows :
        (w : F) (rows : List (Row F)) (h : List (Call F))
        → Shows js answer
            (draw_bars js w rows)
            (exactly "Visual Breakdown" ∷ gather bar_texts (take 10 rows))
            h
    bars-Shows w rows h =
        let bars =
          Shows-each js answer (draw_bar js (js.sub w (whole js 100)) (max_cost js rows)) bar_texts
            (λ i a h'. record { after = _; ran = refl; drawn = λ rest. refl }) 0 (take 10 rows) _ in
        record { after = bars.after; ran = bars.ran; drawn = bars.drawn }

    body-Shows :
        (w : F) (d : ReportData F) (h : List (Call F))
        → Shows js answer
            (draw_header js utc d
              >> (draw_title js d
                  >> (draw_kpis js w d
                      >> (draw_table_header js w
                          >> (each (draw_row js w) 0 (take 20 d.rows)
                              >> (draw_bars js w d.rows >> (draw_footer js >> await finish)))))))
            (report_texts d)
            h
    body-Shows w d =
        let foot : Drawing F = draw_footer js >> await finish in
        let bars : Drawing F = draw_bars js w d.rows >> foot in
        let rows : Drawing F = each (draw_row js w) 0 (take 20 d.rows) >> bars in
        let table : Drawing F = draw_table_header js w >> rows in
        let totals : Drawing F = draw_kpis js w d >> table in
        let title : Drawing F = draw_title js d >> totals in
        let bar_lines : List (Expected F) =
          (exactly "Visual Breakdown" ∷ gather bar_texts (take 10 d.rows)) ++ footer_texts in
        let row_lines : List (Expected F) = gather row_texts (take 20 d.rows) ++ bar_lines in
        let table_lines : List (Expected F) = column_texts ++ row_lines in
        let total_lines : List (Expected F) = total_texts d ++ table_lines in
        Shows-then js answer (draw_header js utc d) title (header_texts d)
          (title_texts d ++ total_lines)
          (λ h. record { after = _; ran = refl; drawn = λ rest. refl })
          (Shows-then js answer (draw_title js d) totals (title_texts d) total_lines
            (λ h. record { after = _; ran = refl; drawn = λ rest. refl })
            (Shows-then js answer (draw_kpis js w d) table (total_texts d) table_lines
              (λ h. record { after = _; ran = refl; drawn = λ rest. refl })
              (Shows-then js answer (draw_table_header js w) rows column_texts row_lines
                (λ h. record { after = _; ran = refl; drawn = λ rest. refl })
                (Shows-then js answer (each (draw_row js w) 0 (take 20 d.rows)) bars
                  (gather row_texts (take 20 d.rows)) bar_lines
                  (Shows-each js answer (draw_row js w) row_texts
                    (λ i r h. record { after = _; ran = refl; drawn = λ rest. refl }) 0
                    (take 20 d.rows))
                  (Shows-then js answer (draw_bars js w d.rows) foot
                    (exactly "Visual Breakdown" ∷ gather bar_texts (take 10 d.rows)) footer_texts
                    (bars-Shows w d.rows)
                    (λ h. record { after = _; ran = refl; drawn = λ rest. refl }))))))

-- When no call of the document throws, whatever positions it answers, a PDF report shows its three
-- headings, the organisation and the period, the total cost, the requests, the tokens and the cache
-- hits with their labels, the heads of the five columns, the five texts of each of the first twenty
-- rows in order, a label and a cost for each of the first ten rows in order, and the foot, and
-- nothing else. A count of tokens is given in millions from a million on, in thousands from a
-- thousand on, and else in full; a label is as much of a name as 25 units have room for, with blanks
-- up to 26.
pub render_pdf-shows :
    {F : Type 0} (js : Doubles F) (utc : String → String) (d : ReportData F)
    (answer : List (Call F) → (c : Call F) → Answer c)
    → ((run (λ h c. ok (answer h c)) [] (render_pdf js utc d)).0 ≡ ok tt)
      × Reads js
          (report_texts js utc d)
          (shown (run (λ h c. ok (answer h c)) [] (render_pdf js utc d)).1 [])
unfolding render_pdf
render_pdf-shows {F} js utc d answer =
    let w : F = answer (pipe ∷ []) read_page_width in
    let all = body-Shows js utc answer (js.sub w (whole js 120)) d (read_page_width ∷ pipe ∷ []) in
    (
      ap (λ x. x.0) all.ran,
      subst (Reads js (report_texts js utc d)) (sym (ap (λ x. shown x.1 []) all.ran ∙ all.drawn []))
          (texts_of-Reads js (report_texts js utc d)),
    )
