-- ===== src/Report/Csv/Ending.antt =====
-- How an export ends when calls fail (services/report-service/src/renderer/csv.ts).
use ai_gcm.Base.{true, ℕ, ◌≡◌, ◌⊎◌, refl, ap, inl, inr, List, ◌∷◌}
use ai_gcm.Effect.{Result, ok, err, ok-ne-err, done, throw, await, catch, finally, ◌>>◌}
use ai_gcm.Effect.Run.{run}
use ai_gcm.Effect.Post.{
  Post, Post-await, Post-bind, Anything, recover, run-catch, afterwards, run-finally,
}
use ai_gcm.Report.Calls.{Call, connect, release, open_csv, write_row, end_stream, ReportEnv}
use ai_gcm.Report.Csv.{
  CsvExportOptions, header_row, batch_size, begin, commit, rollback, declare_cursor, export_where,
  copy_batches, copy_steps, stream_csv,
}

-- The calls that end an export: it has committed and given its client back; or it has rolled back
-- and given its client back; or it had none.
abbrev pub Ended : List Call → Result ℕ → List Call → Type 0
Ended h (ok n) h' = (before : List Call) × (h' ≡ end_stream ∷ release ∷ commit ∷ before)
Ended h (err e) h' =
    ((h' ≡ open_csv true ∷ h) ⊎ (h' ≡ write_row header_row ∷ open_csv true ∷ h))
    ⊎ ((h' ≡ connect ∷ write_row header_row ∷ open_csv true ∷ h)
        ⊎ (((before : List Call) × (h' ≡ release ∷ rollback ∷ before))
            ⊎ ((before : List Call) × (h' ≡ end_stream ∷ release ∷ commit ∷ before))))

-- The last call of the steps that return a count.
abbrev Committing : Result ℕ → List Call → Type 0
Committing (ok n) h = (before : List Call) × (h ≡ commit ∷ before)
Committing (err e) h = Unit

-- The same, once a failure has been rolled back.
abbrev Settled : Result ℕ → List Call → Type 0
Settled (ok n) h = (before : List Call) × (h ≡ commit ∷ before)
Settled (err e) h = (before : List Call) × (h ≡ rollback ∷ before)

-- The same, once the client is given back.
abbrev Released : Result ℕ → List Call → Type 0
Released (ok n) h = (before : List Call) × (h ≡ release ∷ commit ∷ before)
Released (err e) h = (before : List Call) × (h ≡ release ∷ rollback ∷ before)

module _ (env : ReportEnv) where
  steps-Committing :
      (fuel : ℕ) (o : CsvExportOptions) (h : List Call) → Post env Committing h (copy_steps fuel o)
  unfolding copy_steps
  steps-Committing fuel o h =
      Post-await env Committing h begin _
        (λ _ _.
          Post-await env Committing (begin ∷ h) (declare_cursor (export_where o)) _
            (λ _ _.
              Post-bind env Anything Committing _ (copy_batches batch_size fuel 0) _ tt
                (λ count h' _.
                  Post-await env Committing h' commit (λ _. done count) (λ _ _. (h', refl))
                    (λ _ _. tt))
                (λ _ _ _. tt))
            (λ _ _. tt))
        (λ _ _. tt)

  recover-Settled :
      (r : Result ℕ) (h : List Call)
      → Committing r h
      → Settled
          (recover env (λ e. await rollback >> throw e) (r, h)).0
          (recover env (λ e. await rollback >> throw e) (r, h)).1
  recover-Settled (ok n) h p = p
  recover-Settled (err e) h p =
      Post-await env Settled h rollback (λ _. throw e) (λ _ _. (h, refl)) (λ _ _. (h, refl))

  module _ (gives_back : (h : List Call) → env h release ≡ ok tt) where
    after-Released :
        (r : Result ℕ) (h : List Call)
        → Settled r h
        → Released
            (afterwards env (await release) (r, h)).0
            (afterwards env (await release) (r, h)).1
    after-Released (ok n) h (before, p) =
        Post-await env Released h release (λ _. done n) (λ _ _. (before, ap (λ l. release ∷ l) p))
          (λ e failed. ok-ne-err (gives_back h) failed)
    after-Released (err e) h (before, p) =
        Post-await env Released h release (λ _. throw e) (λ _ _. (before, ap (λ l. release ∷ l) p))
          (λ e' failed. ok-ne-err (gives_back h) failed)

    copied-Released :
        (fuel : ℕ) (o : CsvExportOptions) (h : List Call)
        → Post env Released h
            (finally (catch (copy_steps fuel o) (λ e. await rollback >> throw e)) (await release))
    copied-Released fuel o h =
        rw
          (run-finally env h (catch (copy_steps fuel o) (λ e. await rollback >> throw e))
            (await release))
          (after-Released _ _ (
            rw (run-catch env h (copy_steps fuel o) (λ e. await rollback >> throw e))
              (recover-Settled _ _ (steps-Committing fuel o h))))

-- An export that returns a count has ended by COMMIT, the release of its client and the end of
-- the stream. One that throws has ended by ROLLBACK and the release, unless no client was
-- obtained, or only the end of the stream failed, after COMMIT and the release; provided that
-- giving the client back to the pool does not throw.
pub export-Ended :
    (env : ReportEnv) (fuel : ℕ) (o : CsvExportOptions) (h : List Call)
    → ((h' : List Call) → env h' release ≡ ok tt)
    → Ended h (run env h (stream_csv fuel o)).0 (run env h (stream_csv fuel o)).1
unfolding stream_csv
export-Ended env fuel o h gives_back =
    Post-await env (Ended h) h (open_csv true) _
      (λ _ _.
        Post-await env (Ended h) (open_csv true ∷ h) (write_row header_row) _
          (λ _ _.
            Post-await env (Ended h) (write_row header_row ∷ open_csv true ∷ h) connect _
              (λ _ _.
                Post-bind env Released (Ended h)
                  (connect ∷ write_row header_row ∷ open_csv true ∷ h)
                  (finally (catch (copy_steps fuel o) (λ e. await rollback >> throw e))
                    (await release))
                  _ (copied-Released env gives_back fuel o _)
                  (λ count h' p.
                    Post-await env (Ended h) h' end_stream (λ _. done count)
                      (λ _ _. (p.0, ap (λ l. end_stream ∷ l) p.1))
                      (λ _ _. inr (inr (inr (p.0, ap (λ l. end_stream ∷ l) p.1)))))
                  (λ e h' p. inr (inr (inl p))))
              (λ _ _. inr (inl refl)))
          (λ _ _. inl (inr refl)))
      (λ _ _. inl (inl refl))
