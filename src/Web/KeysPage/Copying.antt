-- ===== src/Web/KeysPage/Copying.antt =====
-- When the page says that a hash was copied (apps/web/src/app/(dashboard)/keys/page.tsx).
use ai_gcm.Base.{◌<◌, ◌≡◌, ◌⊎◌, none, some, String, List, ◌∷◌}
use ai_gcm.Web.KeysPage.{KeyCard, KeysState}

-- No key is shown as copied; or one is, a timer is left, and the latest text whose writing was asked
-- of the clipboard is its hash.
abbrev pub Shown : KeysState → Type 0
Shown s =
    (s.copied ≡ none)
    ⊎ ((0 < s.timers)
        × ((k : KeyCard) × (s.copied ≡ some k.id)
            × ((earlier : List String) × (s.asked ≡ k.hash ∷ earlier))))
