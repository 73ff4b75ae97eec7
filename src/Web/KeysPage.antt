-- ===== src/Web/KeysPage.antt =====
-- The key page of the dashboard (apps/web/src/app/(dashboard)/keys/page.tsx): its keys, and the
-- button that copies a hash and shows for two seconds that it did.
pub mod Copying
use Prim.Native.Nat.{zero, suc}
use ai_gcm.Base.{
  ℕ, ◌≡◌, String, Bool, true, false, Option, none, some, List, [], ◌∷◌, ◌==◌, if◌then◌else◌,
}

pub record KeyCard : Type 0 where
  pub id : String
  pub provider : String
  pub label : String
  pub preview : String
  pub hash : String
  pub active : Bool
  pub last_used : String
  pub expires : Option String
  pub rotate_at : Option String
  pub models : List String

abbrev pub keys : List KeyCard
keys =
    record {
      id = "1";
      provider = "anthropic";
      label = "Production — Claude";
      preview = "sk-ant-ap1••";
      hash = "a8f3c912••••••••••••••••";
      active = true;
      last_used = "2 min ago";
      expires = none;
      rotate_at = some "2026-08-01";
      models = "claude-3-5-sonnet-20241022" ∷ "claude-3-5-haiku-20241022" ∷ [];
    }
    ∷ record {
      id = "2";
      provider = "openai";
      label = "Production — GPT";
      preview = "sk-proj-••••••";
      hash = "b2d8f441••••••••••••••••";
      active = true;
      last_used = "8 min ago";
      expires = none;
      rotate_at = some "2026-08-15";
      models = "gpt-4o" ∷ "gpt-4o-mini" ∷ "o3" ∷ [];
    }
    ∷ record {
      id = "3";
      provider = "google";
      label = "Production — Gemini";
      preview = "AIzaSy••••••";
      hash = "c5e1a882••••••••••••••••";
      active = true;
      last_used = "1h ago";
      expires = some "2026-09-01";
      rotate_at = none;
      models = "gemini-2.0-flash" ∷ "gemini-2.5-pro" ∷ [];
    }
    ∷ record {
      id = "4";
      provider = "openai";
      label = "Dev / Staging";
      preview = "sk-dev-••••••";
      hash = "d4c9b773••••••••••••••••";
      active = false;
      last_used = "3 days ago";
      expires = none;
      rotate_at = none;
      models = "gpt-4o-mini" ∷ [];
    }
    ∷ []

-- `PROVIDER_COLORS[provider] || fallback`.
abbrev pub provider_color : String → String
provider_color p =
    if p == "anthropic"
    then "from-violet-500 to-purple-600"
    else if p == "openai"
    then "from-blue-500 to-cyan-600"
    else if p == "google"
    then "from-emerald-500 to-teal-600"
    else if p == "azure"
    then "from-amber-500 to-orange-600"
    else "from-slate-500 to-slate-600"

abbrev pub provider_label : String → Option String
provider_label p =
    if p == "anthropic"
    then some "Anthropic"
    else if p == "openai"
    then some "OpenAI"
    else if p == "google"
    then some "Google"
    else if p == "azure"
    then some "Azure"
    else none

-- The state of the page, the writes that were asked of the clipboard, the latest one first, and the
-- number of timers that have not fired. The promise of a write is not awaited, and the page never
-- looks at it: whether the browser grants the write is not known here. The browser has a clipboard.
pub record KeysState : Type 0 where
  pub show_modal : Bool
  pub copied : Option String
  pub asked : List String
  pub timers : ℕ

abbrev pub initial : KeysState
initial = record { show_modal = false; copied = none; asked = []; timers = 0 }

unfoldable pub copy_hash : KeyCard → KeysState → KeysState
copy_hash k s = record s { copied = some k.id; asked = k.hash ∷ s.asked; timers = suc s.timers }

-- What happens: a click on a button, or a timer that fires, where one is left.
pub data Step : KeysState → KeysState → Type 0 where
  opens_modal : (s : KeysState) → Step s (record s { show_modal = true })
  closes_modal : (s : KeysState) → Step s (record s { show_modal = false })
  copies : (k : KeyCard) (s : KeysState) → Step s (copy_hash k s)
  fires :
      (n : ℕ) (s : KeysState) → s.timers ≡ suc n → Step s (record s { copied = none; timers = n })

pub data Steps : KeysState → KeysState → Type 0 where
  stop : (s : KeysState) → Steps s s
  step : {s t u : KeysState} → Steps s t → Step t u → Steps s u
