-- ===== src/Sinks/Splunk/Rotation.antt =====
-- The round robin of doWriteData in sinks/splunk/splunk_data_writer.go.
use descartes_legacy.Prelude.{ℕ, ◌+◌, ◌%◌, ◌≡◌, String, true, none, List, Bool}
use descartes_legacy.Base.Data.{Bytes}
use descartes_legacy.Prelude.Result.{Outcome, done}
use descartes_legacy.Sinks.Rest.{Http}
use descartes_legacy.Sinks.Splunk.{post}

-- The slot of the round `k`, from 0, after the slot `s`.
abbrev pub slot_at : ℕ → ℕ → ℕ → ℕ
slot_at n s k = (s + 1 + k) % n

module _ (http : Http) where
  -- The session at the slot takes the data, whatever happened in the network before.
  abbrev pub Accepts : List (String × String) → ℕ → List (String × String) → Bytes → Type 0
  Accepts sessions slot props body =
      (e : http.E) → (e' : http.E) × (post http sessions slot props body e ≡ done (none, e'))

  -- A loop that broke out.
  abbrev pub Breaks : Outcome (ℕ × Bool × http.E) → Type 0
  Breaks x = (slot : ℕ) × (e : http.E) × (x ≡ done (slot, true, e))
