-- ===== src/Hooks/ClientStats/Examples.antt =====
-- The theorem on the client statistics at a table of two slots.
use esp32_pppo_e_router.Base.{ℕ, List, [], ◌∷◌}
use esp32_pppo_e_router.Hooks.ClientStats.{ClientStats, no_client, new_client}

abbrev phone : List ℕ
phone = 2 ∷ 0 ∷ 0 ∷ 0 ∷ 0 ∷ 2 ∷ []

abbrev tablet : List ℕ
tablet = 2 ∷ 0 ∷ 0 ∷ 0 ∷ 0 ∷ 3 ∷ []

-- the phone has left, and the tablet comes
abbrev clients : List ClientStats
clients = record (new_client phone) { connected = 0; bytes_sent = 77 } ∷ no_client ∷ []
