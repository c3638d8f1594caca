-- ===== src/Syslog/Examples.antt =====
-- The theorem on syslog_client.c at a warning, and tests of its functions.
use esp32_pppo_e_router.Base.{◌≡◌, refl, arith, [], ◌∷◌}
use esp32_pppo_e_router.Syslog.{Text, extract_level_and_clean, esp_level_to_syslog, strip_ansi, esc}
use esp32_pppo_e_router.Syslog.Line.{LevelOf, coloured, strip_ansi-coloured}

-- "0;33", yellow
abbrev yellow : Text
yellow = 48 ∷ 59 ∷ 51 ∷ 51 ∷ []

-- "W (7)"
abbrev warning : Text
warning = 87 ∷ 32 ∷ 40 ∷ 55 ∷ 41 ∷ []

strip_ansi-coloured_example :
    let done = extract_level_and_clean (coloured yellow warning) in
    LevelOf 87 32 done.0 × (strip_ansi done.1 256 ≡ warning)
strip_ansi-coloured_example =
    strip_ansi-coloured yellow 87 32 (40 ∷ 55 ∷ 41 ∷ []) 256 (refl, (refl, (refl, (refl, tt))))
      (refl, (refl, (refl, (refl, (refl, tt))))) refl (omega arith)

-- a warning has the severity 4
severity_of_warning : esp_level_to_syslog (extract_level_and_clean (coloured yellow warning)).0 ≡ 4
unfolding esp_level_to_syslog
severity_of_warning = refl

-- a text without room is cut
cut_to_room : strip_ansi (esc ∷ warning) 3 ≡ 87 ∷ 32 ∷ []
unfolding strip_ansi
cut_to_room = refl
