-- ===== src/Web/Cookie.antt =====
-- The search for a cookie in a request: `get_cookie_value` (components/http_server/http_server.c).
-- Texts are lists of characters without the NUL.
pub mod Found
use esp32_pppo_e_router.Base.{
  ℕ, zero, suc, ◌+◌, ◌-◌, Bool, true, false, ◌&&◌, ◌||◌, Option, none, some, List, [], ◌∷◌, ◌++◌,
  length, take, drop, ◌==◌, if◌then◌else◌,
}

abbrev pub Text : Type 0
Text = List ℕ

abbrev pub semicolon : ℕ
semicolon = 59

-- the size of `search_pattern`, less its NUL
abbrev pub pattern_room : ℕ
pattern_room = 63

abbrev pub search_pattern : Text → Text
search_pattern cookie_name = take pattern_room (cookie_name ++ 61 ∷ [])

abbrev pub starts_with : Text → Text → Bool
starts_with [] text = true
starts_with (p ∷ ps) [] = false
starts_with (p ∷ ps) (c ∷ cs) = let rest = starts_with ps cs in if p == c then rest else false

-- whether a cookie can begin behind these characters, the last one first
abbrev pub at_boundary : List ℕ → Bool
at_boundary [] = true
at_boundary (c ∷ []) = c == semicolon
at_boundary (c ∷ d ∷ before) = c == semicolon || (c == 32 && d == semicolon)

-- The loop over the places of the pattern, of `n` characters: the text behind the first one at a
-- boundary. `skip`: characters of a pattern that was passed over.
unfoldable pub search : Text → ℕ → ℕ → List ℕ → Text → Option Text
search pattern n skip before [] = none
search pattern n (suc skip) before (c ∷ cs) = search pattern n skip (c ∷ before) cs
search pattern n zero before (c ∷ cs) =
    let hit = starts_with pattern (c ∷ cs) in
    let rest = search pattern n (if hit then n - 1 else 0) (c ∷ before) cs in
    if hit && at_boundary before then some (drop n (c ∷ cs)) else rest

-- up to the semicolon
abbrev pub until_end : Text → Text
until_end [] = []
until_end (c ∷ cs) = let rest = until_end cs in if c == semicolon then [] else c ∷ rest

abbrev pub value_of : ℕ → Option Text → Option Text
value_of max_len none = none
value_of max_len (some start) = some (take (max_len - 1) (until_end start))

-- `header`: the header "Cookie", when there is one and memory for it
unfoldable pub get_cookie_value : Option Text → Text → ℕ → Option Text
unfolding search
get_cookie_value none cookie_name max_len = none
get_cookie_value (some header) cookie_name max_len =
    let pattern = search_pattern cookie_name in
    value_of max_len (search pattern (length pattern) 0 [] header)
