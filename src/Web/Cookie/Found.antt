-- ===== src/Web/Cookie/Found.antt =====
-- What `get_cookie_value` (components/http_server/http_server.c) finds stands in the header.
use esp32_pppo_e_router.Base.{
  ◌≤◌, ◌≢◌, ◌||◌, ==_iff, Bool-cases, append_assoc, length-append, ℕ, zero, suc, ◌-◌, ◌≡◌, ◌⊎◌,
  refl, sym, ap, ◌∙◌, arith, inl, inr, Bool, true, false, ◌&&◌, Option, none, some, List, [], ◌∷◌,
  ◌++◌, length, take, drop, ◌==◌, if◌then◌else◌,
}
use mathlib.Core.Option.{some-injective}
use esp32_pppo_e_router.Web.Cookie.{
  Text, search_pattern, starts_with, at_boundary, search, until_end, value_of, get_cookie_value,
}

-- a text, last character first, in front of others
abbrev pub backwards : Text → List ℕ → List ℕ
backwards [] before = before
backwards (c ∷ cs) before = backwards cs (c ∷ before)

-- the pattern stands at a boundary of the header, and the rest behind it
abbrev pub Found : Text → List ℕ → Text → Text → Type 0
Found pattern before header start =
    (pre : Text) × (header ≡ pre ++ (pattern ++ start))
    × (at_boundary (backwards pre before) ≡ true)

starts_with→eq :
    (pattern text : Text)
    → starts_with pattern text ≡ true
    → text ≡ pattern ++ drop (length pattern) text
starts_with→eq [] text h = refl
starts_with→eq (p ∷ ps) [] h = absurd (ground (arith, h))
starts_with→eq (p ∷ ps) (c ∷ cs) h =
    let (first, rest) = both (p == c) (starts_with ps cs) h in
    let same : c ≡ p = ground (arith, first) in
    rw same (ap (λ r. p ∷ r) (starts_with→eq ps cs rest))
  where
    both : (a b : Bool) → (if a then b else false) ≡ true → (a ≡ true) × (b ≡ true)
    both true b h = (refl, h)
    both false b h = absurd (ground (arith, h))

later :
    (pattern : Text) (c : ℕ) (before : List ℕ) (cs start : Text)
    → Found pattern (c ∷ before) cs start
    → Found pattern before (c ∷ cs) start
later pattern c before cs start (pre, e, edge) = (c ∷ pre, ap (λ r. c ∷ r) e, edge)

here_or_later :
    (hit edge : Bool) (here start : Text) (rest : Option Text)
    → (if hit && edge then some here else rest) ≡ some start
    → ((hit ≡ true) × (edge ≡ true) × (here ≡ start)) ⊎ (rest ≡ some start)
here_or_later true true here start rest h = inl (refl, refl, some-injective _ _ h)
here_or_later true false here start rest h = inr h
here_or_later false edge here start rest h = inr h

search-Found :
    (pattern : Text) (skip : ℕ) (before : List ℕ) (header start : Text)
    → search pattern (length pattern) skip before header ≡ some start
    → Found pattern before header start
unfolding search
search-Found pattern skip before [] start h = absurd (ground (arith, h))
search-Found pattern (suc skip) before (c ∷ cs) start h =
    later pattern c before cs start (search-Found pattern skip (c ∷ before) cs start h)
search-Found pattern zero before (c ∷ cs) start h =
    elim (here_or_later (starts_with pattern (c ∷ cs)) (at_boundary before) _ start _ h) [
      | inl (hit, edge, same) ↦
          ([], starts_with→eq pattern (c ∷ cs) hit ∙ ap (λ r. pattern ++ r) same, edge)
      | inr further ↦
          later pattern c before cs start (search-Found pattern _ (c ∷ before) cs start further)
    ]

-- The places where a cookie can begin: the begin of the header, behind a semicolon, or behind a
-- semicolon and a space.
abbrev pub Boundary : Text → Type 0
Boundary pre =
    (pre ≡ []) ⊎ ((q : Text) × (pre ≡ q ++ 59 ∷ [])) ⊎ ((q : Text) × (pre ≡ q ++ 59 ∷ 32 ∷ []))

backwards-append : (pre before : List ℕ) → backwards pre before ≡ backwards pre [] ++ before
backwards-append [] before = refl
backwards-append (c ∷ cs) before =
    backwards-append cs (c ∷ before)
    ∙ sym (append_assoc (backwards cs []) (c ∷ []) before)
    ∙ ap (λ (r : List ℕ). r ++ before) (sym (backwards-append cs (c ∷ [])))

backwards-twice : (pre : List ℕ) → backwards (backwards pre []) [] ≡ pre
backwards-twice pre = reversed pre []
  where
    reversed : (xs ys : List ℕ) → backwards (backwards xs ys) [] ≡ backwards ys xs
    reversed [] ys = refl
    reversed (x ∷ xs) ys = reversed xs (x ∷ ys)

-- the characters in front, from the last one on
at_boundary-Boundary : (r : List ℕ) → at_boundary r ≡ true → Boundary (backwards r [])
at_boundary-Boundary [] h = inl refl
at_boundary-Boundary (c ∷ []) h =
    let e : c ≡ 59 = (==_iff c 59).0 h in inr (inl ([], ap (λ x. x ∷ []) e))
at_boundary-Boundary (c ∷ d ∷ before) h = elim (Bool-cases (c == 59)) [
  | inl e ↦
      let same : c ≡ 59 = (==_iff c 59).0 e in
      inr (
        inl (
          backwards (d ∷ before) [],
          backwards-append (d ∷ before) (c ∷ [])
              ∙ ap (λ x. backwards (d ∷ before) [] ++ x ∷ []) same,
        ))
  | inr e ↦
      let both : ((c == 32) && (d == 59)) ≡ true =
        sym (ap (λ b. b || ((c == 32) && (d == 59))) e) ∙ h in
      let (space, semi) = two (c == 32) (d == 59) both in
      inr (
        inr (
          backwards before [],
          backwards-append before (d ∷ c ∷ [])
              ∙ ap (λ x. backwards before [] ++ d ∷ x ∷ []) ((==_iff c 32).0 space)
              ∙ ap (λ x. backwards before [] ++ x ∷ 32 ∷ []) ((==_iff d 59).0 semi),
        ))
]
  where
    two : (a b : Bool) → (a && b) ≡ true → (a ≡ true) × (b ≡ true)
    two true b h = (refl, h)
    two false b h = absurd (ground (arith, h))

-- no character of the text is a semicolon
abbrev pub NoSemicolon : Text → Type 0
NoSemicolon [] = Unit
NoSemicolon (c ∷ cs) = (c ≢ 59) × NoSemicolon cs

-- the value up to the end of the header, or to a semicolon
abbrev pub Ends : Text → Text → Type 0
Ends value start =
    NoSemicolon value × ((start ≡ value) ⊎ ((rest : Text) × (start ≡ value ++ 59 ∷ rest)))

until_end-Ends : (start : Text) → Ends (until_end start) start
until_end-Ends [] = (tt, inl refl)
until_end-Ends (c ∷ cs) = elim (Bool-cases (c == 59)) [
  | inl e ↦ rw e (tt, inr (cs, ap (λ x. x ∷ cs) ((==_iff c 59).0 e)))
  | inr e ↦
      let (clean, stops) = until_end-Ends cs in
      rw e (((λ q. ground (arith, e, q)), clean), longer (until_end cs) stops)
]
  where
    longer :
        (v : Text)
        → ((cs ≡ v) ⊎ ((rest : Text) × (cs ≡ v ++ 59 ∷ rest)))
        → ((c ∷ cs) ≡ (c ∷ v)) ⊎ ((rest : Text) × ((c ∷ cs) ≡ (c ∷ v) ++ 59 ∷ rest))
    longer v (inl h) = inl (ap (λ r. c ∷ r) h)
    longer v (inr (rest, h)) = inr (rest, ap (λ r. c ∷ r) h)

short_enough : (xs : Text) (n : ℕ) → length xs ≤ n → take n xs ≡ xs
short_enough [] zero h = refl
short_enough [] (suc n) h = refl
short_enough (x ∷ xs) zero h = absurd (omega (arith, h))
short_enough (x ∷ xs) (suc n) h = ap (λ r. x ∷ r) (short_enough xs n (omega (arith, h)))

-- the header is `pre`, then the name, '=', the value, and its end
pub record IsCookie (cookie_name header value : Text) : Type 0 where
  pub pre : Text
  pub start : Text
  pub header_is : header ≡ pre ++ ((cookie_name ++ 61 ∷ []) ++ start)
  pub boundary : Boundary pre
  pub ends : Ends value start

-- A value that is found, for a name of at most 62 characters, is that of a cookie of the name: the
-- header has the name and '=' at its begin, behind a semicolon, or behind a semicolon and a space;
-- the cookie's value stands behind that and goes to the next semicolon or the end; what is found
-- are its first characters, one fewer than the caller has room for.
pub get_cookie_value-Found :
    (header cookie_name : Text) (max_len : ℕ) (v : Text)
    → length cookie_name ≤ 62
    → get_cookie_value (some header) cookie_name max_len ≡ some v
    → (value : Text) × IsCookie cookie_name header value × (v ≡ take (max_len - 1) value)
unfolding get_cookie_value
get_cookie_value-Found header cookie_name max_len v short h =
    valued (search (search_pattern cookie_name) (length (search_pattern cookie_name)) 0 [] header)
      refl h
  where
    whole : search_pattern cookie_name ≡ cookie_name ++ 61 ∷ []
    whole =
        short_enough (cookie_name ++ 61 ∷ []) 63
          (omega (arith, length-append cookie_name (61 ∷ []), short))

    valued :
        (o : Option Text)
        → search (search_pattern cookie_name) (length (search_pattern cookie_name)) 0 [] header ≡ o
        → value_of max_len o ≡ some v
        → (value : Text) × IsCookie cookie_name header value × (v ≡ take (max_len - 1) value)
    valued none e h' = absurd (ground (arith, h'))
    valued (some start) e h' =
        let (pre, placed, edge) = search-Found (search_pattern cookie_name) 0 [] header start e in
        let edges = at_boundary-Boundary (backwards pre []) edge in
        (
          until_end start,
          record {
            pre = pre;
            start = start;
            header_is = placed ∙ ap (λ (r : Text). pre ++ (r ++ start)) whole;
            boundary = rw (backwards-twice pre) at edges;
            ends = until_end-Ends start;
          },
          sym (some-injective _ _ h'),
        )
