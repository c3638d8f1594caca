-- ===== src/Base/Slots.antt =====
-- Tables of slots: the loops of the firmware that look for the first slot with a property, and
-- what such a table holds. ACL lists, port mappings, DHCP reservations and client statistics are
-- tables of this kind.
use Prim.Native.Nat.{ℕ, zero, suc, ◌≤◌, ◌<◌}
use mathlib.Core.Path.{◌≡◌, refl, ap}
use mathlib.Core.Logic.{inl, inr}
use mathlib.Core.Bool.{Bool, true, false, not}
use mathlib.Core.Option.{Option, none, some}
use mathlib.Core.List.{List, [], ◌∷◌, ◌++◌}
use native.Mathlib.Omega.{arith}
use esp32_pppo_e_router.Base.Tests.{if◌then◌else◌, Bool-cases, Option-cases}
use esp32_pppo_e_router.Base.Lists.{length, get_elem?, set, replicate}

abbrev pub bump : Option ℕ → Option ℕ
bump none = none
bump (some i) = some (suc i)

module _ {ℓ} {A : Type ℓ} where
  -- for (i = 0; i < n; i++) if (p(tab[i])) { ...; break; }
  unfoldable pub find_index : (A → Bool) → List A → Option ℕ
  find_index p [] = none
  find_index p (x ∷ xs) = if p x then some 0 else bump (find_index p xs)

  -- The slots with the property, in order.
  unfoldable pub keep : (A → Bool) → List A → List A
  keep p [] = []
  keep p (x ∷ xs) = let rest = keep p xs in if p x then x ∷ rest else rest

  -- The number of such slots.
  unfoldable pub count : (A → Bool) → List A → ℕ
  count p [] = 0
  count p (x ∷ xs) = let rest = count p xs in if p x then suc rest else rest

  -- Every slot has the property.
  abbrev pub Every : (A → Bool) → List A → Type 0
  Every p [] = Unit
  Every p (x ∷ xs) = (p x ≡ true) × Every p xs

  -- The slots with the property come first.
  abbrev pub Compact : (A → Bool) → List A → Type 0
  Compact p [] = Unit
  Compact p (x ∷ xs) = (p x ≡ false → Every (λ y. not (p y)) xs) × Compact p xs

module _ {ℓ} {A : Type ℓ} (p : A → Bool) where
  pub count-keep : (xs : List A) → count p xs ≡ length (keep p xs)
  unfolding count keep
  count-keep [] = refl
  count-keep (x ∷ xs) = ground (arith, count-keep xs)

  pub length-keep : (xs : List A) → length (keep p xs) ≤ length xs
  unfolding keep
  length-keep [] = omega arith
  length-keep (x ∷ xs) = ground (arith, length-keep xs)

  -- The slot found is in range and has the property.
  pub find_index-some :
      (xs : List A) (i : ℕ)
      → find_index p xs ≡ some i
      → (x : A) × (get_elem? xs i ≡ some x) × (p x ≡ true) × (i < length xs)
  unfolding find_index
  find_index-some [] i h = absurd (ground arith)
  find_index-some (x ∷ xs) i h = elim (Bool-cases (p x)) [
    | inl e ↦ let z : i ≡ 0 = ground (arith, e) in rw z (x, refl, e, omega arith)
    | inr e ↦ elim (Option-cases (find_index p xs)) [
      | inl n ↦ absurd (ground (arith, e, n))
      | inr (j, s) ↦
          let z : i ≡ suc j = ground (arith, e, s) in
          let (y, g, py, lt) = find_index-some xs j s in rw z (y, g, py, omega arith)
    ]
  ]

  pub find_index-none : (xs : List A) → find_index p xs ≡ none → Every (λ y. not (p y)) xs
  unfolding find_index
  find_index-none [] h = tt
  find_index-none (x ∷ xs) h = elim (Option-cases (find_index p xs)) [
    | inl n ↦ (ground arith, find_index-none xs n)
    | inr (j, s) ↦ absurd (ground (arith, s))
  ]

  pub keep-none : (xs : List A) → Every (λ y. not (p y)) xs → keep p xs ≡ []
  unfolding keep
  keep-none [] h = refl
  keep-none (x ∷ xs) h = ground (arith, keep-none xs h.1)

  -- A table with no free slot holds nothing else.
  pub keep-full : (xs : List A) → find_index (λ y. not (p y)) xs ≡ none → keep p xs ≡ xs
  unfolding keep find_index
  keep-full [] h = refl
  keep-full (x ∷ xs) h = ground (arith, keep-full xs)

  -- A slot put at the first free place of a compact table comes last.
  pub keep-set_free :
      (xs : List A) (i : ℕ) (v : A)
      → Compact p xs
      → find_index (λ y. not (p y)) xs ≡ some i
      → p v ≡ true
      → keep p (set xs i v) ≡ keep p xs ++ (v ∷ [])
  unfolding keep find_index
  keep-set_free [] i v c h pv = absurd (ground arith)
  keep-set_free (x ∷ xs) i v c h pv = elim (Bool-cases (p x)) [
    | inl e ↦ elim (Option-cases (find_index (λ y. not (p y)) xs)) [
      | inl n ↦ absurd (ground (arith, e, n))
      | inr (j, s) ↦
          let z : i ≡ suc j = ground (arith, e, s) in
          rw z (ground (arith, e, keep-set_free xs j v c.1 s pv))
    ]
    | inr e ↦
        let z : i ≡ 0 = ground (arith, e) in rw z (ground (arith, e, pv, keep-none xs (c.0 e)))
  ]

  pub Compact-set_free :
      (xs : List A) (i : ℕ) (v : A)
      → Compact p xs
      → find_index (λ y. not (p y)) xs ≡ some i
      → p v ≡ true
      → Compact p (set xs i v)
  unfolding find_index
  Compact-set_free [] i v c h pv = tt
  Compact-set_free (x ∷ xs) i v c h pv = elim (Bool-cases (p x)) [
    | inl e ↦ elim (Option-cases (find_index (λ y. not (p y)) xs)) [
      | inl n ↦ absurd (ground (arith, e, n))
      | inr (j, s) ↦
          let z : i ≡ suc j = ground (arith, e, s) in
          rw z ((λ f. absurd (cc)), Compact-set_free xs j v c.1 s pv)
    ]
    | inr e ↦ let z : i ≡ 0 = ground (arith, e) in rw z ((λ f. absurd (cc)), c.1)
  ]

  pub Compact-of_none : (xs : List A) → Every (λ y. not (p y)) xs → Compact p xs
  Compact-of_none [] h = tt
  Compact-of_none (x ∷ xs) h = ((λ _. h.1), Compact-of_none xs h.1)

  pub Every-replicate : (n : ℕ) (z : A) → p z ≡ false → Every (λ y. not (p y)) (replicate n z)
  Every-replicate zero z h = tt
  Every-replicate (suc n) z h = (ap not h, Every-replicate n z h)
