-- ===== src/Base/Keyed.antt =====
-- Tables searched by a key, as the firmware's loops do: the first slot with a property, the number
-- of such slots, and what a write to one slot does to both.
use Prim.Native.Nat.{ℕ, zero, suc, ◌≤◌, ◌<◌}
use mathlib.Core.Path.{◌≡◌, refl, sym, ap}
use mathlib.Core.Logic.{inl, inr}
use mathlib.Core.Bool.{Bool, true, false}
use mathlib.Core.Option.{Option, none, some}
use mathlib.Core.List.{List, [], ◌∷◌}
use native.Mathlib.Omega.{arith}
use esp32_pppo_e_router.Base.Tests.{if◌then◌else◌, Bool-cases, Option-cases}
use esp32_pppo_e_router.Base.Lists.{length, get_or, set}
use esp32_pppo_e_router.Base.Slots.{find_index, count}

module _ {ℓ} {A : Type ℓ} where
  -- for (i = 0; i < n; i++) if (p(tab[i])) return tab[i];
  unfoldable pub first : (A → Bool) → List A → Option A
  first p [] = none
  first p (x ∷ xs) = let rest = first p xs in if p x then some x else rest

module _ {ℓ} {A : Type ℓ} (p : A → Bool) where
  pub first-some : (xs : List A) (x : A) → first p xs ≡ some x → p x ≡ true
  unfolding first
  first-some [] x h = absurd (cc)
  first-some (y ∷ ys) x h = elim (Bool-cases (p y)) [
    | inl e ↦ let same : y ≡ x = ground (arith, e) in rw (sym same) e
    | inr e ↦ first-some ys x (ground (arith, e))
  ]

  pub first-count : (xs : List A) → count p xs ≡ 0 → first p xs ≡ none
  unfolding first count
  first-count [] h = refl
  first-count (x ∷ xs) h = elim (Bool-cases (p x)) [
    | inl e ↦ absurd (ground (arith, e))
    | inr e ↦ rw e (first-count xs (ground (arith, e)))
  ]

  pub first-find_index : (xs : List A) → find_index p xs ≡ none → first p xs ≡ none
  unfolding first find_index
  first-find_index [] h = refl
  first-find_index (x ∷ xs) h = elim (Bool-cases (p x)) [
    | inl e ↦ absurd (ground (arith, e))
    | inr e ↦ elim (Option-cases (find_index p xs)) [
      | inl n ↦ rw e (first-find_index xs n)
      | inr (i, s) ↦ absurd (ground (arith, e, s))
    ]
  ]

  -- A slot that is no hit becomes one that is no hit.
  pub first-set_other :
      (xs : List A) (i : ℕ) (v d : A)
      → i < length xs
      → p (get_or xs i d) ≡ false
      → p v ≡ false
      → first p (set xs i v) ≡ first p xs
  unfolding first
  first-set_other [] i v d h a b = refl
  first-set_other (x ∷ xs) zero v d h a b = rw (a, b) refl
  first-set_other (x ∷ xs) (suc i) v d h a b =
      ap (λ r. if p x then some x else r) (first-set_other xs i v d (omega arith) a b)

  -- The first hit is replaced by a hit.
  pub first-set_hit :
      (xs : List A) (i : ℕ) (v : A)
      → find_index p xs ≡ some i
      → p v ≡ true
      → first p (set xs i v) ≡ some v
  unfolding first find_index
  first-set_hit [] i v h b = absurd (ground arith)
  first-set_hit (x ∷ xs) i v h b = elim (Bool-cases (p x)) [
    | inl e ↦ let z : i ≡ 0 = ground (arith, e) in rw z (rw b refl)
    | inr e ↦ elim (Option-cases (find_index p xs)) [
      | inl n ↦ absurd (ground (arith, e, n))
      | inr (j, s) ↦
          let z : i ≡ suc j = ground (arith, e, s) in rw z (rw e (first-set_hit xs j v s b))
    ]
  ]

  -- A hit is put into a table that has none.
  pub first-set_new :
      (xs : List A) (i : ℕ) (v : A)
      → i < length xs
      → first p xs ≡ none
      → p v ≡ true
      → first p (set xs i v) ≡ some v
  unfolding first
  first-set_new [] i v h n b = absurd (omega arith)
  first-set_new (x ∷ xs) zero v h n b = rw b refl
  first-set_new (x ∷ xs) (suc i) v h n b = elim (Bool-cases (p x)) [
    | inl e ↦ absurd (ground (arith, e))
    | inr e ↦ rw e (first-set_new xs i v (omega arith) (ground (arith, e)) b)
  ]

  -- What a write does to the number of hits.
  pub count-set_same :
      (xs : List A) (i : ℕ) (v d : A)
      → i < length xs
      → p (get_or xs i d) ≡ p v
      → count p (set xs i v) ≡ count p xs
  unfolding count
  count-set_same [] i v d h a = refl
  count-set_same (x ∷ xs) zero v d h a = rw a refl
  count-set_same (x ∷ xs) (suc i) v d h a =
      ap (λ r. if p x then suc r else r) (count-set_same xs i v d (omega arith) a)

  pub count-set_out :
      (xs : List A) (i : ℕ) (v : A)
      → find_index p xs ≡ some i
      → p v ≡ false
      → suc (count p (set xs i v)) ≡ count p xs
  unfolding count find_index
  count-set_out [] i v h b = absurd (ground arith)
  count-set_out (x ∷ xs) i v h b = elim (Bool-cases (p x)) [
    | inl e ↦ let z : i ≡ 0 = ground (arith, e) in rw z (rw (b, e) refl)
    | inr e ↦ elim (Option-cases (find_index p xs)) [
      | inl n ↦ absurd (ground (arith, e, n))
      | inr (j, s) ↦
          let z : i ≡ suc j = ground (arith, e, s) in rw z (rw e (count-set_out xs j v s b))
    ]
  ]

  pub count-set_le : (xs : List A) (i : ℕ) (v : A) → count p (set xs i v) ≤ suc (count p xs)
  unfolding count
  count-set_le [] i v = omega arith
  count-set_le (x ∷ xs) zero v = ground arith
  count-set_le (x ∷ xs) (suc i) v = ground (arith, count-set_le xs i v)

  pub count-set_in :
      (xs : List A) (i : ℕ) (v d : A)
      → i < length xs
      → p (get_or xs i d) ≡ false
      → p v ≡ true
      → count p (set xs i v) ≡ suc (count p xs)
  unfolding count
  count-set_in [] i v d h a b = absurd (omega arith)
  count-set_in (x ∷ xs) zero v d h a b = rw (a, b) refl
  count-set_in (x ∷ xs) (suc i) v d h a b = elim (Bool-cases (p x)) [
    | inl t ↦ rw t (ap suc (count-set_in xs i v d (omega arith) a b))
    | inr f ↦ rw f (count-set_in xs i v d (omega arith) a b)
  ]

  -- A slot other than the one found becomes one that is no hit.
  pub first-set_kept :
      (xs : List A) (i : ℕ) (v d e : A)
      → first p xs ≡ some e
      → p v ≡ false
      → (get_or xs i d ≡ e → ⊥)
      → first p (set xs i v) ≡ some e
  unfolding first
  first-set_kept [] i v d e h b n = h
  first-set_kept (x ∷ xs) zero v d e h b n = elim (Bool-cases (p x)) [
    | inl t ↦ absurd (n (ground (arith, h, t)))
    | inr f ↦ rw b (ground (arith, h, f))
  ]
  first-set_kept (x ∷ xs) (suc i) v d e h b n = elim (Bool-cases (p x)) [
    | inl t ↦ rw t (ground (arith, h, t))
    | inr f ↦ rw f (first-set_kept xs i v d e (ground (arith, h, f)) b n)
  ]
