-- ===== src/Acl/Table/Moves.antt =====
-- The compacting loop of `acl_delete` (acl.c) removes one rule and keeps the order of the others.
use esp32_pppo_e_router.Base.{
  ℕ, zero, suc, ◌+◌, ◌-◌, ◌≤◌, ◌<◌, ◌≡◌, refl, ap, ◌∙◌, arith, true, false, not, inl, inr, List, [],
  ◌∷◌, length, get_or, set, keep, keep-none, Compact, Every, Bool-cases,
}
use esp32_pppo_e_router.Acl.{AclEntry, zero_entry, is_valid, move_up}

abbrev pub erase_at {ℓ} : {A : Type ℓ} → List A → ℕ → List A
erase_at [] i = []
erase_at (x ∷ xs) zero = xs
erase_at (x ∷ xs) (suc i) = x ∷ erase_at xs i

pub length-erase_at {ℓ} :
    {A : Type ℓ} (xs : List A) (i : ℕ) → i < length xs → length (erase_at xs i) ≡ length xs - 1
length-erase_at [] i h = absurd (omega arith)
length-erase_at (x ∷ xs) zero h = omega arith
length-erase_at (x ∷ xs) (suc i) h = omega (arith, length-erase_at xs i)

move_up-cons :
    (n i : ℕ) (x : AclEntry) (es : List AclEntry) → move_up n (suc i) (x ∷ es) ≡ x ∷ move_up n i es
unfolding move_up
move_up-cons zero i x es = refl
move_up-cons (suc n) i x es = elim (Bool-cases (is_valid (get_or es (suc i) zero_entry))) [
  | inl e ↦ rw e (move_up-cons n (suc i) x _)
  | inr e ↦ rw e
]

-- what the loop makes of a list with `before` rules
record Moved (before after : List AclEntry) (size : ℕ) : Type 0 where
  same : keep is_valid after ≡ before
  compact : Compact is_valid after
  sized : length after ≡ size

move_up-hole :
    (n : ℕ) (xs : List AclEntry)
    → length xs ≡ n
    → Compact is_valid xs
    → Moved (keep is_valid xs) (move_up n 0 (zero_entry ∷ xs)) (suc n)
unfolding move_up keep
move_up-hole zero [] h c = record { same = refl; compact = ((λ _. tt), tt); sized = refl }
move_up-hole zero (x ∷ xs) h c = absurd (omega arith)
move_up-hole (suc n) [] h c = absurd (omega arith)
move_up-hole (suc n) (y ∷ ys) h c = elim (Bool-cases (is_valid y)) [
  | inl e ↦
      let ih = move_up-hole n ys (omega arith) c.1 in
      rw (e, move_up-cons n 0 y (zero_entry ∷ ys))
        (record {
          same = rw e (ap (λ r. y ∷ r) ih.same);
          compact = ((λ f. absurd (cc)), ih.compact);
          sized = ap suc ih.sized;
        })
  | inr e ↦ rw e (record { same = rw e; compact = ((λ _. (ap not e, c.0 e)), c); sized = ap suc h })
]

-- Emptying the slot of a rule and compacting removes that rule, and only it.
pub move_up-set :
    (n i : ℕ) (es : List AclEntry)
    → suc (i + n) ≡ length es
    → Compact is_valid es
    → is_valid (get_or es i zero_entry) ≡ true
    → (keep is_valid (move_up n i (set es i zero_entry)) ≡ erase_at (keep is_valid es) i)
      × Compact is_valid (move_up n i (set es i zero_entry))
      × (length (move_up n i (set es i zero_entry)) ≡ length es)
      × (i < length (keep is_valid es))
unfolding keep
move_up-set n i [] h c v = absurd (omega arith)
move_up-set n zero (x ∷ xs) h c v =
    let hole = move_up-hole n xs (omega arith) c.1 in
    rw v (hole.same, hole.compact, hole.sized ∙ (omega arith), omega arith)
move_up-set n (suc j) (x ∷ xs) h c v = elim (Bool-cases (is_valid x)) [
  | inl e ↦
      let ih = move_up-set n j xs (omega arith) c.1 v in
      rw (e, move_up-cons n j x (set xs j zero_entry))
        (rw e (ap (λ r. x ∷ r) ih.0), ((λ f. absurd (cc)), ih.1), ap suc ih.2, omega (arith, ih.3))
  | inr e ↦ absurd (no_rule xs j (c.0 e) v)
]
  where
    no_rule :
        (ys : List AclEntry) (k : ℕ)
        → Every (λ y. not (is_valid y)) ys
        → is_valid (get_or ys k zero_entry) ≡ true
        → ⊥
    no_rule [] k a b = ground (arith, b)
    no_rule (y ∷ ys) zero a b = ground (arith, a, b)
    no_rule (y ∷ ys) (suc k) a b = no_rule ys k a.1 b

-- An empty slot stands behind all rules, and erasing behind the end changes nothing.
pub keep-le :
    (es : List AclEntry) (i : ℕ)
    → Compact is_valid es
    → is_valid (get_or es i zero_entry) ≡ false
    → length (keep is_valid es) ≤ i
unfolding keep
keep-le [] i c v = omega arith
keep-le (x ∷ xs) zero c v = rw (v, keep-none is_valid xs (c.0 v)) (omega arith)
keep-le (x ∷ xs) (suc i) c v = ground (arith, keep-le xs i c.1 v)

pub erase_at-beyond {ℓ} : {A : Type ℓ} (xs : List A) (i : ℕ) → length xs ≤ i → erase_at xs i ≡ xs
erase_at-beyond [] i h = refl
erase_at-beyond (x ∷ xs) zero h = absurd (omega arith)
erase_at-beyond (x ∷ xs) (suc i) h = ap (λ r. x ∷ r) (erase_at-beyond xs i (omega arith))
