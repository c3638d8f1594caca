-- ===== src/Base/Search.antt =====
-- The first slot with a property, seen through the slots in use: what a loop that skips empty
-- slots finds, and what a write to the slot found leaves.
use Prim.Native.Nat.{ℕ, zero, suc, ◌<◌}
use mathlib.Core.Path.{◌≡◌, refl, ap}
use mathlib.Core.Logic.{inl, inr}
use mathlib.Core.Bool.{Bool, true, false, not}
use mathlib.Core.Option.{none, some}
use mathlib.Core.List.{List, [], ◌∷◌, ◌++◌}
use native.Mathlib.Omega.{arith}
use esp32_pppo_e_router.Base.Tests.{Bool-cases}
use esp32_pppo_e_router.Base.Lists.{length, get_or, set}
use esp32_pppo_e_router.Base.Slots.{find_index, keep, Every, Compact}

-- what the search finds when the slots in use are `before ++ r ∷ after` and `r` is the first hit
pub record Found {ℓ} {A : Type ℓ} (p m : A → Bool) (es before : List A) (r : A) (after : List A)
    (z : A) : Type ℓ where
  pub index : ℕ
  pub found : find_index m es ≡ some index
  pub there : get_or es index z ≡ r
  pub in_range : index < length es
  pub written : (v : A) → p v ≡ true → keep p (set es index v) ≡ before ++ (v ∷ after)

-- The hit is the first slot.
Found-here {ℓ} :
    {A : Type ℓ} (p m : A → Bool) (x r : A) (es after : List A) (z : A)
    → x ≡ r
    → keep p es ≡ after
    → m x ≡ true
    → Found p m (x ∷ es) [] r after z
unfolding keep find_index
Found-here p m x r es after z e k h = record {
  index = 0;
  found = rw h;
  there = e;
  in_range = omega arith;
  written = λ v pv. rw (pv, k);
}

-- A slot in front that is in use and no hit.
Found-later {ℓ} :
    {A : Type ℓ} (p m : A → Bool) (x : A) (es before : List A) (r : A) (after : List A) (z : A)
    → p x ≡ true
    → m x ≡ false
    → Found p m es before r after z
    → Found p m (x ∷ es) (x ∷ before) r after z
unfolding keep find_index
Found-later p m x es before r after z px mx f = record {
  index = suc f.index;
  found = rw (mx, f.found);
  there = f.there;
  in_range = omega (arith, f.in_range);
  written = λ v pv. rw px (ap (λ t. x ∷ t) (f.written v pv));
}

-- An empty slot in front.
Found-past {ℓ} :
    {A : Type ℓ} (p m : A → Bool) (x : A) (es before : List A) (r : A) (after : List A) (z : A)
    → p x ≡ false
    → m x ≡ false
    → Found p m es before r after z
    → Found p m (x ∷ es) before r after z
unfolding keep find_index
Found-past p m x es before r after z px mx f = record {
  index = suc f.index;
  found = rw (mx, f.found);
  there = f.there;
  in_range = omega (arith, f.in_range);
  written = λ v pv. rw px (f.written v pv);
}

module _ {ℓ} {A : Type ℓ} (p m : A → Bool) (used : (x : A) → m x ≡ true → p x ≡ true) (z : A) where
  unused : (x : A) → p x ≡ false → m x ≡ false
  unused x h = elim (Bool-cases (m x)) [ inl e ↦ absurd (cc (used x e)) | inr e ↦ e ]

  pub find_index-first :
      (es before : List A) (r : A) (after : List A)
      → keep p es ≡ before ++ (r ∷ after)
      → Every (λ y. not (m y)) before
      → m r ≡ true
      → Found p m es before r after z
  unfolding keep
  find_index-first [] [] r after e b h = absurd (cc)
  find_index-first [] (y ∷ before) r after e b h = absurd (cc)
  find_index-first (x ∷ es) [] r after e b h = elim (Bool-cases (p x)) [
    | inl px ↦
        let same : x ∷ keep p es ≡ r ∷ after = ground (arith, px) in
        let xr : x ≡ r = cc in Found-here p m x r es after z xr (cc) (rw xr h)
    | inr px ↦
        let same : keep p es ≡ r ∷ after = ground (arith, px) in
        Found-past p m x es [] r after z px (unused x px) (find_index-first es [] r after same b h)
  ]
  find_index-first (x ∷ es) (y ∷ before) r after e b h = elim (Bool-cases (p x)) [
    | inl px ↦
        let same : x ∷ keep p es ≡ y ∷ (before ++ (r ∷ after)) = ground (arith, px) in
        let yx : y ≡ x = cc in
        let my : m y ≡ false = ground (arith, b.0) in
        rw yx (
          Found-later p m x es before r after z px (rw (← yx) my)
            (find_index-first es before r after (cc) b.1 h))
    | inr px ↦
        let same : keep p es ≡ y ∷ (before ++ (r ∷ after)) = ground (arith, px) in
        Found-past p m x es (y ∷ before) r after z px (unused x px)
          (find_index-first es (y ∷ before) r after same b h)
  ]

  pub find_index-no_hit :
      (es : List A) → Every (λ y. not (m y)) (keep p es) → find_index m es ≡ none
  unfolding keep find_index
  find_index-no_hit [] h = refl
  find_index-no_hit (x ∷ es) h = elim (Bool-cases (p x)) [
    | inl px ↦
        let both : Every (λ y. not (m y)) (x ∷ keep p es) = rw px at h in
        let mx : m x ≡ false = ground (arith, both.0) in rw (mx, find_index-no_hit es both.1)
    | inr px ↦
        let rest : Every (λ y. not (m y)) (keep p es) = rw px at h in
        rw (unused x px, find_index-no_hit es rest)
  ]

module _ {ℓ} {A : Type ℓ} (p : A → Bool) where
  -- Writing a slot in use over a slot in use keeps a table compact.
  pub Compact-set_used :
      (es : List A) (i : ℕ) (v z : A)
      → Compact p es
      → i < length es
      → p (get_or es i z) ≡ true
      → p v ≡ true
      → Compact p (set es i v)
  Compact-set_used [] i v z c h g pv = absurd (omega arith)
  Compact-set_used (x ∷ es) zero v z c h g pv = ((λ f. absurd (cc)), c.1)
  Compact-set_used (x ∷ es) (suc i) v z c h g pv = (
    (λ f. absurd (unused_tail es i (c.0 f) (omega arith) g)),
    Compact-set_used es i v z c.1 (omega arith) g pv,
  )
    where
      unused_tail :
          (ys : List A) (k : ℕ)
          → Every (λ y. not (p y)) ys
          → k < length ys
          → p (get_or ys k z) ≡ true
          → ⊥
      unused_tail [] k a lt b = absurd (omega arith)
      unused_tail (y ∷ ys) zero a lt b = ground (arith, a, b)
      unused_tail (y ∷ ys) (suc k) a lt b = unused_tail ys k a.1 (omega arith) b

  pub keep-Every : (es : List A) → Every p (keep p es)
  unfolding keep
  keep-Every [] = tt
  keep-Every (x ∷ es) = elim (Bool-cases (p x)) [
    | inl e ↦ rw e (e, keep-Every es)
    | inr e ↦ rw e (keep-Every es)
  ]

  Every-middle :
      (before : List A) (r : A) (after : List A) → Every p (before ++ (r ∷ after)) → p r ≡ true
  Every-middle [] r after h = h.0
  Every-middle (x ∷ before) r after h = Every-middle before r after h.1

  pub keep-middle :
      (es before : List A) (r : A) (after : List A) → keep p es ≡ before ++ (r ∷ after) → p r ≡ true
  keep-middle es before r after e = Every-middle before r after (rw e at (keep-Every es))

  -- and does not change how many there are.
  pub length-keep-set :
      (es : List A) (i : ℕ) (v z : A)
      → i < length es
      → p (get_or es i z) ≡ true
      → p v ≡ true
      → length (keep p (set es i v)) ≡ length (keep p es)
  unfolding keep
  length-keep-set [] i v z h g pv = refl
  length-keep-set (x ∷ es) zero v z h g pv = rw (g, pv)
  length-keep-set (x ∷ es) (suc i) v z h g pv =
      ground (arith, length-keep-set es i v z (omega arith) g pv)
