-- ===== src/Hooks/ClientStats/Table.antt =====
-- What connecting a client does to the statistics table of netif_hooks.c.
use esp32_pppo_e_router.Base.{
  ℕ, ◌<◌, ◌≡◌, ◌≢◌, ◌⊎◌, refl, sym, ◌∙◌, arith, true, false, not, ◌&&◌, Option, none, some, inl,
  inr, List, length, get_or, set, find_index, find_index-some, find_index-none, get_or_of_get_elem?,
  Every, Bool-cases, Option-cases, same_bytes_refl, same_bytes→eq,
}
use esp32_pppo_e_router.Base.Keyed.{
  first, first-find_index, first-set_other, first-set_hit, first-set_new, first-set_kept,
}
use esp32_pppo_e_router.Hooks.ClientStats.{
  ClientStats, no_client, is_active, is_connected, is_client, joined, new_client,
  client_stats_on_connect,
}

-- the entry of a client
abbrev pub entry_of : List ClientStats → List ℕ → Option ClientStats
entry_of es mac = first (is_client mac) es

-- The statistics of the other clients that are connected are kept.
abbrev pub OthersKept : List ClientStats → List ℕ → List ClientStats → Type 0
OthersKept es mac out =
    (other : List ℕ) (e : ClientStats)
    → other ≢ mac
    → entry_of es other ≡ some e
    → is_connected e ≡ true
    → entry_of out other ≡ some e

-- How `client_stats_on_connect` ends: with the old entry marked as connected, with a new entry, or,
-- in a table of connected clients, with nothing.
pub data Connected (es : List ClientStats) (mac : List ℕ) (out : List ClientStats) : Type 0 where
  again :
      (old : ClientStats)
      → is_client mac old ≡ true
      → entry_of out mac ≡ some (joined old)
      → OthersKept es mac out
      → Connected es mac out
  new :
      entry_of es mac ≡ none
      → entry_of out mac ≡ some (new_client mac)
      → OthersKept es mac out
      → Connected es mac out
  full :
      entry_of es mac ≡ none
      → out ≡ es
      → Every (λ e. not (is_active e && not (is_connected e))) es
      → Connected es mac out

not_client :
    (mac other : List ℕ) (e : ClientStats) → e.mac ≡ mac → other ≢ mac → is_client other e ≡ false
not_client mac other e m n = elim (Bool-cases (is_client other e)) [
  | inl t ↦ absurd (n (sym (same_bytes→eq e.mac other (ground (arith, t))) ∙ m))
  | inr f ↦ f
]

-- a slot that is no connected client's
seated :
    (es : List ClientStats) (mac : List ℕ) (i : ℕ)
    → entry_of es mac ≡ none
    → i < length es
    → is_connected (get_or es i no_client) ≡ false ⊎ is_active (get_or es i no_client) ≡ false
    → Connected es mac (set es i (new_client mac))
seated es mac i absent lt idle =
    new absent (first-set_new (is_client mac) es i (new_client mac) lt absent (same_bytes_refl mac))
      (λ other e n f c. kept other e n f c idle)
  where
    kept :
        (other : List ℕ) (e : ClientStats)
        → other ≢ mac
        → entry_of es other ≡ some e
        → is_connected e ≡ true
        → is_connected (get_or es i no_client) ≡ false ⊎ is_active (get_or es i no_client) ≡ false
        → entry_of (set es i (new_client mac)) other ≡ some e
    kept other e n f c (inl off) =
        first-set_kept (is_client other) es i (new_client mac) no_client e f
          (not_client mac other (new_client mac) refl n) (λ q. absurd (cc))
    kept other e n f c (inr off) =
        first-set_other (is_client other) es i (new_client mac) no_client lt (ground (arith, off))
          (not_client mac other (new_client mac) refl n)
        ∙ f

-- After `client_stats_on_connect`, a client that had an entry has it marked as connected, with its
-- counts kept; any other client has a new entry with counts of 0, in a free slot or in that of a
-- disconnected client; or, in a table of connected clients, nothing has changed. In every case the
-- entries of the other connected clients are as they were.
pub client_stats_on_connect-Connected :
    (es : List ClientStats) (mac : List ℕ) → Connected es mac (client_stats_on_connect es mac)
unfolding client_stats_on_connect
client_stats_on_connect-Connected es mac = elim (Option-cases (find_index (is_client mac) es)) [
  | inr (i, f) ↦
      let (x, there, ok, lt) = find_index-some (is_client mac) es i f in
      let known = get_or_of_get_elem? es i x no_client there in
      let old = get_or es i no_client in
      let mine : is_client mac old ≡ true = rw known ok in
      let same : old.mac ≡ mac = same_bytes→eq old.mac mac (ground (arith, mine)) in
      rw f (
        again old mine (first-set_hit (is_client mac) es i (joined old) f mine) (λ other e n h c.
          first-set_other (is_client other) es i (joined old) no_client lt
            (not_client mac other old same n) (not_client mac other (joined old) same n)
          ∙ h))
  | inl f ↦
      let absent = first-find_index (is_client mac) es f in
      elim (Option-cases (find_index (λ e. not (is_active e)) es)) [
        | inr (i, g) ↦
            let (x, there, ok, lt) = find_index-some (λ e. not (is_active e)) es i g in
            let known = get_or_of_get_elem? es i x no_client there in
            rw (f, g) (seated es mac i absent lt (inr (rw known (ground (arith, ok)))))
        | inl g ↦ elim (Option-cases (find_index (λ e. is_active e && not (is_connected e)) es)) [
          | inr (i, k) ↦
              let (x, there, ok, lt) =
                find_index-some (λ e. is_active e && not (is_connected e)) es i k in
              let known = get_or_of_get_elem? es i x no_client there in
              rw (f, g, k) (seated es mac i absent lt (inl (rw known (ground (arith, ok)))))
          | inl k ↦
              rw (f, g, k)
                (full absent refl (find_index-none (λ e. is_active e && not (is_connected e)) es k))
        ]
      ]
]
