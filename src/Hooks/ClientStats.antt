-- ===== src/Hooks/ClientStats.antt =====
-- The traffic statistics of the access point's clients (main/netif_hooks.c and
-- include/client_stats.h). The number of slots is the length of the table.
pub mod Table
mod Examples
use esp32_pppo_e_router.Base.{
  ℕ, ◌+◌, Bool, true, false, not, ◌&&◌, Option, none, some, List, [], ◌∷◌, map, take, get_or, set,
  keep, find_index, ◌==◌, if◌then◌else◌, same_bytes, u32, u64,
}

-- `client_stats_entry_t`
pub record ClientStats : Type 0 where
  pub mac : List ℕ
  pub active : ℕ  -- uint8: the slot is in use
  pub connected : ℕ  -- uint8
  pub bytes_sent : ℕ  -- uint64
  pub bytes_received : ℕ  -- uint64
  pub packets_sent : ℕ  -- uint32
  pub packets_received : ℕ  -- uint32

abbrev pub no_client : ClientStats
no_client = record {
  mac = [];
  active = 0;
  connected = 0;
  bytes_sent = 0;
  bytes_received = 0;
  packets_sent = 0;
  packets_received = 0;
}

abbrev pub is_active : ClientStats → Bool
is_active e = not (e.active == 0)

abbrev pub is_connected : ClientStats → Bool
is_connected e = not (e.connected == 0)

abbrev pub is_client : List ℕ → ClientStats → Bool
is_client mac e = is_active e && same_bytes e.mac mac

unfoldable pub find_client_stats : List ClientStats → List ℕ → Option ℕ
find_client_stats es mac = find_index (is_client mac) es

abbrev pub joined : ClientStats → ClientStats
joined e = record e { connected = 1 }

abbrev pub new_client : List ℕ → ClientStats
new_client mac = record no_client { mac = mac; active = 1; connected = 1 }

-- The free slot that the loop stops at, or else the first disconnected one that it passed.
abbrev pub free_or : Option ℕ → Option ℕ → Option ℕ
free_or (some free_slot) disconnected_slot = some free_slot
free_or none disconnected_slot = disconnected_slot

abbrev pub slot_for : List ClientStats → Option ℕ
slot_for es =
    free_or (find_index (λ e. not (is_active e)) es)
      (find_index (λ e. is_active e && not (is_connected e)) es)

abbrev pub seat : List ClientStats → List ℕ → Option ℕ → List ClientStats
seat es mac none = es
seat es mac (some i) = set es i (new_client mac)

abbrev pub connect_at : List ClientStats → List ℕ → Option ℕ → List ClientStats
connect_at es mac (some i) = set es i (joined (get_or es i no_client))
connect_at es mac none = seat es mac (slot_for es)

unfoldable pub client_stats_on_connect : List ClientStats → List ℕ → List ClientStats
unfolding find_client_stats
client_stats_on_connect es mac = connect_at es mac (find_client_stats es mac)

abbrev pub disconnect_at : List ClientStats → Option ℕ → List ClientStats × Bool
disconnect_at es none = (es, false)
disconnect_at es (some i) =
    let e = get_or es i no_client in
    if is_connected e then (set es i (record e { connected = 0 }), true) else (es, false)

unfoldable pub client_stats_on_disconnect : List ClientStats → List ℕ → List ClientStats × Bool
unfolding find_client_stats
client_stats_on_disconnect es mac = disconnect_at es (find_client_stats es mac)

-- the entries that are copied out, in order
unfoldable pub client_stats_get_all : List ClientStats → ℕ → List ClientStats
client_stats_get_all es max_entries = take max_entries (keep is_active es)

abbrev pub zeroed : ClientStats → ClientStats
zeroed e =
    if is_active e
    then record e { bytes_sent = 0; bytes_received = 0; packets_sent = 0; packets_received = 0 }
    else e

unfoldable pub client_stats_reset_all : List ClientStats → List ClientStats
client_stats_reset_all es = map zeroed es
