-- ===== src/Portmap.antt =====
-- The table of port mappings: main/portmap.c and include/portmap.h. The number of slots is the
-- length of the table. The calls of the NAT engine are a list, in their order; `saved` is what
-- `set_config_param_blob` answers, and what NVS answers to the other functions is an argument.
pub mod Calls
mod Examples
use esp32_pppo_e_router.Base.{
  ℕ, ◌+◌, Bool, true, false, not, ◌&&◌, Option, none, some, List, [], ◌∷◌, ◌++◌, map, length,
  get_or, set, replicate, find_index, ◌==◌, if◌then◌else◌,
}

-- `struct portmap_table_entry`
pub record PortmapEntry : Type 0 where
  pub daddr : ℕ  -- uint32
  pub mport : ℕ  -- uint16
  pub dport : ℕ  -- uint16
  pub proto : ℕ  -- uint8
  pub valid : ℕ  -- uint8
  pub iface : ℕ  -- uint8, always 0

abbrev pub zero_mapping : PortmapEntry
zero_mapping = record { daddr = 0; mport = 0; dport = 0; proto = 0; valid = 0; iface = 0 }

-- the globals that portmap.c uses
pub record Portmap : Type 0 where
  pub portmap_tab : List PortmapEntry
  pub pppoe_enabled : Bool
  pub pppoe_ip : ℕ
  pub my_ip : ℕ

-- a call of `ip_portmap_add` or `ip_portmap_remove`
pub data NaptCall : Type 0 where
  napt_add : ℕ → ℕ → ℕ → ℕ → ℕ → NaptCall
  napt_remove : ℕ → ℕ → NaptCall

pub record Reply : Type 0 where
  pub state : Portmap
  pub calls : List NaptCall
  pub err : ℕ

abbrev pub portmap_ok : ℕ
portmap_ok = 0

abbrev pub portmap_no_mem : ℕ
portmap_no_mem = 0x101

abbrev pub is_mapped : PortmapEntry → Bool
is_mapped e = not (e.valid == 0)

abbrev pub bind_ip : Portmap → ℕ
bind_ip s = if s.pppoe_enabled then s.pppoe_ip else s.my_ip

abbrev pub add_call : ℕ → PortmapEntry → NaptCall
add_call ip e = napt_add e.proto ip e.mport e.daddr e.dport

abbrev pub remove_call : PortmapEntry → NaptCall
remove_call e = napt_remove e.proto e.mport

-- the loops over the table that make a call for each valid entry
unfoldable pub calls_of : (PortmapEntry → NaptCall) → List PortmapEntry → List NaptCall
calls_of call [] = []
calls_of call (e ∷ es) = let rest = calls_of call es in if is_mapped e then call e ∷ rest else rest

unfoldable pub apply_portmap_tab : Portmap → Reply
unfolding calls_of
apply_portmap_tab s = record {
  state = s;
  calls = if bind_ip s == 0 then [] else calls_of (add_call (bind_ip s)) s.portmap_tab;
  err = portmap_ok;
}

unfoldable pub delete_portmap_tab : Portmap → Reply
unfolding calls_of
delete_portmap_tab s = record {
  state = s;
  calls = calls_of remove_call s.portmap_tab;
  err = portmap_ok;
}

-- What NVS answers when the table is loaded: whether it could be opened, the size of the blob, and
-- its contents.
pub record Loaded : Type 0 where
  pub open_err : ℕ
  pub size_err : ℕ
  pub size_ok : Bool
  pub read_err : ℕ
  pub blob : List PortmapEntry

abbrev pub portmap_invalid_length : ℕ
portmap_invalid_length = 0x110c

unfoldable pub get_portmap_tab : Portmap → Loaded → Portmap × ℕ
get_portmap_tab s nvs =
    if not (nvs.open_err == portmap_ok)
    then (s, nvs.open_err)
    else if not (nvs.size_err == portmap_ok)
    then (s, nvs.size_err)
    else if not nvs.size_ok
    then (s, portmap_invalid_length)
    else if not (nvs.read_err == portmap_ok)
    then (record s { portmap_tab = replicate (length s.portmap_tab) zero_mapping }, nvs.read_err)
    else (record s { portmap_tab = nvs.blob }, portmap_ok)

abbrev pub new_mapping : ℕ → ℕ → ℕ → ℕ → PortmapEntry
new_mapping proto mport daddr dport = record {
  daddr = daddr;
  mport = mport;
  dport = dport;
  proto = proto;
  valid = 1;
  iface = 0;
}

abbrev pub add_mapping : Portmap → PortmapEntry → ℕ → Option ℕ → Reply
add_mapping s e saved none = record { state = s; calls = []; err = portmap_no_mem }
add_mapping s e saved (some i) = record {
  state = record s { portmap_tab = set s.portmap_tab i e };
  calls = if not (bind_ip s == 0) then add_call (bind_ip s) e ∷ [] else [];
  err = saved;
}

unfoldable pub add_portmap : Portmap → ℕ → ℕ → ℕ → ℕ → ℕ → Reply
add_portmap s proto mport daddr dport saved =
    add_mapping s (new_mapping proto mport daddr dport) saved
      (find_index (λ e. not (is_mapped e)) s.portmap_tab)

abbrev pub is_mapping : ℕ → ℕ → PortmapEntry → Bool
is_mapping proto mport e = is_mapped e && e.mport == mport && e.proto == proto

abbrev pub unmapped : PortmapEntry → PortmapEntry
unmapped e = record e { valid = 0 }

abbrev pub del_mapping : Portmap → ℕ → ℕ → ℕ → Option ℕ → Reply
del_mapping s proto mport saved none = record { state = s; calls = []; err = portmap_ok }
del_mapping s proto mport saved (some i) = record {
  state = record s {
    portmap_tab = set s.portmap_tab i (unmapped (get_or s.portmap_tab i zero_mapping));
  };
  calls = napt_remove proto mport ∷ [];
  err = saved;
}

unfoldable pub del_portmap : Portmap → ℕ → ℕ → ℕ → Reply
del_portmap s proto mport saved =
    del_mapping s proto mport saved (find_index (is_mapping proto mport) s.portmap_tab)

-- The loop of `clear_all_portmaps`: the calls, and the table that is left.
unfoldable pub clear_mappings : List PortmapEntry → List PortmapEntry × List NaptCall
clear_mappings [] = ([], [])
clear_mappings (e ∷ es) =
    let (left, calls) = clear_mappings es in
    if is_mapped e then (unmapped e ∷ left, remove_call e ∷ calls) else (e ∷ left, calls)

unfoldable pub clear_all_portmaps : Portmap → ℕ → Reply
unfolding clear_mappings
clear_all_portmaps s saved =
    let (left, calls) = clear_mappings s.portmap_tab in
    record { state = record s { portmap_tab = left }; calls = calls; err = saved }
