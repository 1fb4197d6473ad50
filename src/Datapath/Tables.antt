-- ===== src/Datapath/Tables.antt =====
-- The value types of bpf/upf_maps.h as the datapath reads them: each field at its offset, in the
-- byte order of the host, and a lookup with a `__u32` key.
use mathlib.Core.Option
use ebpf_upf.Prelude.{ℕ, ◌+◌, ◌*◌, ◌%◌, String, Option, take, drop}
use ebpf_upf.Python.Struct.{Bytes, le_bytes, le_value}
use ebpf_upf.Maps.{Maps}

unfoldable pub u32 : Bytes → ℕ → ℕ
unfolding le_value
u32 b off = le_value (take 4 (drop off b))

unfoldable pub u64 : Bytes → ℕ → ℕ
unfolding le_value
u64 b off = le_value (take 8 (drop off b))

pub record SessionVal : Type 0 where
  pub pdr_id : ℕ
  pub qer_id : ℕ
  pub far_id : ℕ

unfoldable pub session_val : Bytes → SessionVal
session_val b = record { pdr_id = u32 b 0; qer_id = u32 b 4; far_id = u32 b 8 }

pub record PdrVal : Type 0 where
  pub far_id : ℕ
  pub qer_id : ℕ
  pub precedence : ℕ
  pub urr_id : ℕ

unfoldable pub pdr_val : Bytes → PdrVal
pdr_val b = record { far_id = u32 b 0; qer_id = u32 b 4; precedence = u32 b 8; urr_id = u32 b 12 }

pub record FarVal : Type 0 where
  pub action : ℕ
  pub out_ifindex : ℕ
  pub peer_ipv4_be : ℕ
  pub out_teid_be : ℕ

unfoldable pub far_val : Bytes → FarVal
far_val b = record {
  action = u32 b 0;
  out_ifindex = u32 b 4;
  peer_ipv4_be = u32 b 8;
  out_teid_be = u32 b 12;
}

pub record QerVal : Type 0 where
  pub mbr_ul_bps : ℕ
  pub mbr_dl_bps : ℕ
  pub burst_bytes : ℕ

unfoldable pub qer_val : Bytes → QerVal
qer_val b = record { mbr_ul_bps = u64 b 0; mbr_dl_bps = u64 b 8; burst_bytes = u32 b 16 }

pub record BundleSlot : Type 0 where
  pub far_id : ℕ
  pub qer_id : ℕ
  pub urr_id : ℕ
  pub precedence : ℕ
  pub generation : ℕ

unfoldable pub bundle_slot : Bytes → ℕ → BundleSlot
bundle_slot b off = record {
  far_id = u32 b off;
  qer_id = u32 b (off + 4);
  urr_id = u32 b (off + 8);
  precedence = u32 b (off + 12);
  generation = u32 b (off + 16);
}

-- `&bundle->slot[bundle->active & 1]`
unfoldable pub current_slot : Bytes → BundleSlot
current_slot b = bundle_slot b (8 + 24 * (u32 b 0 % 2))

-- `bpf_map_lookup_elem(&map, &id)`
unfoldable pub map_lookup : Maps → String → ℕ → Option Bytes
map_lookup m n id = m n (le_bytes 4 id)

-- The one read of `tc_bundle_map` that decides a packet's identifiers.
unfoldable pub bundle_of : Maps → ℕ → Option BundleSlot
unfolding map_lookup
bundle_of m pdr_id = Option.map current_slot (map_lookup m "tc_bundle_map" pdr_id)
