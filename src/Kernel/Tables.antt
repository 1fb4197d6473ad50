-- ===== src/Kernel/Tables.antt =====
-- A kernel that runs: the maps of bpf/upf_maps.h as one list of entries, with room for a fixed
-- number of them. It shows that the interface can be met, and executes the examples.
pub mod Laws
pub mod Effects
pub mod Instance
use Prim.Native.String.{◌++◌ as str_append}
use ebpf_upf.Prelude.{
  pos, negsuc, ℕ, zero, suc, ◌+◌, String, Bool, true, false, ◌&&◌, List, [], ◌∷◌, ◌++◌, Option,
  none, some, length, take, get_elem?, ltb, ◌==◌, str_eq, if◌then◌else◌,
}
use ebpf_upf.Python.Struct.{Bytes}
use ebpf_upf.Maps.{key_size}
use ebpf_upf.Kernel.{Attr, obj, map_elem, Reply}

unfoldable pub bytes_eq : Bytes → Bytes → Bool
bytes_eq [] [] = true
bytes_eq [] (y ∷ ys) = false
bytes_eq (x ∷ xs) [] = false
bytes_eq (x ∷ xs) (y ∷ ys) = x == y && bytes_eq xs ys

unfoldable pub all_bytes : Bytes → Bool
all_bytes [] = true
all_bytes (x ∷ xs) = ltb x 256 && all_bytes xs

pub record Entry : Type 0 where
  pub path : String
  pub key : Bytes
  pub value : Bytes

pub record Tables : Type 0 where
  pub opened : List String
  pub entries : List Entry

unfoldable pub is_at : String → Bytes → Entry → Bool
unfolding bytes_eq
is_at p k e = str_eq e.path p && bytes_eq e.key k

unfoldable pub find : String → Bytes → List Entry → Option Bytes
unfolding is_at
find p k [] = none
find p k (e ∷ es) = if is_at p k e then some e.value else find p k es

unfoldable pub without : String → Bytes → List Entry → List Entry
unfolding is_at
without p k [] = []
without p k (e ∷ es) = if is_at p k e then without p k es else e ∷ without p k es

abbrev pub empty : Tables
empty = record { opened = []; entries = [] }

abbrev pub failure : ℕ → Reply
failure errno = record { ret = negsuc 0; errno = errno; value = [] }

abbrev pub success : ℕ → Bytes → Reply
success n value = record { ret = pos n; errno = 0; value = value }

module _ (pin_base : String) (capacity : ℕ) where
  abbrev pub pin : String → String
  pin n = str_append pin_base (str_append "/" n)

  unfoldable pub value_bytes : String → ℕ
  value_bytes p =
      if str_eq p (pin "teid_session")
      then 16
      else if str_eq p (pin "pdr_table")
      then 16
      else if str_eq p (pin "far_table")
      then 16
      else if str_eq p (pin "qer_table")
      then 24
      else if str_eq p (pin "qer_state")
      then 16
      else if str_eq p (pin "tc_bundle_map")
      then 56
      else if str_eq p (pin "urr_counters")
      then 32
      else if str_eq p (pin "dl_ue_map")
      then 12
      else if str_eq p (pin "metrics")
      then 8
      else if str_eq p (pin "upf_config_map")
      then 4
      else 0

  unfoldable pub open_pinned : String → Tables → Reply × Tables
  open_pinned p s =
      if value_bytes p == 0
      then (failure 2, s)
      else (success (length s.opened) [], record s { opened = s.opened ++ (p ∷ []) })

  unfoldable pub read_elem : Option String → Bytes → Tables → Reply × Tables
  read_elem none k s = (failure 9, s)
  read_elem (some p) k s = elim (find p k s.entries) [
    | none ↦ (failure 2, s)
    | some v ↦ (success 0 v, s)
  ]

  -- A new value of the wrong size is refused, and so is a new entry when all are in use.
  unfoldable pub write_elem : Option String → Bytes → Bytes → Tables → Reply × Tables
  write_elem none k vb s = (failure 9, s)
  write_elem (some p) k vb s =
      let v = take (value_bytes p) vb in
      let rest = without p k s.entries in
      if length v == value_bytes p && (all_bytes v && ltb (length rest) capacity)
      then (success 0 vb, record s { entries = record { path = p; key = k; value = v } ∷ rest })
      else (failure 7, s)

  unfoldable pub remove_elem : Option String → Bytes → Tables → Reply × Tables
  remove_elem none k s = (failure 9, s)
  remove_elem (some p) k s = elim (find p k s.entries) [
    | none ↦ (failure 2, s)
    | some v ↦ (success 0 [], record s { entries = without p k s.entries })
  ]

  unfoldable pub run : ℕ → Attr → ℕ → Tables → Reply × Tables
  unfolding open_pinned read_elem write_elem remove_elem value_bytes find without all_bytes
  run cmd (obj p bpf_fd file_flags) z s = if cmd == 7 then open_pinned p s else (failure 22, s)
  run cmd (map_elem d kb vb flags) z s =
      let r = get_elem? s.opened d in
      let k = take key_size kb in
      if cmd == 1
      then read_elem r k s
      else if cmd == 2
      then write_elem r k vb s
      else if cmd == 3
      then remove_elem r k s
      else (failure 22, s)
