-- ===== src/Maps.antt =====
-- The pinned BPF maps as the agent and the datapath share them: names and sizes of bpf/upf_maps.h,
-- what one update or deletion does to their contents, and the interface between the agent and the
-- map cache of loader/bpf_syscall.py.
pub mod Logic
pub mod Worlds
use ebpf_upf.Prelude.{
  ℤ, ℕ, String, ◌≡◌, ◌≢◌, ◌⊎◌, Bool, true, false, Option, none, some, List, [], ◌∷◌, str_eq, length,
  All, if◌then◌else◌,
}
use ebpf_upf.Python.{ok, err, os_error}
use ebpf_upf.Python.Exec.{Exec}
use ebpf_upf.Python.Struct.{Bytes, IsByte}

-- The contents of all maps: what the kernel holds for a map's name and a key.
abbrev pub Maps : Type 0
Maps = String → Bytes → Option Bytes

-- Every map is keyed by a `__u32`.
abbrev pub key_size : ℕ
key_size = 4

-- sizeof of each map's value type; 0 for a name that the header does not declare.
abbrev pub value_size : String → ℕ
value_size n =
    if str_eq n "teid_session"
    then 16
    else if str_eq n "pdr_table"
    then 16
    else if str_eq n "far_table"
    then 16
    else if str_eq n "qer_table"
    then 24
    else if str_eq n "qer_state"
    then 16
    else if str_eq n "tc_bundle_map"
    then 56
    else if str_eq n "urr_counters"
    then 32
    else if str_eq n "dl_ue_map"
    then 12
    else if str_eq n "metrics"
    then 8
    else if str_eq n "upf_config_map"
    then 4
    else 0

-- BPF_MAP_TYPE_LRU_HASH: an insertion may evict other entries of the same map.
abbrev pub is_lru : String → Bool
is_lru n = str_eq n "teid_session"

abbrev pub Fits : String → Bytes → Bytes → Type 0
Fits n k v = (length k ≡ key_size) × (length v ≡ value_size n) × All IsByte v

-- What may happen to the other entries of a map when one is written.
abbrev pub Kept : Bool → Option Bytes → Option Bytes → Type 0
Kept false o o' = o' ≡ o
Kept true o o' = (o' ≡ o) ⊎ (o' ≡ none)

-- `m'` is `m` after one successful update of the key `k` of the map `n`.
pub record WroteAs (lru : Bool) (n : String) (k v : Bytes) (m m' : Maps) : Type 0 where
  pub here : m' n k ≡ some v
  pub elsewhere : (j : Bytes) → j ≢ k → Kept lru (m n j) (m' n j)
  pub others : (n' : String) → n' ≢ n → m' n' ≡ m n'

abbrev pub Wrote : String → Bytes → Bytes → Maps → Maps → Type 0
Wrote n = WroteAs (is_lru n) n

-- `m'` is `m` after the deletion of the key `k` of the map `n`.
pub record Erased (n : String) (k : Bytes) (m m' : Maps) : Type 0 where
  pub here : m' n k ≡ none
  pub elsewhere : (j : Bytes) → j ≢ k → m' n j ≡ m n j
  pub others : (n' : String) → n' ≢ n → m' n' ≡ m n'

-- What the agent asks of its map cache. `content` is what a packet sees that arrives in this world,
-- and `passed` are the contents that a packet could have seen so far, between any two system calls.
pub record PinnedMaps : Type 1 where
  pub World : Type 0
  pub update : String → Bytes → Bytes → Exec World (Unit {0})
  pub lookup : String → Bytes → ℕ → Exec World Bytes
  pub delete : String → Bytes → Exec World (Unit {0})
  pub content : World → Maps
  pub passed : World → List Maps
  pub IsOpen : World → Type 0
  pub update_IsOpen : (n : String) (k v : Bytes) (w : World) → IsOpen w → IsOpen (update n k v w).1
  pub lookup_IsOpen :
      (n : String) (k : Bytes) (z : ℕ) (w : World) → IsOpen w → IsOpen (lookup n k z w).1
  pub delete_IsOpen : (n : String) (k : Bytes) (w : World) → IsOpen w → IsOpen (delete n k w).1
  pub update_effect :
      (n : String) (k v : Bytes) (w : World)
      → IsOpen w
      → Fits n k v
      → ((update n k v w).0 ≡ ok tt) × Wrote n k v (content w) (content (update n k v w).1)
        ⊎ ((e : ℤ) × ((update n k v w).0 ≡ err (os_error e))
            × (content (update n k v w).1 ≡ content w))
  pub delete_effect :
      (n : String) (k : Bytes) (w : World)
      → IsOpen w
      → length k ≡ key_size
      → ((delete n k w).0 ≡ ok tt) × Erased n k (content w) (content (delete n k w).1)
        ⊎ ((e : ℤ) × ((delete n k w).0 ≡ err (os_error e)) × (content (delete n k w).1 ≡ content w))
  pub lookup_effect :
      (n : String) (k : Bytes) (w : World)
      → IsOpen w
      → length k ≡ key_size
      → ((b : Bytes) × ((lookup n k (value_size n) w).0 ≡ ok b) × (content w n k ≡ some b))
        ⊎ ((e : ℤ) × ((lookup n k (value_size n) w).0 ≡ err (os_error e)))
  pub lookup_content :
      (n : String) (k : Bytes) (z : ℕ) (w : World)
      → IsOpen w
      → content (lookup n k z w).1 ≡ content w
  pub content_size :
      (n : String) (k v : Bytes) (w : World)
      → IsOpen w
      → content w n k ≡ some v
      → (length v ≡ value_size n) × All IsByte v
  -- No other contents are passed on the way. For an array map with values of more than a word this
  -- counts the copy as one step.
  pub update_passed :
      (J : Maps → Type 0) (n : String) (k v : Bytes) (w : World)
      → IsOpen w
      → J (content w)
      → J (content (update n k v w).1)
      → All J (passed w)
      → All J (passed (update n k v w).1)
  pub delete_passed :
      (J : Maps → Type 0) (n : String) (k : Bytes) (w : World)
      → IsOpen w
      → J (content w)
      → J (content (delete n k w).1)
      → All J (passed w)
      → All J (passed (delete n k w).1)
  pub lookup_passed :
      (J : Maps → Type 0) (n : String) (k : Bytes) (z : ℕ) (w : World)
      → IsOpen w
      → J (content w)
      → J (content (lookup n k z w).1)
      → All J (passed w)
      → All J (passed (lookup n k z w).1)
