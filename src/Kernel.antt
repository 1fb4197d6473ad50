-- ===== src/Kernel.antt =====
-- The bpf(2) system call, which is not part of the repository: the attributes as loader/bpf_syscall.py
-- fills them, and an interface with the documented behaviour of the four commands that it issues.
pub mod Tables
use ebpf_upf.Prelude.{
  ℤ, pos, negsuc, ℕ, ◌≤◌, ◌≡◌, ◌⊎◌, String, Bool, Option, some, [], length, take, All,
}
use ebpf_upf.Python.Struct.{Bytes, IsByte}
use ebpf_upf.Maps.{Maps, WroteAs, Erased, key_size}

-- `union bpf_attr`, with each pointer given as the buffer that it points to.
pub data Attr : Type 0 where
  obj : String → ℕ → ℕ → Attr
  map_elem : ℕ → Bytes → Bytes → ℕ → Attr

-- The result, `errno`, and the buffer behind the value pointer as the call leaves it.
pub record Reply : Type 0 where
  pub ret : ℤ
  pub errno : ℕ
  pub value : Bytes

abbrev pub IsFailure : ℤ → Type 0
IsFailure r = (n : ℕ) × (r ≡ negsuc n)

abbrev pub IsSuccess : ℤ → Type 0
IsSuccess r = (n : ℕ) × (r ≡ pos n)

-- `refers s fd` is the path that the descriptor was opened from, and `stored s path key` the entry
-- of the map that is pinned there.
pub record Kernel : Type 1 where
  pub State : Type 0
  pub bpf : ℕ → Attr → ℕ → State → Reply × State
  pub refers : State → ℕ → Option String
  pub stored : State → Maps
  pub value_bytes : String → ℕ
  pub lru : String → Bool
  pub IsValid : State → Type 0
  pub bpf_IsValid : (cmd : ℕ) (a : Attr) (z : ℕ) (s : State) → IsValid s → IsValid (bpf cmd a z s).1
  -- Map memory holds bytes, of the size that the map was created with.
  pub stored_size :
      (s : State) (p : String) (k v : Bytes)
      → IsValid s
      → stored s p k ≡ some v
      → (length v ≡ value_bytes p) × All IsByte v
  -- An open descriptor keeps its map, whatever else is called.
  pub refers_kept :
      (cmd : ℕ) (a : Attr) (z : ℕ) (s : State) (fd : ℕ) (p : String)
      → refers s fd ≡ some p
      → refers (bpf cmd a z s).1 fd ≡ some p
  -- BPF_OBJ_GET
  pub obj_get_effect :
      (p : String) (s : State)
      → (stored (bpf 7 (obj p 0 0) 16 s).1 ≡ stored s)
        × (((fd : ℕ) × ((bpf 7 (obj p 0 0) 16 s).0.ret ≡ pos fd)
              × (refers (bpf 7 (obj p 0 0) 16 s).1 fd ≡ some p))
            ⊎ IsFailure (bpf 7 (obj p 0 0) 16 s).0.ret)
  -- BPF_MAP_LOOKUP_ELEM
  pub lookup_stored :
      (fd : ℕ) (kb vb : Bytes) (z : ℕ) (s : State)
      → stored (bpf 1 (map_elem fd kb vb 0) z s).1 ≡ stored s
  pub lookup_effect :
      (fd : ℕ) (kb vb : Bytes) (p : String) (s : State)
      → refers s fd ≡ some p
      → key_size ≤ length kb
      → length vb ≡ value_bytes p
      → IsSuccess (bpf 1 (map_elem fd kb vb 0) 32 s).0.ret
          × (stored s p (take key_size kb) ≡ some (bpf 1 (map_elem fd kb vb 0) 32 s).0.value)
        ⊎ IsFailure (bpf 1 (map_elem fd kb vb 0) 32 s).0.ret
  -- BPF_MAP_UPDATE_ELEM with BPF_ANY
  pub update_effect :
      (fd : ℕ) (kb vb : Bytes) (p : String) (s : State)
      → IsValid s
      → refers s fd ≡ some p
      → key_size ≤ length kb
      → value_bytes p ≤ length vb
      → All IsByte vb
      → IsSuccess (bpf 2 (map_elem fd kb vb 0) 32 s).0.ret
          × WroteAs
              (lru p)
              p
              (take key_size kb)
              (take (value_bytes p) vb)
              (stored s)
              (stored (bpf 2 (map_elem fd kb vb 0) 32 s).1)
        ⊎ IsFailure (bpf 2 (map_elem fd kb vb 0) 32 s).0.ret
          × (stored (bpf 2 (map_elem fd kb vb 0) 32 s).1 ≡ stored s)
  -- BPF_MAP_DELETE_ELEM
  pub delete_effect :
      (fd : ℕ) (kb : Bytes) (p : String) (s : State)
      → refers s fd ≡ some p
      → key_size ≤ length kb
      → IsSuccess (bpf 3 (map_elem fd kb [] 0) 32 s).0.ret
          × Erased p (take key_size kb) (stored s) (stored (bpf 3 (map_elem fd kb [] 0) 32 s).1)
        ⊎ IsFailure (bpf 3 (map_elem fd kb [] 0) 32 s).0.ret
          × (stored (bpf 3 (map_elem fd kb [] 0) 32 s).1 ≡ stored s)
