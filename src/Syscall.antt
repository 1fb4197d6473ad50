-- ===== src/Syscall.antt =====
-- loader/bpf_syscall.py: the wrapper of bpf(2), and the cache of open map descriptors.
pub mod Effects
pub mod Pinned
pub mod Implements
pub mod Instance
pub mod Refines
use Prim.Native.String.{◌++◌ as str_append}
use ebpf_upf.Prelude.{
  ℤ, pos, negsuc, ℕ, String, List, [], ◌∷◌, ◌++◌, Option, none, some, str_eq, replicate,
  if◌then◌else◌,
}
use ebpf_upf.Python.{Result, ok, err, os_error}
use ebpf_upf.Python.Exec.{Exec, pure, raise, ◌>>=◌, ◌>>◌}
use ebpf_upf.Python.Struct.{Bytes}
use ebpf_upf.Kernel.{Attr, obj, map_elem, Reply, Kernel}

abbrev pub bpf_map_lookup_elem_cmd : ℕ
bpf_map_lookup_elem_cmd = 1

abbrev pub bpf_map_update_elem_cmd : ℕ
bpf_map_update_elem_cmd = 2

abbrev pub bpf_map_delete_elem_cmd : ℕ
bpf_map_delete_elem_cmd = 3

abbrev pub bpf_obj_get_cmd : ℕ
bpf_obj_get_cmd = 7

abbrev pub bpf_any : ℕ
bpf_any = 0

-- `ctypes.sizeof` of the two structures.
abbrev pub sizeof : Attr → ℕ
sizeof (obj pathname bpf_fd file_flags) = 16
sizeof (map_elem map_fd key value flags) = 32

-- `ctypes.create_string_buffer`: of bytes, with a NUL behind them, or of a size, zeroed.
abbrev pub buffer_of : Bytes → Bytes
buffer_of b = b ++ (0 ∷ [])

abbrev pub buffer_sized : ℕ → Bytes
buffer_sized n = replicate n 0

-- The descriptors that are cached, by name, with the kernel's state.
-- `trace` records the kernel's state after every call, latest first.
pub record World (S : Type 0) : Type 0 where
  pub fds : List (String × ℕ)
  pub kernel : S
  pub trace : List S

unfoldable pub find_fd : String → List (String × ℕ) → Option ℕ
find_fd name [] = none
find_fd name ((n, d) ∷ fds) = if str_eq n name then some d else find_fd name fds

module _ (K : Kernel) where
  open K use {State}

  -- A negative result is raised as `OSError(errno)`.
  check : Reply → Exec (World State) Reply
  check reply = elim reply.ret [
    | pos n ↦ pure reply
    | negsuc n ↦ raise (os_error (pos reply.errno))
  ]

  unfoldable pub bpf : ℕ → Attr → Exec (World State) Reply
  unfolding check
  bpf cmd attr w =
      let (reply, s) = K.bpf cmd attr (sizeof attr) w.kernel in
      check reply (record w { kernel = s; trace = s ∷ w.trace })

  -- The new descriptor.
  descriptor : ℤ → ℕ
  descriptor (pos n) = n
  descriptor (negsuc n) = 0

  unfoldable pub bpf_obj_get : String → Exec (World State) ℕ
  unfolding bpf descriptor
  bpf_obj_get pinned_path = do
    reply ← bpf bpf_obj_get_cmd (obj pinned_path 0 0)
    pure (descriptor reply.ret)

  unfoldable pub bpf_map_update_elem : ℕ → Bytes → Bytes → ℕ → Exec (World State) (Unit {0})
  unfolding bpf
  bpf_map_update_elem map_fd key value flags = do
    bpf bpf_map_update_elem_cmd (map_elem map_fd (buffer_of key) (buffer_of value) flags)
    pure tt

  unfoldable pub bpf_map_lookup_elem : ℕ → Bytes → ℕ → Exec (World State) Bytes
  unfolding bpf
  bpf_map_lookup_elem map_fd key value_size = do
    reply ←
        bpf bpf_map_lookup_elem_cmd (map_elem map_fd (buffer_of key) (buffer_sized value_size) 0)
    pure reply.value

  -- The value pointer stays null.
  unfoldable pub bpf_map_delete_elem : ℕ → Bytes → Exec (World State) (Unit {0})
  unfolding bpf
  bpf_map_delete_elem map_fd key = do
    bpf bpf_map_delete_elem_cmd (map_elem map_fd (buffer_of key) [] 0)
    pure tt

  -- `PinnedMapCache`: the base path is fixed when the cache is made.
  module _ (pin_base : String) where
    abbrev pub pinned_path : String → String
    pinned_path name = str_append pin_base (str_append "/" name)

    remember : String → ℕ → Exec (World State) ℕ
    remember name d w = (ok d, record w { fds = (name, d) ∷ w.fds })

    open_fd : Option ℕ → String → Exec (World State) ℕ
    open_fd (some d) name = pure d
    open_fd none name = do d ← bpf_obj_get (pinned_path name); remember name d

    unfoldable pub fd : String → Exec (World State) ℕ
    unfolding find_fd remember open_fd
    fd name w = open_fd (find_fd name w.fds) name w

    unfoldable pub update : String → Bytes → Bytes → ℕ → Exec (World State) (Unit {0})
    update name key value flags = do d ← fd name; bpf_map_update_elem d key value flags

    unfoldable pub lookup : String → Bytes → ℕ → Exec (World State) Bytes
    lookup name key value_size = do d ← fd name; bpf_map_lookup_elem d key value_size

    unfoldable pub delete : String → Bytes → Exec (World State) (Unit {0})
    delete name key = do d ← fd name; bpf_map_delete_elem d key
