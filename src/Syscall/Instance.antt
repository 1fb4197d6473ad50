-- ===== src/Syscall/Instance.antt =====
-- The cache of loader/bpf_syscall.py implements the interface that the agent is written against.
use ebpf_upf.Prelude.{ℕ, String, ◌≡◌, refl, ap, ◌∙◌, List, [], some, inl, inr, length, All}
use ebpf_upf.Python.Exec.{Exec, pure, ◌>>=◌}
use ebpf_upf.Python.Struct.{Bytes, IsByte}
use ebpf_upf.Maps.{Maps, PinnedMaps, value_size, is_lru}
use ebpf_upf.Kernel.{Attr, map_elem, Kernel}
use ebpf_upf.Syscall.{
  World, bpf, buffer_of, buffer_sized, pinned_path, fd, bpf_map_update_elem, bpf_map_lookup_elem,
  bpf_map_delete_elem, update, lookup, delete,
}
use ebpf_upf.Syscall.Effects.{IsOpen}
use ebpf_upf.Syscall.Pinned
use ebpf_upf.Syscall.Pinned.{take-buffer_of, length-buffer_of}
use ebpf_upf.Syscall.Implements

module _ (K : Kernel) (pin_base : String)
    (sizes : (n : String) → K.value_bytes (pinned_path K pin_base n) ≡ value_size n)
    (lrus : (n : String) → K.lru (pinned_path K pin_base n) ≡ is_lru n) where
  open K use {State}

  abbrev W : Type 0
  W = World State

  abbrev content : W → Maps
  content = Implements.content K pin_base sizes lrus

  abbrev passed : W → List Maps
  passed = Implements.passed K pin_base sizes lrus

  module _ (n : String) (k : Bytes) (w : W) (o : IsOpen K pin_base w) where
    module _ (v : Bytes) where
      abbrev by_update : ℕ → Exec W (Unit {0})
      by_update d = bpf_map_update_elem K d k v 0

      abbrev update_attr : ℕ → Attr
      update_attr d = map_elem d (buffer_of k) (buffer_of v) 0

      update_calls : (d : ℕ) (x : W) → by_update d x ≡ (bpf K 2 (update_attr d) >>= λ _. pure tt) x
      unfolding bpf_map_update_elem
      update_calls d x = refl

      pub update_IsOpen : IsOpen K pin_base (update K pin_base n k v 0 w).1
      unfolding update
      update_IsOpen =
          Pinned.run_IsOpen K pin_base sizes lrus n w o by_update 2 update_attr (λ _. tt)
            update_calls

      pub update_passed :
          (J : Maps → Type 0)
          → J (content w)
          → J (content (update K pin_base n k v 0 w).1)
          → All J (passed w)
          → All J (passed (update K pin_base n k v 0 w).1)
      unfolding update
      update_passed =
          Pinned.run_passed K pin_base sizes lrus n w o by_update 2 update_attr (λ _. tt)
            update_calls

    abbrev by_delete : ℕ → Exec W (Unit {0})
    by_delete d = bpf_map_delete_elem K d k

    abbrev delete_attr : ℕ → Attr
    delete_attr d = map_elem d (buffer_of k) [] 0

    delete_calls : (d : ℕ) (x : W) → by_delete d x ≡ (bpf K 3 (delete_attr d) >>= λ _. pure tt) x
    unfolding bpf_map_delete_elem
    delete_calls d x = refl

    pub delete_IsOpen : IsOpen K pin_base (delete K pin_base n k w).1
    unfolding delete
    delete_IsOpen =
        Pinned.run_IsOpen K pin_base sizes lrus n w o by_delete 3 delete_attr (λ _. tt) delete_calls

    pub delete_passed :
        (J : Maps → Type 0)
        → J (content w)
        → J (content (delete K pin_base n k w).1)
        → All J (passed w)
        → All J (passed (delete K pin_base n k w).1)
    unfolding delete
    delete_passed =
        Pinned.run_passed K pin_base sizes lrus n w o by_delete 3 delete_attr (λ _. tt) delete_calls

    module _ (z : ℕ) where
      abbrev by_lookup : ℕ → Exec W Bytes
      by_lookup d = bpf_map_lookup_elem K d k z

      abbrev lookup_attr : ℕ → Attr
      lookup_attr d = map_elem d (buffer_of k) (buffer_sized z) 0

      lookup_calls :
          (d : ℕ) (x : W)
          → by_lookup d x ≡ (bpf K 1 (lookup_attr d) >>= λ reply. pure reply.value) x
      unfolding bpf_map_lookup_elem
      lookup_calls d x = refl

      pub lookup_IsOpen : IsOpen K pin_base (lookup K pin_base n k z w).1
      unfolding lookup
      lookup_IsOpen =
          Pinned.run_IsOpen K pin_base sizes lrus n w o by_lookup 1 lookup_attr
            (λ reply. reply.value) lookup_calls

      pub lookup_passed :
          (J : Maps → Type 0)
          → J (content w)
          → J (content (lookup K pin_base n k z w).1)
          → All J (passed w)
          → All J (passed (lookup K pin_base n k z w).1)
      unfolding lookup
      lookup_passed =
          Pinned.run_passed K pin_base sizes lrus n w o by_lookup 1 lookup_attr
            (λ reply. reply.value) lookup_calls

      pub lookup_content : content (lookup K pin_base n k z w).1 ≡ content w
      unfolding lookup
      lookup_content =
          let from_fd = Pinned.content-fd K pin_base sizes lrus n w o in
          elim (Pinned.run_state K pin_base sizes lrus n w o by_lookup 1 lookup_attr
            (λ reply. reply.value) lookup_calls) [
              | inl e ↦ ap content e ∙ from_fd
              | inr (d, e) ↦
                  ap content e
                  ∙ ap {B = Maps} (λ c m. c (pinned_path K pin_base m))
                      (K.lookup_stored d (buffer_of k) (buffer_sized z) 32
                        (fd K pin_base n w).1.kernel)
                  ∙ from_fd
            ]

  pub content_size :
      (n : String) (k v : Bytes) (w : W)
      → IsOpen K pin_base w
      → content w n k ≡ some v
      → (length v ≡ value_size n) × All IsByte v
  content_size n k v w o h =
      let (size, bytes) = K.stored_size w.kernel (pinned_path K pin_base n) k v o.valid h in
      (size ∙ sizes n, bytes)

  -- The interface of `Maps`, with `flags=BPF_ANY`.
  abbrev pub pinned_maps : PinnedMaps
  pinned_maps = record {
    World = W;
    update = λ n k v. update K pin_base n k v 0;
    lookup = lookup K pin_base;
    delete = delete K pin_base;
    content = content;
    passed = passed;
    IsOpen = IsOpen K pin_base;
    update_IsOpen = λ n k v w o. update_IsOpen n k w o v;
    lookup_IsOpen = λ n k z w o. lookup_IsOpen n k w o z;
    delete_IsOpen = delete_IsOpen;
    update_effect =
        λ n k v w o fits. Implements.update_outcome K pin_base sizes lrus n w o k v fits;
    delete_effect = λ n k w o lk. Implements.delete_outcome K pin_base sizes lrus n w o k lk;
    lookup_effect = λ n k w o lk. Implements.lookup_outcome K pin_base sizes lrus n w o k lk;
    lookup_content = λ n k z w o. lookup_content n k w o z;
    content_size = content_size;
    update_passed = λ J n k v w o. update_passed n k w o v J;
    delete_passed = λ J n k w o. delete_passed n k w o J;
    lookup_passed = λ J n k z w o. lookup_passed n k w o z J;
  }
