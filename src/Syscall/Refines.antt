-- ===== src/Syscall/Refines.antt =====
-- What `PinnedMapCache` promises: the three operations on a map, and the descriptors it keeps.
use ebpf_upf.Prelude.{
  ℕ, ℤ, pos, ◌∷◌, String, ◌≡◌, refl, some, ◌⊎◌, inl, inr, Option-cases, eq_iff, arith,
}
use ebpf_upf.Python.{ok, err, os_error}
use ebpf_upf.Python.Struct.{Bytes}
use ebpf_upf.Maps.{Fits, value_size, is_lru}
use ebpf_upf.Kernel.{Kernel, obj}
use ebpf_upf.Syscall.{World, find_fd, pinned_path, fd, update, lookup, delete}
use ebpf_upf.Syscall.Implements
use ebpf_upf.Syscall.Implements.{
  Updated, Deleted, LookedUp, update_outcome, delete_outcome, lookup_outcome,
}
use ebpf_upf.Syscall.Effects.{IsOpen, reply_of, call_cases, after, fd_hit, fd_miss_ok, fd_miss_err}

-- Over any kernel with the documented behaviour of bpf(2), where every cached descriptor refers to
-- its map, and for a key and a value of the map's sizes: an update writes exactly that entry (an
-- LRU map may evict others), a deletion removes exactly that entry, and a lookup returns what the
-- map holds; or each raises `OSError`, and an update or deletion has then changed nothing.
pub operations_end :
    (K : Kernel) (pin_base : String)
    (sizes : (n : String) → K.value_bytes (pinned_path K pin_base n) ≡ value_size n)
    (lrus : (n : String) → K.lru (pinned_path K pin_base n) ≡ is_lru n) (n : String) (k v : Bytes)
    (w : World K.State)
    → IsOpen K pin_base w
    → Fits n k v
    → let c = Implements.content K pin_base sizes lrus w in
      Updated K pin_base sizes lrus n k v c (update K pin_base n k v 0 w)
      × Deleted K pin_base sizes lrus n k c (delete K pin_base n k w)
      × LookedUp K pin_base sizes lrus n k c (lookup K pin_base n k (value_size n) w)
operations_end K pin_base sizes lrus n k v w o fits = (
  update_outcome K pin_base sizes lrus n w o k v fits,
  delete_outcome K pin_base sizes lrus n w o k fits.0,
  lookup_outcome K pin_base sizes lrus n w o k fits.0,
)

-- Over any kernel: once `fd` has returned a descriptor for a name, the next call for that name
-- returns the same one and issues no system call. If opening the map fails, `OSError` is raised and
-- nothing is cached, so that the next call tries again.
pub fd_caches :
    (K : Kernel) (pin_base name : String) (w : World K.State)
    → ((d : ℕ) × ((fd K pin_base name w).0 ≡ ok d)
        × (fd K pin_base name (fd K pin_base name w).1 ≡ (ok d, (fd K pin_base name w).1)))
      ⊎ ((e : ℤ) × ((fd K pin_base name w).0 ≡ err (os_error e))
          × ((fd K pin_base name w).1.fds ≡ w.fds))
fd_caches K pin_base name w = elim (Option-cases (find_fd name w.fds)) [
  | inr (d, h) ↦ let e = fd_hit K pin_base name w d h in rw e (inl (d, refl, e))
  | inl h ↦
      let a = obj (pinned_path K pin_base name) 0 0 in
      elim (call_cases K 7 a (λ r. r) w) [
        | inl (d, e) ↦
            let again : find_fd name ((name, d) ∷ w.fds) ≡ some d =
              unfold find_fd in ground (arith, eq_iff name name) in
            rw (fd_miss_ok K pin_base name w d h e) (
              inl (
                d,
                refl,
                fd_hit K pin_base name (record (after K 7 a w) { fds = (name, d) ∷ w.fds }) d again,
              ))
        | inr fails ↦
            rw (fd_miss_err K pin_base name w h fails)
              (inr (pos (reply_of K 7 a w).errno, refl, refl))
      ]
]
