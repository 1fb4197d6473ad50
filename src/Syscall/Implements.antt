-- ===== src/Syscall/Implements.antt =====
-- How an update, a deletion and a lookup through the cache of loader/bpf_syscall.py end.
use ebpf_upf.Prelude.{
  ℤ, pos, ℕ, String, ◌≤◌, ◌≡◌, refl, sym, ap, ◌∙◌, subst, List, [], ◌∷◌, some, ◌⊎◌, inl, inr,
  length, length-append, length-replicate, take, All, arith,
}
use ebpf_upf.Python.{Result, ok, err, os_error}
use ebpf_upf.Python.Struct.{Bytes, IsByte}
use ebpf_upf.Python.Struct.RoundTrip.{All-append}
use ebpf_upf.Maps.{Maps, Wrote, Erased, Fits, key_size, value_size, is_lru}
use ebpf_upf.Kernel.{map_elem, Kernel}
use ebpf_upf.Syscall.{
  World, buffer_of, buffer_sized, pinned_path, fd, bpf_map_update_elem, bpf_map_lookup_elem,
  bpf_map_delete_elem, update, lookup, delete,
}
use ebpf_upf.Syscall.Effects.{IsOpen, Opened, fd_opens, reply_of, call_ok, call_err}
use ebpf_upf.Syscall.Pinned
use ebpf_upf.Syscall.Pinned.{take-buffer_of, length-buffer_of}

module _ (K : Kernel) (pin_base : String)
    (sizes : (n : String) → K.value_bytes (pinned_path K pin_base n) ≡ value_size n)
    (lrus : (n : String) → K.lru (pinned_path K pin_base n) ≡ is_lru n) where
  open K use {State}

  abbrev pub path : String → String
  path = pinned_path K pin_base

  abbrev pub Here : World State → Type 0
  Here = IsOpen K pin_base

  abbrev pub content : World State → Maps
  content = Pinned.content K pin_base sizes lrus

  abbrev pub passed : World State → List Maps
  passed = Pinned.passed K pin_base sizes lrus

  -- How an update, a deletion and a lookup may end, from the contents `c`.
  abbrev pub Updated : String → Bytes → Bytes → Maps → Result (Unit {0}) × World State → Type 0
  Updated n k v c out =
      (out.0 ≡ ok tt) × Wrote n k v c (content out.1)
      ⊎ ((e : ℤ) × (out.0 ≡ err (os_error e)) × (content out.1 ≡ c))

  abbrev pub Deleted : String → Bytes → Maps → Result (Unit {0}) × World State → Type 0
  Deleted n k c out =
      (out.0 ≡ ok tt) × Erased n k c (content out.1)
      ⊎ ((e : ℤ) × (out.0 ≡ err (os_error e)) × (content out.1 ≡ c))

  abbrev pub LookedUp : String → Bytes → Maps → Result Bytes × World State → Type 0
  LookedUp n k c out =
      ((b : Bytes) × (out.0 ≡ ok b) × (c n k ≡ some b)) ⊎ ((e : ℤ) × (out.0 ≡ err (os_error e)))

  same_content :
      {s s' : State}
      → K.stored s' ≡ K.stored s
      → Pinned.named K pin_base sizes lrus s' ≡ Pinned.named K pin_base sizes lrus s
  same_content e = ap {B = Maps} (λ c m. c (path m)) e

  module _ (n : String) (d : ℕ) (k : Bytes) (x : World State) (ox : Here x)
      (r : K.refers x.kernel d ≡ some (path n)) (lk : length k ≡ key_size) where
    key_read : take key_size (buffer_of k) ≡ k
    key_read = take-buffer_of K pin_base sizes lrus key_size k lk

    key_fits : key_size ≤ length (buffer_of k)
    key_fits = omega (arith, length-append k (0 ∷ []), lk)

    update_call :
        (v : Bytes)
        → length v ≡ value_size n
        → All IsByte v
        → Updated n k v (content x) (bpf_map_update_elem K d k v 0 x)
    unfolding bpf_map_update_elem
    update_call v lv bytes =
        let a = map_elem d (buffer_of k) (buffer_of v) 0 in
        let size : length v ≡ K.value_bytes (path n) = lv ∙ sym (sizes n) in
        let room : K.value_bytes (path n) ≤ length (buffer_of v) =
          omega (arith, length-append v (0 ∷ [])) in
        let value_read = take-buffer_of K pin_base sizes lrus (K.value_bytes (path n)) v size in
        let raw = All-append v (0 ∷ []) bytes (omega arith, tt) in
        elim (K.update_effect d (buffer_of k) (buffer_of v) (path n) x.kernel ox.valid r key_fits
          room raw) [
            | inl (good, wrote) ↦
                subst (Updated n k v (content x)) (sym (call_ok K 2 a (λ _. tt) x good)) (
                  inl (
                    refl,
                    Pinned.named-Wrote K pin_base sizes lrus n k v x.kernel
                        (K.bpf 2 a 32 x.kernel).1 (rw (key_read, value_read) at wrote),
                  ))
            | inr (bad, kept) ↦
                subst (Updated n k v (content x)) (sym (call_err K 2 a (λ _. tt) x bad))
                  (inr (pos (reply_of K 2 a x).errno, refl, same_content kept))
          ]

    delete_call : Deleted n k (content x) (bpf_map_delete_elem K d k x)
    unfolding bpf_map_delete_elem
    delete_call =
        let a = map_elem d (buffer_of k) [] 0 in
        elim (K.delete_effect d (buffer_of k) (path n) x.kernel r key_fits) [
          | inl (good, erased) ↦
              subst (Deleted n k (content x)) (sym (call_ok K 3 a (λ _. tt) x good)) (
                inl (
                  refl,
                  Pinned.named-Erased K pin_base sizes lrus n k x.kernel (K.bpf 3 a 32 x.kernel).1
                      (rw key_read at erased),
                ))
          | inr (bad, kept) ↦
              subst (Deleted n k (content x)) (sym (call_err K 3 a (λ _. tt) x bad))
                (inr (pos (reply_of K 3 a x).errno, refl, same_content kept))
        ]

    lookup_call : LookedUp n k (content x) (bpf_map_lookup_elem K d k (value_size n) x)
    unfolding bpf_map_lookup_elem
    lookup_call =
        let a = map_elem d (buffer_of k) (buffer_sized (value_size n)) 0 in
        let size : length (buffer_sized (value_size n)) ≡ K.value_bytes (path n) =
          length-replicate (value_size n) 0 ∙ sym (sizes n) in
        elim (K.lookup_effect d (buffer_of k) (buffer_sized (value_size n)) (path n) x.kernel r
          key_fits size) [
            | inl (good, found) ↦
                subst (LookedUp n k (content x)) (sym (call_ok K 1 a (λ reply. reply.value) x good))
                  (inl ((reply_of K 1 a x).value, refl, rw key_read at found))
            | inr bad ↦
                subst (LookedUp n k (content x)) (sym (call_err K 1 a (λ reply. reply.value) x bad))
                  (inr (pos (reply_of K 1 a x).errno, refl))
          ]

  module _ (n : String) (w : World State) (o : Here w) where
    abbrev opened : Opened K pin_base n w (fd K pin_base n w)
    opened = fd_opens K pin_base n w o

    abbrev w1 : World State
    w1 = (fd K pin_base n w).1

    content-w1 : content w1 ≡ content w
    content-w1 = Pinned.content-fd K pin_base sizes lrus n w o

    pub update_outcome :
        (k v : Bytes) → Fits n k v → Updated n k v (content w) (update K pin_base n k v 0 w)
    unfolding update
    update_outcome k v (lk, lv, bytes) = elim opened.result [
      | inl (d, e, r) ↦
          subst (Updated n k v (content w))
            (sym
              (Pinned.run_ok K pin_base sizes lrus n w o (λ t. bpf_map_update_elem K t k v 0) d e))
            (subst (λ c. Updated n k v c (bpf_map_update_elem K d k v 0 w1)) content-w1
              (update_call n d k w1 opened.opened r lk v lv bytes))
      | inr (x, e) ↦
          subst (Updated n k v (content w))
            (sym
              (Pinned.run_err K pin_base sizes lrus n w o (λ t. bpf_map_update_elem K t k v 0) x e))
            (inr (x, refl, content-w1))
    ]

    pub delete_outcome :
        (k : Bytes) → length k ≡ key_size → Deleted n k (content w) (delete K pin_base n k w)
    unfolding delete
    delete_outcome k lk = elim opened.result [
      | inl (d, e, r) ↦
          subst (Deleted n k (content w))
            (sym (Pinned.run_ok K pin_base sizes lrus n w o (λ t. bpf_map_delete_elem K t k) d e))
            (subst (λ c. Deleted n k c (bpf_map_delete_elem K d k w1)) content-w1
              (delete_call n d k w1 opened.opened r lk))
      | inr (x, e) ↦
          subst (Deleted n k (content w))
            (sym (Pinned.run_err K pin_base sizes lrus n w o (λ t. bpf_map_delete_elem K t k) x e))
            (inr (x, refl, content-w1))
    ]

    pub lookup_outcome :
        (k : Bytes)
        → length k ≡ key_size
        → LookedUp n k (content w) (lookup K pin_base n k (value_size n) w)
    unfolding lookup
    lookup_outcome k lk = elim opened.result [
      | inl (d, e, r) ↦
          subst (LookedUp n k (content w))
            (sym (
              Pinned.run_ok K pin_base sizes lrus n w o
                (λ t. bpf_map_lookup_elem K t k (value_size n)) d e))
            (subst (λ c. LookedUp n k c (bpf_map_lookup_elem K d k (value_size n) w1)) content-w1
              (lookup_call n d k w1 opened.opened r lk))
      | inr (x, e) ↦
          subst (LookedUp n k (content w))
            (sym (
              Pinned.run_err K pin_base sizes lrus n w o
                (λ t. bpf_map_lookup_elem K t k (value_size n)) x e))
            (inr (x, refl))
    ]
