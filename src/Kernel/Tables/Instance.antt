-- ===== src/Kernel/Tables/Instance.antt =====
-- The running kernel meets the interface.
use text.Mathlib.TextLemmas.{append_cancel_left}
use ebpf_upf.Prelude.{
  pos, ℕ, ◌≡◌, refl, ap, sym, ◌⊎◌, String, Bool, true, false, [], ◌∷◌, Option, none, some, take,
  get_elem?, ◌==◌, str_eq, eq_iff, if◌then◌else◌, arith,
}
use ebpf_upf.Python.Struct.{Bytes}
use ebpf_upf.Maps.{Maps, WroteAs, Erased, value_size, key_size, is_lru}
use ebpf_upf.Kernel.{Attr, obj, map_elem, Reply, Kernel, IsSuccess, IsFailure}
use ebpf_upf.Kernel.Tables.{
  Tables, find, pin, value_bytes, run, open_pinned, write_elem, remove_elem,
}
use ebpf_upf.Kernel.Tables.Laws.{
  accepted, get_elem?-append, write-IsValid, remove-IsValid, open-IsValid, read-state, IsValid,
}
use ebpf_upf.Kernel.Tables.{empty}
use ebpf_upf.Kernel.Tables.Effects.{update_effect, delete_effect, lookup_effect, obj_get_effect}

bool_eq : (a b : Bool) → (a ≡ true → b ≡ true) → (b ≡ true → a ≡ true) → a ≡ b
bool_eq true b f g = sym (f refl)
bool_eq false true f g = g refl
bool_eq false false f g = refl

module _ (pin_base : String) (capacity : ℕ) where
  abbrev pub bytes_at : String → ℕ
  bytes_at = value_bytes pin_base capacity

  abbrev pub stored : Tables → Maps
  stored s p k = find p k s.entries

  abbrev pub lru : String → Bool
  lru p = str_eq p (pin pin_base capacity "teid_session")

  abbrev pub go : ℕ → Attr → ℕ → Tables → Reply × Tables
  go = run pin_base capacity

  if_keeps :
      (P : Tables → Type 0) (b : Bool) (x y : Reply × Tables)
      → P x.1
      → P y.1
      → P (if b then x else y).1
  if_keeps P true x y px py = px
  if_keeps P false x y px py = py

  write-opened :
      (r : Option String) (k vb : Bytes) (s : Tables)
      → (write_elem pin_base capacity r k vb s).1.opened ≡ s.opened
  unfolding write_elem
  write-opened none k vb s = refl
  write-opened (some p) k vb s =
      if_keeps (λ t. t.opened ≡ s.opened) (accepted pin_base capacity p k (take (bytes_at p) vb) s)
        _ _ refl refl

  remove-opened :
      (r : Option String) (k : Bytes) (s : Tables)
      → (remove_elem pin_base capacity r k s).1.opened ≡ s.opened
  unfolding remove_elem
  remove-opened none k s = refl
  remove-opened (some p) k s = ground arith

  open-opened :
      (p : String) (s : Tables) (fd : ℕ) (q : String)
      → get_elem? s.opened fd ≡ some q
      → get_elem? (open_pinned pin_base capacity p s).1.opened fd ≡ some q
  unfolding open_pinned
  open-opened p s fd q h =
      if_keeps (λ t. get_elem? t.opened fd ≡ some q) (bytes_at p == 0) _ _ h
        (get_elem?-append s.opened (p ∷ []) fd h)

  pub run-IsValid :
      (cmd : ℕ) (a : Attr) (z : ℕ) (s : Tables)
      → IsValid pin_base capacity s
      → IsValid pin_base capacity (go cmd a z s).1
  unfolding run
  run-IsValid cmd (obj p f g) z s h =
      if_keeps (IsValid pin_base capacity) (cmd == 7) _ _ (open-IsValid pin_base capacity p s h) h
  run-IsValid cmd (map_elem d kb vb flags) z s h =
      let r = get_elem? s.opened d in
      let k = take key_size kb in
      let valid = IsValid pin_base capacity in
      if_keeps valid (cmd == 1) _ _ (rw read-state h) (
        if_keeps valid (cmd == 2) _ _ (write-IsValid pin_base capacity r k vb s h)
          (if_keeps valid (cmd == 3) _ _ (remove-IsValid pin_base capacity r k s h) h))

  pub run-opened :
      (cmd : ℕ) (a : Attr) (z : ℕ) (s : Tables) (fd : ℕ) (p : String)
      → get_elem? s.opened fd ≡ some p
      → get_elem? (go cmd a z s).1.opened fd ≡ some p
  unfolding run
  run-opened cmd (obj p f g) z s fd q h =
      if_keeps (λ t. get_elem? t.opened fd ≡ some q) (cmd == 7) _ _ (open-opened p s fd q h) h
  run-opened cmd (map_elem d kb vb flags) z s fd q h =
      let r = get_elem? s.opened d in
      let k = take key_size kb in
      let keeps = λ (t : Tables). get_elem? t.opened fd ≡ some q in
      if_keeps keeps (cmd == 1) _ _ (rw read-state h) (
        if_keeps keeps (cmd == 2) _ _ (rw write-opened h)
          (if_keeps keeps (cmd == 3) _ _ (rw remove-opened h) h))

  pub lookup_law :
      (fd : ℕ) (kb vb : Bytes) (p : String) (s : Tables)
      → get_elem? s.opened fd ≡ some p
      → IsSuccess (go 1 (map_elem fd kb vb 0) 32 s).0.ret
          × (find p (take key_size kb) s.entries ≡ some (go 1 (map_elem fd kb vb 0) 32 s).0.value)
        ⊎ IsFailure (go 1 (map_elem fd kb vb 0) 32 s).0.ret
  unfolding run
  lookup_law fd kb vb p s h = rw h (lookup_effect pin_base capacity p (take key_size kb) s)

  pub update_law :
      (fd : ℕ) (kb vb : Bytes) (p : String) (s : Tables)
      → get_elem? s.opened fd ≡ some p
      → IsSuccess (go 2 (map_elem fd kb vb 0) 32 s).0.ret
          × WroteAs
              (lru p)
              p
              (take key_size kb)
              (take (bytes_at p) vb)
              (stored s)
              (stored (go 2 (map_elem fd kb vb 0) 32 s).1)
        ⊎ IsFailure (go 2 (map_elem fd kb vb 0) 32 s).0.ret
          × (stored (go 2 (map_elem fd kb vb 0) 32 s).1 ≡ stored s)
  unfolding run
  update_law fd kb vb p s h = rw h (update_effect pin_base capacity p (take key_size kb) vb s)

  pub delete_law :
      (fd : ℕ) (kb : Bytes) (p : String) (s : Tables)
      → get_elem? s.opened fd ≡ some p
      → IsSuccess (go 3 (map_elem fd kb [] 0) 32 s).0.ret
          × Erased p (take key_size kb) (stored s) (stored (go 3 (map_elem fd kb [] 0) 32 s).1)
        ⊎ IsFailure (go 3 (map_elem fd kb [] 0) 32 s).0.ret
          × (stored (go 3 (map_elem fd kb [] 0) 32 s).1 ≡ stored s)
  unfolding run
  delete_law fd kb p s h = rw h (delete_effect pin_base capacity p (take key_size kb) s)

  pub lookup_keeps :
      (fd : ℕ) (kb vb : Bytes) (z : ℕ) (s : Tables)
      → stored (go 1 (map_elem fd kb vb 0) z s).1 ≡ stored s
  unfolding run
  lookup_keeps fd kb vb z s = rw read-state

  pub obj_get_law :
      (p : String) (s : Tables)
      → (stored (go 7 (obj p 0 0) 16 s).1 ≡ stored s)
        × (((fd : ℕ) × ((go 7 (obj p 0 0) 16 s).0.ret ≡ pos fd)
              × (get_elem? (go 7 (obj p 0 0) 16 s).1.opened fd ≡ some p))
            ⊎ IsFailure (go 7 (obj p 0 0) 16 s).0.ret)
  unfolding run
  obj_get_law p s = obj_get_effect pin_base capacity p s

  abbrev pub kernel : Kernel
  kernel = record {
    State = Tables;
    bpf = go;
    refers = λ s fd. get_elem? s.opened fd;
    stored = stored;
    value_bytes = bytes_at;
    lru = lru;
    IsValid = IsValid pin_base capacity;
    bpf_IsValid = run-IsValid;
    stored_size = λ s p k v o h. o.sized p k v h;
    refers_kept = run-opened;
    obj_get_effect = obj_get_law;
    lookup_stored = lookup_keeps;
    lookup_effect = λ fd kb vb p s h _ _. lookup_law fd kb vb p s h;
    update_effect = λ fd kb vb p s _ h _ _ _. update_law fd kb vb p s h;
    delete_effect = λ fd kb p s h _. delete_law fd kb p s h;
  }

  -- The maps of bpf/upf_maps.h are pinned under the base path.
  path_eq : (n m : String) → str_eq (pin pin_base capacity n) (pin pin_base capacity m) ≡ str_eq n m
  path_eq n m =
      let pn = pin pin_base capacity n in
      let pm = pin pin_base capacity m in
      bool_eq (str_eq pn pm) (str_eq n m)
        (λ t.
          (eq_iff n m).1
            (append_cancel_left "/" n m (append_cancel_left pin_base _ _ ((eq_iff pn pm).0 t))))
        (λ t. (eq_iff pn pm).1 (ap (pin pin_base capacity) ((eq_iff n m).0 t)))

  pub sizes : (n : String) → bytes_at (pin pin_base capacity n) ≡ value_size n
  unfolding value_bytes
  sizes n = simp path_eq

  pub lrus : (n : String) → lru (pin pin_base capacity n) ≡ is_lru n
  lrus n = path_eq n "teid_session"

  pub empty-IsValid : IsValid pin_base capacity empty
  unfolding find
  empty-IsValid = record { sized = λ p k v h. cc }
