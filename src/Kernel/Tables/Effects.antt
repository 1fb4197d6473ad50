-- ===== src/Kernel/Tables/Effects.antt =====
-- The effect of each command on the contents, in the words of the interface.
use ebpf_upf.Prelude.{
  pos, ℕ, ◌≡◌, ◌≢◌, refl, sym, subst, ◌∙◌, ◌⊎◌, inl, inr, String, Bool, true, false, ◌∷◌, Option,
  some, length, take, get_elem?, ◌==◌, str_eq, eq_iff, Bool-cases, Option-cases, arith,
}
use ebpf_upf.Python.Struct.{Bytes}
use ebpf_upf.Maps.{Maps, WroteAs, Erased, Kept}
use ebpf_upf.Kernel.{IsSuccess, IsFailure}
use ebpf_upf.Kernel.Tables.{
  Tables, find, without, pin, value_bytes, open_pinned, read_elem, write_elem, remove_elem,
}
use ebpf_upf.Prelude.{fun_ext}
use ebpf_upf.Kernel.Tables.Laws.{
  same, accepted, find-without, find-cons, get_elem?-last, same→eq, bytes_eq_iff,
}

module _ (pin_base : String) (capacity : ℕ) where
  abbrev pub bytes_at : String → ℕ
  bytes_at = value_bytes pin_base capacity

  abbrev pub stored : Tables → Maps
  stored s p k = find p k s.entries

  -- A table is not evicted from, though the interface would allow it for `teid_session`.
  abbrev pub lru : String → Bool
  lru p = str_eq p (pin pin_base capacity "teid_session")

  Kept-same : (b : Bool) (o : Option Bytes) → Kept b o o
  Kept-same true o = inl refl
  Kept-same false o = refl

  same_self : (p : String) (k : Bytes) → same p k p k ≡ true
  same_self p k = ground (arith, eq_iff p p, bytes_eq_iff k k)

  same_ne_key : (p q : String) (k j : Bytes) → j ≢ k → same p k q j ≡ false
  same_ne_key p q k j h = elim (Bool-cases (same p k q j)) [
    | inl t ↦ absurd (h (sym (same→eq pin_base capacity p k q j t).1))
    | inr f ↦ f
  ]

  same_ne_path : (p q : String) (k j : Bytes) → q ≢ p → same p k q j ≡ false
  same_ne_path p q k j h = elim (Bool-cases (same p k q j)) [
    | inl t ↦ absurd (h (sym (same→eq pin_base capacity p k q j t).0))
    | inr f ↦ f
  ]

  cons_writes :
      (p : String) (k v : Bytes) (s : Tables)
      → WroteAs
          (lru p)
          p
          k
          v
          (stored s)
          (λ q j. find q j (record { path = p; key = k; value = v } ∷ without p k s.entries))
  cons_writes p k v s = record {
    here = find-cons p k v p k s.entries ∙ rw (same_self p k);
    elsewhere = λ j h.
        subst (Kept (lru p) (find p j s.entries))
          (sym (find-cons p k v p j s.entries ∙ rw (same_ne_key p p k j h)))
          (Kept-same (lru p) (find p j s.entries));
    others = λ q h. fun_ext (λ j. find-cons p k v q j s.entries ∙ rw (same_ne_path p q k j h));
  }

  without_erases :
      (p : String) (k : Bytes) (s : Tables)
      → Erased p k (stored s) (λ q j. find q j (without p k s.entries))
  without_erases p k s = record {
    here = find-without p k p k s.entries ∙ rw (same_self p k);
    elsewhere = λ j h. find-without p k p j s.entries ∙ rw (same_ne_key p p k j h);
    others = λ q h. fun_ext (λ j. find-without p k q j s.entries ∙ rw (same_ne_path p q k j h));
  }

  pub update_effect :
      (p : String) (k vb : Bytes) (s : Tables)
      → IsSuccess (write_elem pin_base capacity (some p) k vb s).0.ret
          × WroteAs
              (lru p)
              p
              k
              (take (bytes_at p) vb)
              (stored s)
              (stored (write_elem pin_base capacity (some p) k vb s).1)
        ⊎ IsFailure (write_elem pin_base capacity (some p) k vb s).0.ret
          × (stored (write_elem pin_base capacity (some p) k vb s).1 ≡ stored s)
  unfolding write_elem
  update_effect p k vb s =
      let v = take (bytes_at p) vb in
      elim (Bool-cases (accepted pin_base capacity p k v s)) [
        | inl t ↦ rw t (inl ((0, refl), cons_writes p k v s))
        | inr f ↦ rw f (inr ((0, refl), refl))
      ]

  pub delete_effect :
      (p : String) (k : Bytes) (s : Tables)
      → IsSuccess (remove_elem pin_base capacity (some p) k s).0.ret
          × Erased p k (stored s) (stored (remove_elem pin_base capacity (some p) k s).1)
        ⊎ IsFailure (remove_elem pin_base capacity (some p) k s).0.ret
          × (stored (remove_elem pin_base capacity (some p) k s).1 ≡ stored s)
  unfolding remove_elem
  delete_effect p k s = elim (Option-cases (find p k s.entries)) [
    | inl e ↦ rw (e, remove_elem) (inr ((0, refl), refl))
    | inr (v, e) ↦ rw (e, remove_elem) (inl ((0, refl), without_erases p k s))
  ]

  pub lookup_effect :
      (p : String) (k : Bytes) (s : Tables)
      → IsSuccess (read_elem pin_base capacity (some p) k s).0.ret
          × (find p k s.entries ≡ some (read_elem pin_base capacity (some p) k s).0.value)
        ⊎ IsFailure (read_elem pin_base capacity (some p) k s).0.ret
  unfolding read_elem
  lookup_effect p k s = elim (Option-cases (find p k s.entries)) [
    | inl e ↦ rw (e, read_elem) (inr (0, refl))
    | inr (v, e) ↦ rw (e, read_elem) (inl ((0, refl), refl))
  ]

  pub obj_get_effect :
      (p : String) (s : Tables)
      → (stored (open_pinned pin_base capacity p s).1 ≡ stored s)
        × (((fd : ℕ) × ((open_pinned pin_base capacity p s).0.ret ≡ pos fd)
              × (get_elem? (open_pinned pin_base capacity p s).1.opened fd ≡ some p))
            ⊎ IsFailure (open_pinned pin_base capacity p s).0.ret)
  unfolding open_pinned
  obj_get_effect p s = elim (Bool-cases (bytes_at p == 0)) [
    | inl t ↦ rw t (refl, inr (0, refl))
    | inr f ↦ rw f (refl, inl (length s.opened, refl, get_elem?-last s.opened p))
  ]
