-- ===== src/Agent/Frame.antt =====
-- Code that writes only its own entries leaves all others alone; an LRU map may evict some.
pub mod Batch
pub mod Install
use ebpf_upf.Prelude.{
  ◌≡◌, ◌≢◌, refl, sym, ap, ◌∙◌, subst, String, Bool, true, false, Option, ◌⊎◌, inl, inr, [], ◌∷◌,
  length,
}
use ebpf_upf.Python.Exec.{Exec, ◌>>=◌}
use ebpf_upf.Python.Struct.{Bytes}
use ebpf_upf.Maps.{Maps, PinnedMaps, Kept, Fits, is_lru, key_size}
use ebpf_upf.Maps.Logic.{Triple, Triple-update, Triple-delete}
use ebpf_upf.Agent.Tables.{map_delete}
use ebpf_upf.Agent.Sessions.Presence.{Bytes-discrete}
use ebpf_upf.Agent.Sessions.Removal.Entries.{String-cases}

Kept-trans : (lru : Bool) (a b c : Option Bytes) → Kept lru a b → Kept lru b c → Kept lru a c
Kept-trans false a b c h k = k ∙ h
Kept-trans true a b c (inl h) (inl k) = inl (k ∙ h)
Kept-trans true a b c (inr h) (inl k) = inr (k ∙ h)
Kept-trans true a b c h (inr k) = inr k

Kept-same : (lru : Bool) {a b : Option Bytes} → b ≡ a → Kept lru a b
Kept-same false h = h
Kept-same true h = inl h

module _ (Own : String → Bytes → Type 0) (m0 : Maps) where
  -- Every entry is one of the own ones, or is kept.
  abbrev pub Frame : Maps → Type 0
  Frame m = (n : String) (j : Bytes) → Own n j ⊎ Kept (is_lru n) (m0 n j) (m n j)

  pub Frame-refl : Frame m0
  Frame-refl n j = inr (Kept-same (is_lru n) refl)

  module _ (m m' : Maps) (before : Frame m) where
    kept_on :
        (n : String) (j : Bytes)
        → Kept (is_lru n) (m n j) (m' n j)
        → Own n j ⊎ Kept (is_lru n) (m0 n j) (m' n j)
    kept_on n j k = elim (before n j) [
      | inl own ↦ inl own
      | inr h ↦ inr (Kept-trans (is_lru n) (m0 n j) (m n j) (m' n j) h k)
    ]

    -- A change of one own entry, and evictions from its map.
    pub changed :
        (n : String) (k : Bytes)
        → Own n k
        → ((j : Bytes) → j ≢ k → Kept (is_lru n) (m n j) (m' n j))
        → ((n' : String) → n' ≢ n → m' n' ≡ m n')
        → Frame m'
    changed n k own elsewhere others n' j = elim (String-cases n' n) [
      | inr other ↦
          kept_on n' j
            (Kept-same (is_lru n') (ap (λ (c : Bytes → Option Bytes). c j) (others n' other)))
      | inl this ↦
          subst (λ x. Own x j ⊎ Kept (is_lru x) (m0 x j) (m' x j)) (sym this)
            (elim (Bytes-discrete j k) [
              | yes here ↦ inl (subst (Own n) (sym here) own)
              | no ne ↦ kept_on n j (elsewhere j ne)
            ])
    ]

  module _ (M : PinnedMaps) where
    pub own_update :
        (n : String) (k v : Bytes)
        → Own n k
        → Fits n k v
        → Triple M Frame Frame (M.update n k v) (λ _. Frame) (λ e. Frame)
    own_update n k v own fits =
        Triple-update M n k v fits (λ m f. f) (λ m f. f) (λ x m f. f)
          (λ m m' f w. changed m m' f n k own w.elsewhere w.others)

    pub own_delete :
        (n : String) (k : Bytes)
        → Own n k
        → length k ≡ key_size
        → Triple M Frame Frame (map_delete M n k) (λ _. Frame) (λ e. Frame)
    own_delete n k own size =
        Triple-delete M n k size (λ m f. f) (λ m f. f) (λ m f. f)
          (λ m m' f e.
            changed m m' f n k own (λ j ne. Kept-same (is_lru n) (e.elsewhere j ne)) e.others)

-- The rules for one invariant that an exception keeps too.
abbrev pub Keeps : (M : PinnedMaps) → (Maps → Type 0) → {A : Type 0} → Exec M.World A → Type 0
Keeps M J m = Triple M J J m (λ _. J) (λ e. J)

-- What reads the maps and writes none keeps every invariant.
abbrev pub ReadsOnly : (M : PinnedMaps) → {A : Type 0} → Exec M.World A → Type 1
ReadsOnly M m = (J : Maps → Type 0) → Keeps M J m
