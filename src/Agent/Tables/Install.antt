-- ===== src/Agent/Tables/Install.antt =====
-- Installing a FAR or a QER, as the datapath reads it afterwards.
use ebpf_upf.Prelude.{
  ℕ, ◌<◌, ◌^◌, ◌≡◌, refl, ap, sym, subst, String, false, Option, [], ◌∷◌, List, length, ◌⊎◌, inl,
  inr,
}
use ebpf_upf.Python.{Exception, ok, os_error, struct_error}
use ebpf_upf.Python.Exec.{lift, ◌>>=◌}
use ebpf_upf.Python.Struct.{Bytes, Format, little, le_bytes, pack}
use ebpf_upf.Python.Struct.RoundTrip.{InRange, pack_fails, pack-IsByte, length-le_bytes}
use ebpf_upf.Maps.{Maps, PinnedMaps, WroteAs, Wrote, is_lru, value_size}
use ebpf_upf.Agent.Sessions.Presence.{Bytes-discrete}
use ebpf_upf.Agent.Sessions.Removal.Entries.{String-cases}
use ebpf_upf.Maps.Logic.{Reaches, Triple, Triple-bind-lift, Triple-update}
use ebpf_upf.Datapath.Tables.{FarVal, far_val, QerVal, qer_val}
use ebpf_upf.Agent.Encoders.{quad_format, qer_format, enc_u32, enc_far, enc_qer}
use ebpf_upf.Agent.Layout.{enc_u32-key, enc_u32_fails, far_val-enc_far, qer_val-enc_qer}
use ebpf_upf.Agent.Tables.{install_far, install_qer}

-- Only the entry of `id` in `n` may differ. No more is said of the moments of an update, since the
-- kernel copies a value into an array map word by word.
abbrev pub OnlyAt : String → ℕ → Maps → Maps → Type 0
OnlyAt n id m0 m = (n' : String) (j : Bytes) → (n' ≡ n) × (j ≡ le_bytes 4 id) ⊎ (m n' j ≡ m0 n' j)

-- An exception leaves the maps alone; `struct.error` has a reason.
abbrev pub Refused : Type 0 → Maps → Exception → Maps → Type 0
Refused Fitting m0 (os_error x) m = m ≡ m0
Refused Fitting m0 struct_error m = (m ≡ m0) × ¬ Fitting
Refused Fitting m0 _ m = ⊥

-- The entry of `id` in `n` reads as `v`, and nothing else has changed.
abbrev pub Entered : {V : Type 0} → String → (Bytes → V) → ℕ → V → Maps → Maps → Type 0
Entered n view id v m0 m = (b : Bytes) × (view b ≡ v) × Wrote n (le_bytes 4 id) b m0 m

-- A write to a map that does not evict changes one entry.
Wrote-OnlyAt :
    (n : String) (id : ℕ) (b : Bytes) (m0 m : Maps)
    → WroteAs false n (le_bytes 4 id) b m0 m
    → OnlyAt n id m0 m
Wrote-OnlyAt n id b m0 m w n' j = elim (String-cases n' n) [
  | inr other ↦ inr (ap (λ (c : Bytes → Option Bytes). c j) (w.others n' other))
  | inl this ↦ elim (Bytes-discrete j (le_bytes 4 id)) [
    | yes here ↦ inl (this, here)
    | no ne ↦ inr (rw this (w.elsewhere j ne))
  ]
]

module _ (M : PinnedMaps) {V : Type 0} (n : String) (view : Bytes → V) (ws : Format) (xs : List ℕ)
    (v : V) (id : ℕ) (m0 : Maps) (lasting : is_lru n ≡ false)
    (reads : (b : Bytes)
      → pack little ws xs ≡ ok b
      → (length b ≡ value_size n) × (view b ≡ v)) where
  -- One entry with a packed value.
  pub enter :
      Triple M
        (OnlyAt n id m0)
        (λ m. m ≡ m0)
        (do key ← lift (enc_u32 id); val ← lift (pack little ws xs); M.update n key val)
        (λ _. Entered n view id v m0)
        (Refused ((id < 2 ^ 32) × InRange ws xs) m0)
  enter =
      Triple-bind-lift M (enc_u32 id)
        (λ key hk.
          Triple-bind-lift M (pack little ws xs) (λ b hb. rw (enc_u32-key id hk).0 (write b hb))
            (λ e fails m same.
              let (struct, bad) = pack_fails little ws xs fails in
              refused e m struct (λ f. bad f.1) same))
        (λ e fails m same.
          let (struct, bad) = enc_u32_fails id fails in refused e m struct (λ f. bad f.0) same)
    where
      Fitting : Type 0
      Fitting = (id < 2 ^ 32) × InRange ws xs

      refused :
          (e : Exception) (m : Maps)
          → e ≡ struct_error
          → ¬ Fitting
          → m ≡ m0
          → Refused Fitting m0 e m
      refused e m h misfit same = subst (λ x. Refused Fitting m0 x m) (sym h) (same, misfit)

      write :
          (b : Bytes)
          → pack little ws xs ≡ ok b
          → Triple M
              (OnlyAt n id m0)
              (λ m. m ≡ m0)
              (M.update n (le_bytes 4 id) b)
              (λ _. Entered n view id v m0)
              (Refused Fitting m0)
      write b hb =
          let (size, shows) = reads b hb in
          Triple-update M n (le_bytes 4 id) b
            (length-le_bytes 4 id, size, pack-IsByte little ws xs hb)
            (λ m same n' j. inr (ap (λ (c : Maps). c n' j) same))
            (λ m (b', shown, w).
              Wrote-OnlyAt n id b' m0 m
                (subst (λ lru. WroteAs lru n (le_bytes 4 id) b' m0 m) lasting w))
            (λ x m same. same)
            (λ m m' same w. (b, shows, subst (λ c. Wrote n (le_bytes 4 id) b c m') same w))

-- In any world, and whatever the kernel refuses: at every moment of `install_far` every entry of
-- every map but the FAR's is as before. After a normal end the datapath reads the given fields from
-- the FAR's entry, and nothing else has changed. An exception has changed nothing, is an `OSError`
-- or `struct.error`, and the latter only if the identifier or a field does not fit 32 bits. The
-- record of passed contents starts with the call.
pub install_far_enters :
    (M : PinnedMaps) (far_id action out_ifindex peer_ipv4_be out_teid_be : ℕ) (w : M.World)
    → M.IsOpen w
    → M.passed w ≡ M.content w ∷ []
    → let v : FarVal = record {
      action = action;
      out_ifindex = out_ifindex;
      peer_ipv4_be = peer_ipv4_be;
      out_teid_be = out_teid_be;
    } in
      Reaches M
        (OnlyAt "far_table" far_id (M.content w))
        (λ _. Entered "far_table" far_val far_id v (M.content w))
        (Refused
          ((far_id < 2 ^ 32)
            × InRange quad_format (action ∷ out_ifindex ∷ peer_ipv4_be ∷ out_teid_be ∷ []))
          (M.content w))
        (install_far M far_id action out_ifindex peer_ipv4_be out_teid_be w)
unfolding install_far enc_far
install_far_enters M far_id action out_ifindex peer_ipv4_be out_teid_be w o fresh =
    (enter M "far_table" far_val quad_format
        (action ∷ out_ifindex ∷ peer_ipv4_be ∷ out_teid_be ∷ []) _ far_id (M.content w) refl
        (λ b. far_val-enc_far action out_ifindex peer_ipv4_be out_teid_be {b = b})).run
      w o (rw fresh ((λ n j. inr refl), tt)) refl

-- The same for `install_qer`: at every moment every entry but the QER's is as before; after a normal
-- end the datapath reads the two rates and the burst from it, and nothing else has changed; an
-- exception has changed nothing, is an `OSError` or `struct.error`, and the latter only if the
-- identifier or the burst does not fit 32 bits or a rate does not fit 64 bits.
pub install_qer_enters :
    (M : PinnedMaps) (qer_id mbr_ul_bps mbr_dl_bps burst_bytes : ℕ) (w : M.World)
    → M.IsOpen w
    → M.passed w ≡ M.content w ∷ []
    → let v : QerVal = record {
      mbr_ul_bps = mbr_ul_bps;
      mbr_dl_bps = mbr_dl_bps;
      burst_bytes = burst_bytes;
    } in
      Reaches M
        (OnlyAt "qer_table" qer_id (M.content w))
        (λ _. Entered "qer_table" qer_val qer_id v (M.content w))
        (Refused
          ((qer_id < 2 ^ 32) × InRange qer_format (mbr_ul_bps ∷ mbr_dl_bps ∷ burst_bytes ∷ 0 ∷ []))
          (M.content w))
        (install_qer M qer_id mbr_ul_bps mbr_dl_bps burst_bytes w)
unfolding install_qer enc_qer
install_qer_enters M qer_id mbr_ul_bps mbr_dl_bps burst_bytes w o fresh =
    (enter M "qer_table" qer_val qer_format (mbr_ul_bps ∷ mbr_dl_bps ∷ burst_bytes ∷ 0 ∷ []) _
        qer_id (M.content w) refl
        (λ b. qer_val-enc_qer mbr_ul_bps mbr_dl_bps burst_bytes {b = b})).run
      w o (rw fresh ((λ n j. inr refl), tt)) refl
