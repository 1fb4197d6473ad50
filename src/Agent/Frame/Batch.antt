-- ===== src/Agent/Frame/Batch.antt =====
-- The measured update of loader/agent.py writes the entries of its own batch only: sessions from
-- 0x10000 on, with PDRs and bundles from 0x20000 on.
use ebpf_upf.Prelude.{ℕ, zero, suc, ◌+◌, ◌<◌, ◌^◌, ◌≡◌, refl, ◌⊎◌, inl, inr, String, []}
use ebpf_upf.Python.{Result, ok}
use ebpf_upf.Python.Exec.{Exec, lift, ◌>>=◌}
use ebpf_upf.Python.Struct.{Bytes, le_bytes}
use ebpf_upf.Python.Struct.RoundTrip.{length-le_bytes}
use ebpf_upf.Maps.{Maps, PinnedMaps}
use ebpf_upf.Maps.Logic.{Triple-bind, Triple-bind-lift, Triple-pure}
use ebpf_upf.Agent.Encoders.{enc_u32}
use ebpf_upf.Agent.Layout.{enc_u32-key}
use ebpf_upf.Agent.Sessions.{remove_session}
use ebpf_upf.Agent.Batches.{install_default, install_timed, remove_sessions, measure_rule_update}
use ebpf_upf.Agent.Tables.{map_delete}
use ebpf_upf.Agent.Frame.{Frame, Keeps, own_delete}
use ebpf_upf.Agent.Frame.Install.{install_session-Frame}

-- The entries of the batch.
abbrev pub Batch : String → Bytes → Type 0
Batch n j =
    ((n ≡ "teid_session") × ((i : ℕ) × (0x10000 + i < 2 ^ 32) × (j ≡ le_bytes 4 (0x10000 + i))))
    ⊎ (((n ≡ "pdr_table") ⊎ (n ≡ "tc_bundle_map"))
        × ((i : ℕ) × (0x20000 + i < 2 ^ 32) × (j ≡ le_bytes 4 (0x20000 + i))))

module _ (M : PinnedMaps) (m0 : Maps) where
  abbrev pub Spares : {A : Type 0} → Exec M.World A → Type 0
  Spares m = Keeps M (Frame Batch m0) m

  -- An entry with an encoded key, after a computation outside the state.
  lifted :
      {A B : Type 0} (r : Result A) {f : A → Exec M.World B}
      → ((a : A) → r ≡ ok a → Spares (f a))
      → Spares (lift r >>= f)
  lifted r go = Triple-bind-lift M r go (λ e h m frame. frame)

  install_default-Spares : (i : ℕ) → Spares (install_default M (0x10000 + i) (0x20000 + i))
  unfolding install_default
  install_default-Spares i =
      install_session-Frame M Batch m0 (λ m f. f) (λ e m f. f) (0x10000 + i) (0x20000 + i) 1 1 100 1
        (λ small. inl (refl, (i, small, refl))) (λ small. inr (inl refl, (i, small, refl)))
        (λ small. inr (inr refl, (i, small, refl)))

  delete_own :
      (n : String) (id : ℕ) (key : Bytes)
      → enc_u32 id ≡ ok key
      → (id < 2 ^ 32 → Batch n (le_bytes 4 id))
      → Spares (map_delete M n key)
  delete_own n id key hk own =
      let (same, small) = enc_u32-key id hk in
      rw same (own_delete Batch m0 M n (le_bytes 4 id) (own small) (length-le_bytes 4 id))

  remove_session-Spares : (i : ℕ) → Spares (remove_session M (0x10000 + i) (0x20000 + i))
  unfolding remove_session
  remove_session-Spares i = lifted (enc_u32 (0x10000 + i)) (λ key hk.
      Triple-bind M
        (delete_own "teid_session" (0x10000 + i) key hk (λ small. inl (refl, (i, small, refl))))
        (λ _. lifted (enc_u32 (0x20000 + i)) (λ pdr_key hp.
          Triple-bind M
            (delete_own "pdr_table" (0x20000 + i) pdr_key hp
              (λ small. inr (inl refl, (i, small, refl))))
            (λ _. lifted (enc_u32 (0x20000 + i)) (λ bundle_key hb.
              delete_own "tc_bundle_map" (0x20000 + i) bundle_key hb
                (λ small. inr (inr refl, (i, small, refl))))))))

  module _ (clock : ℕ → ℕ) where
    install_timed-Spares : (n i : ℕ) → Spares (install_timed M clock n i)
    unfolding install_timed
    install_timed-Spares zero i = Triple-pure M [] (λ m f. f)
    install_timed-Spares (suc n) i = Triple-bind M (install_default-Spares i) (λ _.
        Triple-bind M (install_timed-Spares n (i + 1)) (λ samples. Triple-pure M _ (λ m f. f)))

    remove_sessions-Spares : (n i : ℕ) → Spares (remove_sessions M clock n i)
    unfolding remove_sessions
    remove_sessions-Spares zero i = Triple-pure M tt (λ m f. f)
    remove_sessions-Spares (suc n) i =
        Triple-bind M (remove_session-Spares i) (λ _. remove_sessions-Spares n (i + 1))

    pub measure_rule_update-Spares : (n : ℕ) → Spares (measure_rule_update M clock n)
    unfolding measure_rule_update
    measure_rule_update-Spares n =
        Triple-bind M (install_timed-Spares n 0)
          (λ samples. Triple-bind M (remove_sessions-Spares n 0) (λ _. Triple-pure M _ (λ m f. f)))
