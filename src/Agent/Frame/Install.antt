-- ===== src/Agent/Frame/Install.antt =====
-- `install_session` of loader/agent.py writes three entries, and leaves all others alone.
use ebpf_upf.Prelude.{ℕ, ◌<◌, ◌^◌, ◌≡◌, refl, sym, ◌∙◌, String, List, [], ◌∷◌, length}
use ebpf_upf.Python.{Exception, Result, ok}
use ebpf_upf.Python.Exec.{Exec, lift, ◌>>=◌}
use ebpf_upf.Python.Struct.{Bytes, little, le_bytes, pack}
use ebpf_upf.Python.Struct.RoundTrip.{length-le_bytes, length-pack, pack-IsByte}
use ebpf_upf.Maps.{Maps, PinnedMaps, Fits, value_size}
use ebpf_upf.Maps.Logic.{Triple, Triple-bind, Triple-bind-lift, Triple-update}
use ebpf_upf.Agent.Encoders.{
  quad_format, enc_u32, enc_pdr, enc_session, enc_bundle_slot, enc_bundle,
}
use ebpf_upf.Agent.Layout.{enc_u32-key}
use ebpf_upf.Agent.Layout.Bundle.{length-enc_bundle, enc_bundle-IsByte}
use ebpf_upf.Datapath.Tables.{BundleSlot}
use ebpf_upf.Agent.Sessions.{install_pdr, install_tc_bundle, install_teid, install_session}
use ebpf_upf.Agent.Frame.{Frame, changed}

module _ (M : PinnedMaps) (Own : String → Bytes → Type 0) (m0 : Maps) {J : Maps → Type 0}
    {E : Exception → Maps → Type 0} (J_of : (m : Maps) → Frame Own m0 m → J m)
    (E_of : (e : Exception) (m : Maps) → Frame Own m0 m → E e m) where
  abbrev Stays : {A : Type 0} → Exec M.World A → Type 0
  Stays m = Triple M J (Frame Own m0) m (λ _. Frame Own m0) E

  -- An entry with an encoded key, after a computation outside the state.
  lifted :
      {A B : Type 0} (r : Result A) {f : A → Exec M.World B}
      → ((a : A) → r ≡ ok a → Stays (f a))
      → Stays (lift r >>= f)
  lifted r go = Triple-bind-lift M r go (λ e h m frame. E_of e m frame)

  write :
      (n : String) (id : ℕ) (key v : Bytes)
      → enc_u32 id ≡ ok key
      → (id < 2 ^ 32 → Own n (le_bytes 4 id))
      → ((k : Bytes) → length k ≡ 4 → Fits n k v)
      → Stays (M.update n key v)
  write n id key v hk own fits =
      let (same, small) = enc_u32-key id hk in
      let k = le_bytes 4 id in
      rw same (
        Triple-update M n k v (fits k (length-le_bytes 4 id)) J_of J_of (λ x m f. E_of _ m f)
          (λ m m' f w. changed Own m0 m m' f n k (own small) w.elsewhere w.others))

  quad-Fits :
      (n : String) (xs : List ℕ) (v : Bytes)
      → value_size n ≡ 16
      → pack little quad_format xs ≡ ok v
      → (k : Bytes) → length k ≡ 4
      → Fits n k v
  quad-Fits n xs v whole hv k hk =
      (hk, length-pack little quad_format xs hv ∙ sym whole, pack-IsByte little quad_format xs hv)

  module _ (teid pdr_id qer_id far_id precedence urr_id : ℕ)
      (own_teid : teid < 2 ^ 32 → Own "teid_session" (le_bytes 4 teid))
      (own_pdr : pdr_id < 2 ^ 32 → Own "pdr_table" (le_bytes 4 pdr_id))
      (own_bundle : pdr_id < 2 ^ 32 → Own "tc_bundle_map" (le_bytes 4 pdr_id)) where
    abbrev slot : BundleSlot
    slot = record {
      far_id = far_id;
      qer_id = qer_id;
      urr_id = urr_id;
      precedence = precedence;
      generation = 0;
    }

    pdr-Stays : Stays (install_pdr M pdr_id far_id qer_id precedence urr_id)
    unfolding install_pdr enc_pdr
    pdr-Stays = lifted (enc_u32 pdr_id) (λ key hk.
        lifted (enc_pdr far_id qer_id precedence urr_id) (λ v hv.
          write "pdr_table" pdr_id key v hk own_pdr
            (quad-Fits "pdr_table" (far_id ∷ qer_id ∷ precedence ∷ urr_id ∷ []) v refl hv)))

    bundle-Stays : Stays (install_tc_bundle M pdr_id far_id qer_id urr_id precedence 0)
    unfolding install_tc_bundle enc_bundle_slot pack
    bundle-Stays = lifted (enc_bundle_slot far_id qer_id urr_id precedence 0) (λ s hs.
        lifted (enc_u32 pdr_id) (λ key hk. lifted (enc_bundle 0 s s) (λ v hv.
          write "tc_bundle_map" pdr_id key v hk own_bundle (λ k hk4. (
            hk4,
            length-enc_bundle 0 slot slot hs hs hv,
            enc_bundle-IsByte 0 slot slot hs hs hv,
          )))))

    session-Stays : Stays (install_teid M teid pdr_id qer_id far_id)
    unfolding install_teid enc_session
    session-Stays = lifted (enc_u32 teid) (λ key hk.
        lifted (enc_session pdr_id qer_id far_id) (λ v hv.
          write "teid_session" teid key v hk own_teid
            (quad-Fits "teid_session" (pdr_id ∷ qer_id ∷ far_id ∷ 0 ∷ []) v refl hv)))

    pub install_session-Frame :
        Stays (install_session M teid pdr_id qer_id far_id precedence urr_id)
    unfolding install_session
    install_session-Frame =
        Triple-bind M pdr-Stays (λ _. Triple-bind M bundle-Stays (λ _. session-Stays))
