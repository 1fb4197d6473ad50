-- ===== src/Agent/Downlink/Whole.antt =====
-- Each of the two operations writes its entry whole, or leaves all maps alone.
use ebpf_upf.Prelude.{ℕ, ◌<◌, ◌^◌, ◌≡◌, refl, String, [], ◌∷◌, ◌++◌, ◌⊎◌, inl, arith}
use ebpf_upf.Python.{Exception, ok, err}
use ebpf_upf.Python.Struct.{Bytes, little, big, le_bytes, pack}
use ebpf_upf.Python.Struct.RoundTrip.{pack_fails, pack-InRange, length-le_bytes}
use ebpf_upf.Maps.{Maps, PinnedMaps}
use ebpf_upf.Maps.Logic.{Reaches, Triple, Triple-bind-lift}
use ebpf_upf.Agent.Encoders.{u32_format, enc_u32}
use ebpf_upf.Agent.Layout.{enc_u32-key, enc_u32_fails}
use ebpf_upf.Agent.Downlink.{Resolver, half_pair_format, install_dl_ue, install_upf_config}
use ebpf_upf.Agent.Downlink.Install.{
  Declined, address-HasReason, struct-HasReason, one_field, two_fields, dl_ue_bytes, dl_ue-Fits,
  put_entry, TunnelEntry, ConfigEntry,
}

zero_fits : (e : Exception) → ¬ (enc_u32 0 ≡ err e)
zero_fits e h = (enc_u32_fails 0 h).1 (omega arith)

module _ (M : PinnedMaps) (N : Resolver) (ue : String) (teid : ℕ) (gnb : String) (qfi : ℕ)
    (m0 : Maps) where
  abbrev Fitting : Type 0
  Fitting = (teid < 2 ^ 32) × (qfi < 2 ^ 16)

  abbrev Entry : Maps → Type 0
  Entry = TunnelEntry N ue teid gnb qfi m0

  write_tunnel :
      (key peer tunnel rest : Bytes)
      → N.inet_aton ue ≡ ok key
      → N.inet_aton gnb ≡ ok peer
      → pack big u32_format (teid ∷ []) ≡ ok tunnel
      → pack little half_pair_format (qfi ∷ 0 ∷ []) ≡ ok rest
      → Triple M
          (λ m. (m ≡ m0) ⊎ Entry m)
          (λ m. m ≡ m0)
          (M.update "dl_ue_map" key ((tunnel ++ peer) ++ rest))
          (λ _. Entry)
          (Declined Fitting m0)
  write_tunnel key peer tunnel rest hk hp ht hr =
      rw (one_field teid ht, two_fields qfi hr)
        (put_entry M m0 Fitting Entry "dl_ue_map" key (dl_ue_bytes teid peer qfi)
          (dl_ue-Fits teid qfi key peer (N.address_size ue key hk).0 (N.address_size gnb peer hp))
          (λ m w. record {
            key = key;
            peer = peer;
            key_read = hk;
            peer_read = hp;
            fits = (
              (pack-InRange big u32_format (teid ∷ []) ht).0,
              (pack-InRange little half_pair_format (qfi ∷ 0 ∷ []) hr).0,
            );
            wrote = w;
          }))

  address_refused :
      (dotted : String) (e : Exception)
      → N.inet_aton dotted ≡ err e
      → (m : Maps) → m ≡ m0
      → Declined Fitting m0 e m
  address_refused dotted e h m same =
      (same, address-HasReason Fitting e (N.address_error dotted e h))

  whole_tunnel :
      Triple M
        (λ m. (m ≡ m0) ⊎ Entry m)
        (λ m. m ≡ m0)
        (install_dl_ue M N ue teid gnb qfi)
        (λ _. Entry)
        (Declined Fitting m0)
  unfolding install_dl_ue
  whole_tunnel =
      Triple-bind-lift M (N.inet_aton ue)
        (λ key hk.
          Triple-bind-lift M (pack big u32_format (teid ∷ []))
            (λ tunnel ht.
              Triple-bind-lift M (N.inet_aton gnb)
                (λ peer hp.
                  Triple-bind-lift M (pack little half_pair_format (qfi ∷ 0 ∷ []))
                    (λ rest hr. write_tunnel key peer tunnel rest hk hp ht hr)
                    (λ e h m same.
                      let (struct, bad) = pack_fails little half_pair_format (qfi ∷ 0 ∷ []) h in
                      (same, struct-HasReason e struct (λ f. bad (f.1, (omega arith, tt))))))
                (address_refused gnb))
            (λ e h m same.
              let (struct, bad) = pack_fails big u32_format (teid ∷ []) h in
              (same, struct-HasReason e struct (λ f. bad (f.0, tt)))))
        (address_refused ue)

module _ (M : PinnedMaps) (N : Resolver) (n3_addr : String) (m0 : Maps) where
  whole_config :
      Triple M
        (λ m. (m ≡ m0) ⊎ ConfigEntry N n3_addr m0 m)
        (λ m. m ≡ m0)
        (install_upf_config M N n3_addr)
        (λ _. ConfigEntry N n3_addr m0)
        (Declined Unit m0)
  unfolding install_upf_config
  whole_config =
      Triple-bind-lift M (enc_u32 0)
        (λ key hk.
          Triple-bind-lift M (N.inet_aton n3_addr)
            (λ address ha.
              let (size, bytes) = N.address_size n3_addr address ha in
              rw (enc_u32-key 0 hk).0 (
                put_entry M m0 Unit (ConfigEntry N n3_addr m0) "upf_config_map" (le_bytes 4 0)
                  address (length-le_bytes 4 0, size, bytes)
                  (λ m w. record { address = address; address_read = ha; wrote = w })))
            (λ e h m same. (same, address-HasReason Unit e (N.address_error n3_addr e h))))
        (λ e h. absurd (zero_fits e h))

-- In any world, and whatever the kernel refuses: at every moment of `install_dl_ue` the maps are as
-- before, or the entry of the UE's address is the only one written, and it holds the TEID in network
-- byte order, the gNB's address and the QFI. A normal end has written it. An exception has changed
-- nothing: an error of the system call or of an address, or `struct.error`, and that only if the
-- TEID does not fit 32 bits or the QFI 16. The record of passed contents starts with the call.
pub install_dl_ue_whole :
    (M : PinnedMaps) (N : Resolver) (ue : String) (teid : ℕ) (gnb : String) (qfi : ℕ) (w : M.World)
    → M.IsOpen w
    → M.passed w ≡ M.content w ∷ []
    → let m0 : Maps = M.content w in
      Reaches M
        (λ m. (m ≡ m0) ⊎ TunnelEntry N ue teid gnb qfi m0 m)
        (λ _. TunnelEntry N ue teid gnb qfi m0)
        (Declined ((teid < 2 ^ 32) × (qfi < 2 ^ 16)) m0)
        (install_dl_ue M N ue teid gnb qfi w)
install_dl_ue_whole M N ue teid gnb qfi w o fresh =
    (whole_tunnel M N ue teid gnb qfi (M.content w)).run w o (rw fresh (inl refl, tt)) refl

-- The same for `install_upf_config`, which cannot meet a `struct.error`.
pub install_upf_config_whole :
    (M : PinnedMaps) (N : Resolver) (n3_addr : String) (w : M.World)
    → M.IsOpen w
    → M.passed w ≡ M.content w ∷ []
    → let m0 : Maps = M.content w in
      Reaches M
        (λ m. (m ≡ m0) ⊎ ConfigEntry N n3_addr m0 m)
        (λ _. ConfigEntry N n3_addr m0)
        (Declined Unit m0)
        (install_upf_config M N n3_addr w)
install_upf_config_whole M N n3_addr w o fresh =
    (whole_config M N n3_addr (M.content w)).run w o (rw fresh (inl refl, tt)) refl
