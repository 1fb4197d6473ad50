-- ===== src/Agent/Sessions/Order.antt =====
-- The order of the writes of `install_session`: no packet finds a session whose PDR or bundle is
-- missing, and at the end the datapath reads what was asked for.
use mathlib.Core.Option
use ebpf_upf.Prelude.{ℕ, ◌<◌, ◌^◌, ◌≡◌, sym, ap, subst, ◌∙◌, [], ◌∷◌, some, All, arith}
use ebpf_upf.Python.{Exception, ok, err, os_error, struct_error}
use ebpf_upf.Python.Struct.{Bytes, IsByte, little, le_bytes, pack}
use ebpf_upf.Python.Struct.RoundTrip.{InRange, pack_fails, pack-IsByte, length-le_bytes}
use ebpf_upf.Maps.{Maps, PinnedMaps}
use ebpf_upf.Maps.Logic.{Reaches, Triple, Triple-bind, Triple-bind-lift, Triple-update}
use ebpf_upf.Datapath.Tables.{
  SessionVal, session_val, PdrVal, pdr_val, BundleSlot, current_slot, map_lookup, bundle_of,
}
use ebpf_upf.Agent.Encoders.{
  quad_format, slot_format, enc_u32, enc_session, enc_pdr, enc_bundle_slot, enc_bundle,
}
use ebpf_upf.Agent.Layout.{enc_u32-key, enc_u32_fails, session_val-enc_session, pdr_val-enc_pdr}
use ebpf_upf.Agent.Layout.Bundle.{
  slot_fields, current_slot-enc_bundle, length-enc_bundle, enc_bundle-IsByte, enc_bundle_ok,
}
use ebpf_upf.Agent.Sessions.{install_pdr, install_tc_bundle, install_teid, install_session}
use ebpf_upf.Agent.Sessions.Presence.{
  PdrThere, Resolved, kept, pdr-ne-teid, bundle-ne-teid, pdr-ne-bundle, Resolved-write_pdr,
  Resolved-write_bundle, Resolved-write_teid,
}

-- What the datapath reads of one PDR, and of one session.
abbrev pub PdrIs : ℕ → PdrVal → Maps → Type 0
PdrIs pdr_id v m = Option.map pdr_val (map_lookup m "pdr_table" pdr_id) ≡ some v

abbrev pub SessionIs : ℕ → SessionVal → Maps → Type 0
SessionIs teid v m = Option.map session_val (map_lookup m "teid_session" teid) ≡ some v

PdrIs-there :
    (pdr_id : ℕ) (v : PdrVal) (m : Maps)
    → PdrIs pdr_id v m
    → (b : Bytes) × (map_lookup m "pdr_table" pdr_id ≡ some b)
PdrIs-there pdr_id v m h = ground arith

bundle-there :
    (pdr_id : ℕ) (s : BundleSlot) (m : Maps)
    → bundle_of m pdr_id ≡ some s
    → (b : Bytes) × (map_lookup m "tc_bundle_map" pdr_id ≡ some b)
unfolding bundle_of
bundle-there pdr_id s m h = ground arith

module _ (M : PinnedMaps) (teid pdr_id qer_id far_id precedence urr_id : ℕ) where
  abbrev pub the_pdr : PdrVal
  the_pdr = record { far_id = far_id; qer_id = qer_id; precedence = precedence; urr_id = urr_id }

  abbrev pub the_slot : BundleSlot
  the_slot = record {
    far_id = far_id;
    qer_id = qer_id;
    urr_id = urr_id;
    precedence = precedence;
    generation = 0;
  }

  abbrev pub the_session : SessionVal
  the_session = record { pdr_id = pdr_id; qer_id = qer_id; far_id = far_id }

  -- Every identifier fits 32 bits.
  abbrev pub Fitting : Type 0
  Fitting =
      (teid < 2 ^ 32)
      × (pdr_id < 2 ^ 32)
      × (qer_id < 2 ^ 32)
      × (far_id < 2 ^ 32)
      × (precedence < 2 ^ 32)
      × (urr_id < 2 ^ 32)

  -- The reason of an exception: a system call's error, or an argument that does not fit.
  abbrev pub Reason : Exception → Type 0
  Reason (os_error x) = Unit {0}
  Reason struct_error = ¬ Fitting
  Reason _ = ⊥

  abbrev pub Stopped : Exception → Maps → Type 0
  Stopped e m = Resolved m × Reason e

  abbrev WithPdr : Maps → Type 0
  WithPdr m = Resolved m × PdrIs pdr_id the_pdr m

  abbrev WithBundle : Maps → Type 0
  WithBundle m = Resolved m × PdrIs pdr_id the_pdr m × (bundle_of m pdr_id ≡ some the_slot)

  abbrev pub Installed : Maps → Type 0
  Installed m =
      Resolved m
      × PdrIs pdr_id the_pdr m
      × (bundle_of m pdr_id ≡ some the_slot)
      × SessionIs teid the_session m

  struct_stopped :
      (e : Exception) (m : Maps) → e ≡ struct_error → ¬ Fitting → Resolved m → Stopped e m
  struct_stopped e m h misfit r = subst (λ x. Stopped x m) (sym h) (r, misfit)

  key_stopped :
      (v : ℕ) (e : Exception) (m : Maps)
      → enc_u32 v ≡ err e
      → (Fitting → v < 2 ^ 32)
      → Resolved m
      → Stopped e m
  key_stopped v e m h fits r =
      let (struct, misfit) = enc_u32_fails v h in struct_stopped e m struct (λ f. misfit (fits f)) r

  pdr_misfit : ¬ InRange quad_format (far_id ∷ qer_id ∷ precedence ∷ urr_id ∷ []) → ¬ Fitting
  pdr_misfit bad (t, p, q, f, c, u) = bad (f, (q, (c, (u, tt))))

  session_misfit : ¬ InRange quad_format (pdr_id ∷ qer_id ∷ far_id ∷ 0 ∷ []) → ¬ Fitting
  session_misfit bad (t, p, q, f, c, u) = bad (p, (q, (f, (omega arith, tt))))

  slot_misfit : ¬ InRange slot_format (slot_fields the_slot) → ¬ Fitting
  slot_misfit bad (t, p, q, f, c, u) = bad (f, (q, (u, (c, (omega arith, (omega arith, tt))))))

  write_pdr :
      (b : Bytes)
      → enc_pdr far_id qer_id precedence urr_id ≡ ok b
      → Triple M Resolved Resolved
          (M.update "pdr_table" (le_bytes 4 pdr_id) b)
          (λ _. WithPdr)
          Stopped
  unfolding map_lookup
  write_pdr b hb =
      let (size, reads) = pdr_val-enc_pdr far_id qer_id precedence urr_id hb in
      let bytes : All IsByte b =
        unfold enc_pdr in
        pack-IsByte little quad_format (far_id ∷ qer_id ∷ precedence ∷ urr_id ∷ []) hb in
      Triple-update M "pdr_table" (le_bytes 4 pdr_id) b (length-le_bytes 4 pdr_id, size, bytes)
        (λ m r. r) (λ m q. q.0) (λ x m r. (r, tt))
        (λ m m' r w. (
          Resolved-write_pdr (le_bytes 4 pdr_id) b m m' w r,
          ap (Option.map pdr_val) w.here ∙ ap some reads,
        ))

  pdr_shows :
      Triple M Resolved Resolved
        (install_pdr M pdr_id far_id qer_id precedence urr_id)
        (λ _. WithPdr)
        Stopped
  unfolding install_pdr enc_pdr
  pdr_shows =
      Triple-bind-lift M (enc_u32 pdr_id)
        (λ key hk.
          Triple-bind-lift M (enc_pdr far_id qer_id precedence urr_id)
            (λ b hb. rw (enc_u32-key pdr_id hk).0 (write_pdr b hb))
            (λ e fails m r.
              let (struct, bad) =
                pack_fails little quad_format (far_id ∷ qer_id ∷ precedence ∷ urr_id ∷ []) fails in
              struct_stopped e m struct (pdr_misfit bad) r))
        (λ e fails m r. key_stopped pdr_id e m fails (λ f. f.1) r)

  write_bundle :
      (sb b : Bytes)
      → pack little slot_format (slot_fields the_slot) ≡ ok sb
      → enc_bundle 0 sb sb ≡ ok b
      → Triple M Resolved WithPdr
          (M.update "tc_bundle_map" (le_bytes 4 pdr_id) b)
          (λ _. WithBundle)
          Stopped
  unfolding map_lookup
  write_bundle sb b hs hb =
      let size = length-enc_bundle 0 the_slot the_slot hs hs hb in
      let bytes = enc_bundle-IsByte 0 the_slot the_slot hs hs hb in
      let reads = current_slot-enc_bundle 0 the_slot the_slot hs hs hb (omega arith) in
      let k = le_bytes 4 pdr_id in
      Triple-update M "tc_bundle_map" k b (length-le_bytes 4 pdr_id, size, bytes) (λ m q. q.0)
        (λ m q. q.0) (λ x m q. (q.0, tt))
        (λ m m' q w. (
          Resolved-write_bundle k b m m' w q.0,
          ap (Option.map pdr_val) (kept "tc_bundle_map" "pdr_table" k b m m' w pdr-ne-bundle k)
              ∙ q.1,
          unfold bundle_of in (ap (Option.map current_slot) w.here ∙ ap some reads),
        ))

  bundle_shows :
      Triple M Resolved WithPdr
        (install_tc_bundle M pdr_id far_id qer_id urr_id precedence 0)
        (λ _. WithBundle)
        Stopped
  unfolding install_tc_bundle enc_bundle_slot
  bundle_shows =
      Triple-bind-lift M (enc_bundle_slot far_id qer_id urr_id precedence 0)
        (λ sb hs.
          Triple-bind-lift M (enc_u32 pdr_id)
            (λ key hk.
              Triple-bind-lift M (enc_bundle 0 sb sb)
                (λ b hb. rw (enc_u32-key pdr_id hk).0 (write_bundle sb b hs hb))
                (λ e fails. cc (fails, (enc_bundle_ok 0 sb sb (omega arith)).1)))
            (λ e fails m q. key_stopped pdr_id e m fails (λ f. f.1) q.0))
        (λ e fails m q.
          let (struct, bad) = pack_fails little slot_format (slot_fields the_slot) fails in
          struct_stopped e m struct (slot_misfit bad) q.0)

  write_session :
      (b : Bytes)
      → enc_session pdr_id qer_id far_id ≡ ok b
      → Triple M Resolved WithBundle
          (M.update "teid_session" (le_bytes 4 teid) b)
          (λ _. Installed)
          Stopped
  unfolding map_lookup
  write_session b hb =
      let (size, reads) = session_val-enc_session pdr_id qer_id far_id hb in
      let bytes : All IsByte b =
        unfold enc_session in
        pack-IsByte little quad_format (pdr_id ∷ qer_id ∷ far_id ∷ 0 ∷ []) hb in
      let k = le_bytes 4 teid in
      let p = le_bytes 4 pdr_id in
      Triple-update M "teid_session" k b (length-le_bytes 4 teid, size, bytes) (λ m q. q.0)
        (λ m q. q.0) (λ x m q. (q.0, tt))
        (λ m m' q w.
          let there : PdrThere m pdr_id = record {
            pdr = PdrIs-there pdr_id the_pdr m q.1;
            bundle = bundle-there pdr_id the_slot m q.2;
          } in
          let named = ap (λ (v : SessionVal). v.pdr_id) (sym reads) in
          (
            Resolved-write_teid k b m m' w q.0 (subst (PdrThere m) named there),
            ap (Option.map pdr_val) (kept "teid_session" "pdr_table" k b m m' w pdr-ne-teid p)
                ∙ q.1,
            unfold bundle_of in
                (ap (Option.map current_slot)
                    (kept "teid_session" "tc_bundle_map" k b m m' w bundle-ne-teid p)
                  ∙ q.2),
            ap (Option.map session_val) w.here ∙ ap some reads,
          ))

  session_shows :
      Triple M Resolved WithBundle
        (install_teid M teid pdr_id qer_id far_id)
        (λ _. Installed)
        Stopped
  unfolding install_teid enc_session
  session_shows =
      Triple-bind-lift M (enc_u32 teid)
        (λ key hk.
          Triple-bind-lift M (enc_session pdr_id qer_id far_id)
            (λ b hb. rw (enc_u32-key teid hk).0 (write_session b hb))
            (λ e fails m q.
              let (struct, bad) =
                pack_fails little quad_format (pdr_id ∷ qer_id ∷ far_id ∷ 0 ∷ []) fails in
              struct_stopped e m struct (session_misfit bad) q.0))
        (λ e fails m q. key_stopped teid e m fails (λ f. f.0) q.0)

  pub install_shows :
      Triple M Resolved Resolved
        (install_session M teid pdr_id qer_id far_id precedence urr_id)
        (λ _. Installed)
        Stopped
  unfolding install_session
  install_shows = Triple-bind M pdr_shows (λ _. Triple-bind M bundle_shows (λ _. session_shows))

-- From a world where every session that a packet could find led to a PDR and a bundle, and whatever
-- the kernel refuses or evicts: this stays so at every moment of `install_session`. A normal end
-- has installed the PDR, the bundle in generation 0 and the session, as the datapath reads them.
-- An exception is an `OSError` of a system call, or `struct.error`, and the latter only if one of
-- the six arguments does not fit 32 bits.
pub install_session_ordered :
    (M : PinnedMaps) (teid pdr_id qer_id far_id precedence urr_id : ℕ) (w : M.World)
    → M.IsOpen w
    → All Resolved (M.passed w)
    → Resolved (M.content w)
    → Reaches M Resolved
        (λ _. Installed M teid pdr_id qer_id far_id precedence urr_id)
        (Stopped M teid pdr_id qer_id far_id precedence urr_id)
        (install_session M teid pdr_id qer_id far_id precedence urr_id w)
install_session_ordered M teid pdr_id qer_id far_id precedence urr_id w o s r =
    (install_shows M teid pdr_id qer_id far_id precedence urr_id).run w o s r
