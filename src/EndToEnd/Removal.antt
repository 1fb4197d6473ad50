-- ===== src/EndToEnd/Removal.antt =====
-- What the packets of the other sessions meet while loader/agent.py removes a session.
use ebpf_upf.Prelude.{
  ℕ, ◌^◌, ◌<◌, ◌≡◌, ◌≢◌, inl, inr, sym, ap, ◌∙◌, [], ◌∷◌, Option, some, none, Option-cases, arith,
}
use ebpf_upf.Python.Struct.{Bytes, le_bytes, le_value}
use ebpf_upf.Python.Struct.RoundTrip.{le_value-le_bytes}
use ebpf_upf.Maps.{Maps, PinnedMaps}
use ebpf_upf.Maps.Logic.{Reaches, Reaches-weaken}
use ebpf_upf.Agent.Sessions.{remove_session}
use ebpf_upf.Agent.Sessions.Presence.{Resolved, pdr-ne-teid, bundle-ne-teid, pdr-ne-bundle}
use ebpf_upf.Agent.Sessions.Removal.{remove_session_safe}
use ebpf_upf.Agent.Sessions.Removal.Entries.{Less, OnlyUser}
use ebpf_upf.Datapath.Tables.{session_val, BundleSlot, bundle_of, map_lookup}
use ebpf_upf.Datapath.Packet.{gpdu}
use ebpf_upf.Datapath.Uplink.{xdp_drop, classify, look_up_session, look_up_pdr}
use ebpf_upf.Datapath.Stages.{m_miss_teid}

-- The tuple that the TC program finds for a TEID.
unfoldable pub tuple_of : Maps → ℕ → Option BundleSlot
tuple_of m teid = elim (map_lookup m "teid_session" teid) [
  | none ↦ none
  | some v ↦ bundle_of m (session_val v).pdr_id
]

-- The XDP program does with the G-PDUs of `teid` what it did before, and the TC program finds the
-- same tuple for them.
pub record Spared (teid : ℕ) (m0 m : Maps) : Type 0 where
  pub uplink :
      (ihl_bytes : ℕ)
      → classify (λ k. m) (gpdu ihl_bytes teid) ≡ classify (λ k. m0) (gpdu ihl_bytes teid)
  pub tuple : tuple_of m teid ≡ tuple_of m0 teid

keys_differ : (a b : ℕ) → a < 2 ^ 32 → b < 2 ^ 32 → a ≢ b → le_bytes 4 a ≢ le_bytes 4 b
keys_differ a b ha hb ne e = ne (
    sym (le_value-le_bytes 4 a (omega arith)) ∙ ap le_value e ∙ le_value-le_bytes 4 b (omega arith))

module _ (m : Maps) (teid : ℕ) where
  session_miss :
      map_lookup m "teid_session" teid ≡ none
      → look_up_session (λ k. m) teid ≡ (xdp_drop, m_miss_teid ∷ [])
  unfolding look_up_session
  session_miss missing = rw (missing, look_up_session)

  session_step :
      (v : Bytes)
      → map_lookup m "teid_session" teid ≡ some v
      → look_up_session (λ k. m) teid ≡ look_up_pdr m (session_val v).pdr_id
  unfolding look_up_session
  session_step v found = rw (found, look_up_session)

  tuple_miss : map_lookup m "teid_session" teid ≡ none → tuple_of m teid ≡ none
  unfolding tuple_of
  tuple_miss missing = rw (missing, tuple_of)

  tuple_step :
      (v : Bytes)
      → map_lookup m "teid_session" teid ≡ some v
      → tuple_of m teid ≡ bundle_of m (session_val v).pdr_id
  unfolding tuple_of
  tuple_step v found = rw (found, tuple_of)

pdr_step :
    (m m0 : Maps) (p : ℕ)
    → map_lookup m "pdr_table" p ≡ map_lookup m0 "pdr_table" p
    → look_up_pdr m p ≡ look_up_pdr m0 p
unfolding look_up_pdr
pdr_step m m0 p same = rw (same, look_up_pdr)

module _ (teid pdr_id other : ℕ) (m0 m : Maps) (less : Less teid pdr_id m0 m)
    (alone : OnlyUser teid pdr_id m0) (ne : le_bytes 4 other ≢ le_bytes 4 teid) where
  same_session : map_lookup m "teid_session" other ≡ map_lookup m0 "teid_session" other
  unfolding map_lookup
  same_session = elim (less "teid_session" (le_bytes 4 other)) [
    | inl same ↦ same
    | inr (gone, inl (n, k)) ↦ absurd (ne k)
    | inr (gone, inr (inl (n, k))) ↦ absurd (pdr-ne-teid (sym n))
    | inr (gone, inr (inr (n, k))) ↦ absurd (bundle-ne-teid (sym n))
  ]

  module _ (p : ℕ) (kept : le_bytes 4 p ≢ le_bytes 4 pdr_id) where
    same_pdr : map_lookup m "pdr_table" p ≡ map_lookup m0 "pdr_table" p
    unfolding map_lookup
    same_pdr = elim (less "pdr_table" (le_bytes 4 p)) [
      | inl same ↦ same
      | inr (gone, inl (n, k)) ↦ absurd (pdr-ne-teid n)
      | inr (gone, inr (inl (n, k))) ↦ absurd (kept k)
      | inr (gone, inr (inr (n, k))) ↦ absurd (pdr-ne-bundle n)
    ]

    same_bundle : bundle_of m p ≡ bundle_of m0 p
    unfolding bundle_of map_lookup
    same_bundle = elim (less "tc_bundle_map" (le_bytes 4 p)) [
      | inl same ↦ rw same
      | inr (gone, inl (n, k)) ↦ absurd (bundle-ne-teid n)
      | inr (gone, inr (inl (n, k))) ↦ absurd (pdr-ne-bundle (sym n))
      | inr (gone, inr (inr (n, k))) ↦ absurd (kept k)
    ]

  -- The PDR of the other session is not the one that is removed.
  other_pdr :
      (v : Bytes)
      → map_lookup m0 "teid_session" other ≡ some v
      → le_bytes 4 (session_val v).pdr_id ≢ le_bytes 4 pdr_id
  unfolding map_lookup
  other_pdr v found same = ne (alone (le_bytes 4 other) (v, found, same))

  same_lookups : look_up_session (λ k. m) other ≡ look_up_session (λ k. m0) other
  same_lookups = elim (Option-cases (map_lookup m0 "teid_session" other)) [
    | inl missing ↦
        session_miss m other (same_session ∙ missing) ∙ sym (session_miss m0 other missing)
    | inr (v, found) ↦
        let p : ℕ = (session_val v).pdr_id in
        session_step m other v (same_session ∙ found)
        ∙ pdr_step m m0 p (same_pdr p (other_pdr v found))
        ∙ sym (session_step m0 other v found)
  ]

  same_tuple : tuple_of m other ≡ tuple_of m0 other
  same_tuple = elim (Option-cases (map_lookup m0 "teid_session" other)) [
    | inl missing ↦ tuple_miss m other (same_session ∙ missing) ∙ sym (tuple_miss m0 other missing)
    | inr (v, found) ↦
        let p : ℕ = (session_val v).pdr_id in
        tuple_step m other v (same_session ∙ found)
        ∙ same_bundle p (other_pdr v found)
        ∙ sym (tuple_step m0 other v found)
  ]

  Less-Spared : Spared other m0 m
  unfolding classify
  Less-Spared = record { uplink = λ ihl_bytes. rw same_lookups; tuple = same_tuple }

-- From any world where every session leads to a PDR and a bundle and no session but teid uses
-- pdr_id, for TEIDs of 32 bits, and whatever the kernel refuses: at every moment of
-- remove_session, and at its end, normal or not, the XDP program treats the G-PDUs of each other
-- TEID as it did before, and the TC program finds the same tuple for them. The record of passed
-- contents starts with the call.
pub remove_session_spares :
    (M : PinnedMaps) (teid pdr_id other : ℕ) (w : M.World)
    → M.IsOpen w
    → M.passed w ≡ M.content w ∷ []
    → Resolved (M.content w)
    → OnlyUser teid pdr_id (M.content w)
    → teid < 2 ^ 32
    → other < 2 ^ 32
    → other ≢ teid
    → Reaches M
        (Spared other (M.content w))
        (λ _. Spared other (M.content w))
        (λ e. Spared other (M.content w))
        (remove_session M teid pdr_id w)
remove_session_spares M teid pdr_id other w o fresh r alone ht ho ne =
    let keys = keys_differ other teid ho ht ne in
    let spared : (m : Maps) → Less teid pdr_id (M.content w) m → Spared other (M.content w) m =
      λ m less. Less-Spared teid pdr_id other (M.content w) m less alone keys in
    Reaches-weaken M (λ m seen. spared m seen.0) (λ _ m removed. spared m removed.0.0)
      (λ e m stopped. spared m stopped.2.0) (remove_session_safe M teid pdr_id w o fresh r alone)
