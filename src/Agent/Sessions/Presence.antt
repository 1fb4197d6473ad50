-- ===== src/Agent/Sessions/Presence.antt =====
-- Which writes keep it true that every session leads to a PDR and a bundle.
use native.Mathlib.Decide.{ℕ_discrete}
use ebpf_upf.Prelude.{
  ℕ, ◌≡◌, ◌≢◌, sym, ap, subst, ◌∙◌, inl, inr, String, Bool, false, Option, some, eq_iff, arith,
}
use ebpf_upf.Python.Struct.{Bytes, le_bytes}
use ebpf_upf.Maps.{Maps, WroteAs, Wrote}
use ebpf_upf.Datapath.Tables.{session_val, map_lookup}

pub Bytes-discrete : Discrete Bytes
Bytes-discrete = hlevel ℕ_discrete

-- The PDR of a session is there, with its bundle.
pub record PdrThere (m : Maps) (pdr_id : ℕ) : Type 0 where
  pub pdr : (b : Bytes) × (map_lookup m "pdr_table" pdr_id ≡ some b)
  pub bundle : (b : Bytes) × (map_lookup m "tc_bundle_map" pdr_id ≡ some b)

-- Every session that a packet can find leads to a PDR and a bundle.
pub record Resolved (m : Maps) : Type 0 where
  pub at : (j v : Bytes) → m "teid_session" j ≡ some v → PdrThere m (session_val v).pdr_id

-- A write to a map that does not evict takes no entry away.
pub there-Wrote :
    (n : String) (k v : Bytes) (m m' : Maps)
    → WroteAs false n k v m m'
    → (j x : Bytes) → m n j ≡ some x
    → (y : Bytes) × (m' n j ≡ some y)
there-Wrote n k v m m' w j x h = elim (Bytes-discrete j k) [
  | yes e ↦ (v, rw e w.here)
  | no ne ↦ (x, w.elsewhere j ne ∙ h)
]

pub pdr-ne-teid : ◌≢◌ {A = String} "pdr_table" "teid_session"
pdr-ne-teid = ground (arith, eq_iff "pdr_table" "teid_session")

pub bundle-ne-teid : ◌≢◌ {A = String} "tc_bundle_map" "teid_session"
bundle-ne-teid = ground (arith, eq_iff "tc_bundle_map" "teid_session")

pub pdr-ne-bundle : ◌≢◌ {A = String} "pdr_table" "tc_bundle_map"
pdr-ne-bundle = ground (arith, eq_iff "pdr_table" "tc_bundle_map")

-- A map that is not written reads as before.
pub kept :
    {lru : Bool} (n n' : String) (k v : Bytes) (m m' : Maps)
    → WroteAs lru n k v m m'
    → n' ≢ n
    → (j : Bytes) → m' n' j ≡ m n' j
kept n n' k v m m' w h j = ap (λ (c : Bytes → Option Bytes). c j) (w.others n' h)

module _ (k v : Bytes) (m m' : Maps) where
  PdrThere-write_pdr : Wrote "pdr_table" k v m m' → (p : ℕ) → PdrThere m p → PdrThere m' p
  unfolding map_lookup
  PdrThere-write_pdr w p t = record {
    pdr = there-Wrote "pdr_table" k v m m' w (le_bytes 4 p) t.pdr.0 t.pdr.1;
    bundle = (
      t.bundle.0,
      kept "pdr_table" "tc_bundle_map" k v m m' w (λ e. pdr-ne-bundle (sym e)) (le_bytes 4 p)
          ∙ t.bundle.1,
    );
  }

  PdrThere-write_bundle : Wrote "tc_bundle_map" k v m m' → (p : ℕ) → PdrThere m p → PdrThere m' p
  unfolding map_lookup
  PdrThere-write_bundle w p t = record {
    pdr = (
      t.pdr.0,
      kept "tc_bundle_map" "pdr_table" k v m m' w pdr-ne-bundle (le_bytes 4 p) ∙ t.pdr.1,
    );
    bundle = there-Wrote "tc_bundle_map" k v m m' w (le_bytes 4 p) t.bundle.0 t.bundle.1;
  }

  pub Resolved-write_pdr : Wrote "pdr_table" k v m m' → Resolved m → Resolved m'
  Resolved-write_pdr w r = record {
    at = λ j x h. PdrThere-write_pdr w (session_val x).pdr_id (
        r.at j x
          (sym (kept "pdr_table" "teid_session" k v m m' w (λ e. pdr-ne-teid (sym e)) j) ∙ h));
  }

  pub Resolved-write_bundle : Wrote "tc_bundle_map" k v m m' → Resolved m → Resolved m'
  Resolved-write_bundle w r = record {
    at = λ j x h. PdrThere-write_bundle w (session_val x).pdr_id (
        r.at j x (
          sym (kept "tc_bundle_map" "teid_session" k v m m' w (λ e. bundle-ne-teid (sym e)) j)
          ∙ h));
  }

  -- The PDR tables are not touched by the session's write.
  PdrThere-write_teid : Wrote "teid_session" k v m m' → (p : ℕ) → PdrThere m p → PdrThere m' p
  unfolding map_lookup
  PdrThere-write_teid w p t = record {
    pdr =
        (t.pdr.0, kept "teid_session" "pdr_table" k v m m' w pdr-ne-teid (le_bytes 4 p) ∙ t.pdr.1);
    bundle = (
      t.bundle.0,
      kept "teid_session" "tc_bundle_map" k v m m' w bundle-ne-teid (le_bytes 4 p) ∙ t.bundle.1,
    );
  }

  -- A session may be written once its PDR is there. Others may be evicted, and are not changed.
  pub Resolved-write_teid :
      Wrote "teid_session" k v m m' → Resolved m → PdrThere m (session_val v).pdr_id → Resolved m'
  Resolved-write_teid w r t = record {
    at = λ j x h. elim (Bytes-discrete j k) [
      | yes e ↦
          let vx : v ≡ x = cc (e, h, w.here) in
          PdrThere-write_teid w (session_val x).pdr_id
            (subst (λ y. PdrThere m (session_val y).pdr_id) vx t)
      | no ne ↦ elim (w.elsewhere j ne) [
        | inl same ↦ PdrThere-write_teid w (session_val x).pdr_id (r.at j x (sym same ∙ h))
        | inr gone ↦ cc (gone, h)
      ]
    ];
  }
