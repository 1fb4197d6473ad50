-- ===== src/Agent/Batches/Startup/Entries.antt =====
-- What the start-up of loader/agent.py leaves in the maps, as the datapath reads it, and which later
-- writes leave it there.
use mathlib.Core.Option
use ebpf_upf.Prelude.{
  ℕ, zero, suc, ◌+◌, ◌≤◌, ◌<◌, ◌^◌, ◌≡◌, ◌≢◌, refl, sym, ap, subst, ◌∙◌, ◌⊎◌, inl, inr, String,
  Option, some, none, eq_iff, str_eq, false, arith,
}
use ebpf_upf.Python.Struct.{Bytes, le_bytes, le_value}
use ebpf_upf.Python.Struct.RoundTrip.{le_value-le_bytes}
use ebpf_upf.Maps.{Maps, Wrote, Kept, is_lru}
use ebpf_upf.Datapath.Tables.{
  far_val, qer_val, SessionVal, session_val, PdrVal, pdr_val, BundleSlot, bundle_of, current_slot,
  map_lookup,
}
use ebpf_upf.Agent.Sessions.Presence.{pdr-ne-teid, bundle-ne-teid}
use ebpf_upf.Agent.Sessions.Order.{PdrIs, SessionIs}
use ebpf_upf.Agent.Frame.{Frame}

-- The FAR that forwards to the interface, and the QER without limits.
abbrev pub FarThere : ℕ → Maps → Type 0
FarThere out_ifindex m =
    Option.map far_val (map_lookup m "far_table" 1)
    ≡ some record { action = 1; out_ifindex = out_ifindex; peer_ipv4_be = 0; out_teid_be = 0 }

abbrev pub QerThere : Maps → Type 0
QerThere m =
    Option.map qer_val (map_lookup m "qer_table" 1)
    ≡ some record { mbr_ul_bps = 0; mbr_dl_bps = 0; burst_bytes = 0 }

abbrev pub usual_pdr : PdrVal
usual_pdr = record { far_id = 1; qer_id = 1; precedence = 100; urr_id = 1 }

abbrev pub usual_slot : BundleSlot
usual_slot = record { far_id = 1; qer_id = 1; urr_id = 1; precedence = 100; generation = 0 }

abbrev pub usual_session : ℕ → SessionVal
usual_session i = record { pdr_id = 0x2000 + i; qer_id = 1; far_id = 1 }

-- Session number i: its PDR and its bundle, and the session itself unless it is evicted.
abbrev pub SessionThere : ℕ → Maps → Type 0
SessionThere i m =
    PdrIs (0x2000 + i) usual_pdr m
    × (bundle_of m (0x2000 + i) ≡ some usual_slot)
    × (SessionIs (0x1000 + i) (usual_session i) m
        ⊎ (map_lookup m "teid_session" (0x1000 + i) ≡ none))

-- The first sessions, so many of them.
abbrev pub SessionsThere : ℕ → Maps → Type 0
SessionsThere zero m = Unit
SessionsThere (suc n) m = SessionsThere n m × SessionThere n m

abbrev pub There : ℕ → ℕ → Maps → Type 0
There out_ifindex n m = FarThere out_ifindex m × QerThere m × SessionsThere n m

pub There-next :
    (out_ifindex n : ℕ) (m : Maps)
    → There out_ifindex n m
    → SessionThere n m
    → There out_ifindex (n + 1) m
There-next out_ifindex n m (far, qer, sessions) next =
    let more : There out_ifindex (suc n) m = (far, qer, (sessions, next)) in
    let same : suc n ≡ n + 1 = omega arith in subst (λ k. There out_ifindex k m) same more

-- The entries of session number j.
abbrev pub OfSession : ℕ → String → Bytes → Type 0
OfSession j n k =
    ((n ≡ "teid_session") × (0x1000 + j < 2 ^ 32) × (k ≡ le_bytes 4 (0x1000 + j)))
    ⊎ (((n ≡ "pdr_table") ⊎ (n ≡ "tc_bundle_map"))
        × (0x2000 + j < 2 ^ 32)
        × (k ≡ le_bytes 4 (0x2000 + j)))

pub different : (n m : String) → str_eq n m ≡ false → n ≢ m
different n m h e = cc (h, (eq_iff n m).1 e)

pub FarThere-write_qer :
    (out_ifindex : ℕ) (x : Bytes) (m m' : Maps)
    → Wrote "qer_table" (le_bytes 4 1) x m m'
    → FarThere out_ifindex m
    → FarThere out_ifindex m'
unfolding map_lookup
FarThere-write_qer out_ifindex x m m' e far =
    ap (λ (c : Bytes → Option Bytes). Option.map far_val (c (le_bytes 4 1)))
      (e.others "far_table" (different _ _ refl))
    ∙ far

le_bytes-apart : (a b : ℕ) → a < b → b < 2 ^ 32 → le_bytes 4 a ≢ le_bytes 4 b
le_bytes-apart a b less small e =
    let same : a ≡ b =
      sym (le_value-le_bytes 4 a (omega arith))
      ∙ ap le_value e
      ∙ le_value-le_bytes 4 b (omega arith) in
    omega arith

module _ (i j : ℕ) (less : i < j) where
  other_session : ¬ OfSession j "teid_session" (le_bytes 4 (0x1000 + i))
  other_session (inl (e, small, same)) =
      le_bytes-apart (0x1000 + i) (0x1000 + j) (omega arith) small same
  other_session (inr (inl e, small, same)) = pdr-ne-teid (sym e)
  other_session (inr (inr e, small, same)) = bundle-ne-teid (sym e)

  other_pdr : (n : String) → n ≢ "teid_session" → ¬ OfSession j n (le_bytes 4 (0x2000 + i))
  other_pdr n ne (inl (e, small, same)) = ne e
  other_pdr n ne (inr (which, small, same)) =
      le_bytes-apart (0x2000 + i) (0x2000 + j) (omega arith) small same

module _ (j : ℕ) (m m' : Maps) (frame : Frame (OfSession j) m m') where
  -- An entry that is not one of the session's.
  spared : (n : String) (k : Bytes) → ¬ OfSession j n k → Kept (is_lru n) (m n k) (m' n k)
  spared n k other = elim (frame n k) [ inl own ↦ absurd (other own) | inr kept ↦ kept ]

  spared_table :
      (n : String)
      → n ≢ "teid_session"
      → n ≢ "pdr_table"
      → n ≢ "tc_bundle_map"
      → (k : Bytes) → Kept (is_lru n) (m n k) (m' n k)
  spared_table n t p b k = spared n k (λ own. elim own [
    | inl (e, small, same) ↦ t e
    | inr (inl e, small, same) ↦ p e
    | inr (inr e, small, same) ↦ b e
  ])

  SessionThere-later : (i : ℕ) → i < j → SessionThere i m → SessionThere i m'
  unfolding map_lookup bundle_of
  SessionThere-later i less (pdr, bundle, session) = (
    ap (Option.map pdr_val) (
          spared "pdr_table" (le_bytes 4 (0x2000 + i)) (other_pdr i j less "pdr_table" pdr-ne-teid))
        ∙ pdr,
    ap (Option.map current_slot) (
          spared "tc_bundle_map" (le_bytes 4 (0x2000 + i))
            (other_pdr i j less "tc_bundle_map" bundle-ne-teid))
        ∙ bundle,
    elim (spared "teid_session" (le_bytes 4 (0x1000 + i)) (other_session i j less)) [
      | inr gone ↦ inr gone
      | inl same ↦ elim session [
        | inl there ↦ inl (ap (Option.map session_val) same ∙ there)
        | inr gone ↦ inr (same ∙ gone)
      ]
    ],
  )

  SessionsThere-later : (n : ℕ) → n ≤ j → SessionsThere n m → SessionsThere n m'
  SessionsThere-later zero h there = tt
  SessionsThere-later (suc n) h (there, last) =
      (SessionsThere-later n (omega arith) there, SessionThere-later n (omega arith) last)

  pub There-later : (out_ifindex : ℕ) → There out_ifindex j m → There out_ifindex j m'
  unfolding map_lookup
  There-later out_ifindex (far, qer, sessions) = (
    ap (Option.map far_val) (
          spared_table "far_table" (different _ _ refl) (different _ _ refl) (different _ _ refl)
            (le_bytes 4 1))
        ∙ far,
    ap (Option.map qer_val) (
          spared_table "qer_table" (different _ _ refl) (different _ _ refl) (different _ _ refl)
            (le_bytes 4 1))
        ∙ qer,
    SessionsThere-later j (omega arith) sessions,
  )
