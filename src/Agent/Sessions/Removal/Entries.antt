-- ===== src/Agent/Sessions/Removal/Entries.antt =====
-- What a deletion of `remove_session` leaves: the entries that it may take away, and the sessions
-- that still lead to a PDR and a bundle.
use ebpf_upf.Prelude.{
  ℕ, ◌≡◌, ◌≢◌, sym, ap, ◌∙◌, String, none, some, str_eq, eq_iff, Bool-cases, Option, ◌⊎◌, inl, inr,
}
use ebpf_upf.Python.Struct.{Bytes, le_bytes}
use ebpf_upf.Maps.{Maps, Erased}
use ebpf_upf.Datapath.Tables.{session_val, map_lookup}
use ebpf_upf.Agent.Sessions.Presence.{Resolved, pdr-ne-teid, bundle-ne-teid, Bytes-discrete}

-- The entries that a removal is about.
abbrev pub Removable : ℕ → ℕ → String → Bytes → Type 0
Removable teid pdr_id n j =
    ((n ≡ "teid_session") × (j ≡ le_bytes 4 teid))
    ⊎ ((n ≡ "pdr_table") × (j ≡ le_bytes 4 pdr_id))
    ⊎ ((n ≡ "tc_bundle_map") × (j ≡ le_bytes 4 pdr_id))

-- Every entry is as before, or is one of the three and gone.
abbrev pub Less : ℕ → ℕ → Maps → Maps → Type 0
Less teid pdr_id m0 m =
    (n : String) (j : Bytes) → (m n j ≡ m0 n j) ⊎ (m n j ≡ none) × Removable teid pdr_id n j

-- Which sessions use a PDR.
abbrev pub Uses : ℕ → Bytes → Maps → Type 0
Uses pdr_id j m =
    (v : Bytes) × (m "teid_session" j ≡ some v)
    × (le_bytes 4 (session_val v).pdr_id ≡ le_bytes 4 pdr_id)

pub String-cases : (n m : String) → (n ≡ m) ⊎ (n ≢ m)
String-cases n m = elim (Bool-cases (str_eq n m)) [
  | inl same ↦ inl ((eq_iff n m).0 same)
  | inr other ↦ inr (λ e. cc (other, (eq_iff n m).1 e))
]

module _ (teid pdr_id : ℕ) (n : String) (k : Bytes) (m0 m m' : Maps) (r : Removable teid pdr_id n k)
    (less : Less teid pdr_id m0 m) (e : Erased n k m m') where
  -- An entry that this deletion did not touch.
  untouched :
      (n' : String) (j : Bytes)
      → m' n' j ≡ m n' j
      → (m' n' j ≡ m0 n' j) ⊎ (m' n' j ≡ none) × Removable teid pdr_id n' j
  untouched n' j same = elim (less n' j) [
    | inl before ↦ inl (same ∙ before)
    | inr (gone, which) ↦ inr (same ∙ gone, which)
  ]

  pub Less-Erased : Less teid pdr_id m0 m'
  Less-Erased n' j = elim (String-cases n' n) [
    | inr other ↦ untouched n' j (ap (λ (c : Bytes → Option Bytes). c j) (e.others n' other))
    | inl this ↦ elim (Bytes-discrete j k) [
      | no ne ↦ untouched n' j (rw this (e.elsewhere j ne))
      | yes here ↦ inr (rw (this, here) e.here, rw (this, here) r)
    ]
  ]

-- After the session's own entry is gone, every session that is left leads to a PDR and a bundle.
abbrev pub GoneSafely : ℕ → Maps → Type 0
GoneSafely teid m = m "teid_session" (le_bytes 4 teid) ≡ none → Resolved m

-- No session but this one uses the PDR.
abbrev pub OnlyUser : ℕ → ℕ → Maps → Type 0
OnlyUser teid pdr_id m = (j : Bytes) → Uses pdr_id j m → j ≡ le_bytes 4 teid

-- A PDR that the removal does not touch.
pub there-Erased :
    (n n' : String) (k : Bytes) (m m' : Maps) (p : ℕ)
    → le_bytes 4 p ≢ k
    → Erased n k m m'
    → (b : Bytes) × (map_lookup m n' p ≡ some b)
    → (b : Bytes) × (map_lookup m' n' p ≡ some b)
unfolding map_lookup
there-Erased n n' k m m' p ne e (b, h) = elim (String-cases n' n) [
  | inl this ↦ (b, rw this (e.elsewhere (le_bytes 4 p) ne ∙ rw this at h))
  | inr other ↦ (b, ap (λ (c : Bytes → Option Bytes). c (le_bytes 4 p)) (e.others n' other) ∙ h)
]

pub Resolved-erase_teid :
    (k : Bytes) (m m' : Maps) → Erased "teid_session" k m m' → Resolved m → Resolved m'
unfolding map_lookup
Resolved-erase_teid k m m' e r = record {
  at = λ j v h. elim (Bytes-discrete j k) [
    | yes here ↦ cc (here, h, e.here)
    | no ne ↦
        let there = r.at j v (sym (e.elsewhere j ne) ∙ h) in
        let p = le_bytes 4 (session_val v).pdr_id in
        record {
          pdr = (
            there.pdr.0,
            ap (λ (c : Bytes → Option Bytes). c p) (e.others "pdr_table" pdr-ne-teid) ∙ there.pdr.1,
          );
          bundle = (
            there.bundle.0,
            ap (λ (c : Bytes → Option Bytes). c p) (e.others "tc_bundle_map" bundle-ne-teid)
                ∙ there.bundle.1,
          );
        }
  ];
}

module _ (teid pdr_id : ℕ) (m0 : Maps) (alone : OnlyUser teid pdr_id m0) where
  -- The deletion of a PDR or a bundle once the session is gone.
  pub GoneSafely-Erased :
      (n : String) (m m' : Maps)
      → n ≢ "teid_session"
      → Less teid pdr_id m0 m
      → GoneSafely teid m
      → Erased n (le_bytes 4 pdr_id) m m'
      → GoneSafely teid m'
  GoneSafely-Erased n m m' ne less safe e gone =
      let same = λ (j : Bytes).
        ap (λ (c : Bytes → Option Bytes). c j) (e.others "teid_session" (λ h. ne (sym h))) in
      let gone' = sym (same (le_bytes 4 teid)) ∙ gone in
      record {
        at = λ j v h.
            let held : m "teid_session" j ≡ some v = sym (same j) ∙ h in
            let p = (session_val v).pdr_id in
            let other : le_bytes 4 p ≢ le_bytes 4 pdr_id = λ uses. elim (less "teid_session" j) [
              | inl before ↦
                  let this = alone j (v, sym before ∙ held, uses) in cc (rw this at held, gone')
              | inr (none', which) ↦ cc (none', held)
            ] in
            let there = (safe gone').at j v held in
            record {
              pdr = there-Erased n "pdr_table" (le_bytes 4 pdr_id) m m' p other e there.pdr;
              bundle =
                  there-Erased n "tc_bundle_map" (le_bytes 4 pdr_id) m m' p other e there.bundle;
            };
      }
