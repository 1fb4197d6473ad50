-- ===== src/Agent/Sessions/Removal.antt =====
-- `remove_session`: the order of its deletions, that it asks for all three of them, and what a packet
-- can find meanwhile.
pub mod Entries
use ebpf_upf.Prelude.{
  ℕ, ◌<◌, ◌^◌, ◌≡◌, ◌≢◌, refl, sym, ap, ◌∙◌, String, none, some, Option, Option-cases, ◌⊎◌, inl,
  inr, ◌∷◌, [], All,
}
use ebpf_upf.Python.{Exception, struct_error}
use ebpf_upf.Python.Struct.{Bytes, le_bytes}
use ebpf_upf.Python.Struct.RoundTrip.{length-le_bytes}
use ebpf_upf.Maps.{Maps, PinnedMaps, Erased}
use ebpf_upf.Maps.Logic.{Reaches, Triple-delete, Reaches-weaken}
use ebpf_upf.Maps.Worlds.{Reaches-note, Reaches-bind, Reaches-bind-lift}
use ebpf_upf.Agent.Encoders.{enc_u32}
use ebpf_upf.Agent.Layout.{enc_u32-key, enc_u32_fails}
use ebpf_upf.Agent.Sessions.{remove_session}
use ebpf_upf.Agent.Tables.{map_delete}
use ebpf_upf.Agent.Sessions.Presence.{Resolved, pdr-ne-teid, bundle-ne-teid, pdr-ne-bundle}
use ebpf_upf.Agent.Sessions.Removal.Entries.{
  Less, GoneSafely, OnlyUser, Less-Erased, Resolved-erase_teid, Removable, GoneSafely-Erased,
}

-- The kernel refuses to delete an entry: it is still there after the call.
abbrev pub Refuses : (M : PinnedMaps) → String → Bytes → M.World → Type 0
Refuses M n k w = (v : Bytes) × (M.content (map_delete M n k w).1 n k ≡ some v)

-- An entry is gone, or was kept for the given reason.
abbrev pub GoneUnless : Type 0 → String → Bytes → Maps → Type 0
GoneUnless Kept n k m = (m n k ≡ none) ⊎ Kept

gone_or_refused :
    (M : PinnedMaps) (n : String) (k : Bytes) (w : M.World)
    → GoneUnless (Refuses M n k w) n k (M.content (map_delete M n k w).1)
gone_or_refused M n k w = Option-cases (M.content (map_delete M n k w).1 n k)

GoneUnless-Erased :
    (Kept : Type 0) (n n' : String) (j k : Bytes) (m m' : Maps)
    → n' ≢ n
    → Erased n k m m'
    → GoneUnless Kept n' j m
    → GoneUnless Kept n' j m'
GoneUnless-Erased Kept n n' j k m m' ne e (inl gone) =
    inl (ap (λ (c : Bytes → Option Bytes). c j) (e.others n' ne) ∙ gone)
GoneUnless-Erased Kept n n' j k m m' ne e (inr kept) = inr kept

module _ (M : PinnedMaps) (teid pdr_id : ℕ) (w : M.World) where
  -- The worlds after the first and the second deletion.
  abbrev pub after_session : M.World
  after_session = (map_delete M "teid_session" (le_bytes 4 teid) w).1

  abbrev pub after_pdr : M.World
  after_pdr = (map_delete M "pdr_table" (le_bytes 4 pdr_id) after_session).1

  abbrev pub SessionRefused : Type 0
  SessionRefused = Refuses M "teid_session" (le_bytes 4 teid) w

  abbrev pub PdrRefused : Type 0
  PdrRefused = Refuses M "pdr_table" (le_bytes 4 pdr_id) after_session

  abbrev pub BundleRefused : Type 0
  BundleRefused = Refuses M "tc_bundle_map" (le_bytes 4 pdr_id) after_pdr

  -- What holds at every moment.
  abbrev pub InOrder : Maps → Type 0
  InOrder m = Less teid pdr_id (M.content w) m × GoneSafely teid m × (Resolved m ⊎ SessionRefused)

  -- What holds after a normal end.
  abbrev pub Removed : Maps → Type 0
  Removed m =
      InOrder m
      × GoneUnless SessionRefused "teid_session" (le_bytes 4 teid) m
      × GoneUnless PdrRefused "pdr_table" (le_bytes 4 pdr_id) m
      × GoneUnless BundleRefused "tc_bundle_map" (le_bytes 4 pdr_id) m

  abbrev pub Unencoded : Exception → Maps → Type 0
  Unencoded e m = (e ≡ struct_error) × ¬ ((teid < 2 ^ 32) × (pdr_id < 2 ^ 32)) × InOrder m

  -- Once the session is deleted, or refused.
  abbrev NoSession : Maps → Type 0
  NoSession m =
      Less teid pdr_id (M.content w) m
      × GoneSafely teid m
      × GoneUnless SessionRefused "teid_session" (le_bytes 4 teid) m

  NoSession-InOrder : (m : Maps) → NoSession m → InOrder m
  NoSession-InOrder m (less, safe, inl gone) = (less, safe, inl (safe gone))
  NoSession-InOrder m (less, safe, inr kept) = (less, safe, inr kept)

  module _ (r : Resolved (M.content w)) (alone : OnlyUser teid pdr_id (M.content w)) where
    -- The session is the first to be deleted.
    session-Erased :
        M.IsOpen w
        → All InOrder (M.passed w)
        → Reaches M InOrder
            (λ _. NoSession)
            Unencoded
            (map_delete M "teid_session" (le_bytes 4 teid) w)
    session-Erased o s =
        Reaches-weaken M (λ m j. j) (λ _ m ((less, all), gone). (less, (λ _. all), gone))
          (λ e m h. h)
          (Reaches-note M (gone_or_refused M "teid_session" (le_bytes 4 teid) w) (
            (Triple-delete M {P = Unremoved} {Q = Unremoved} "teid_session" (le_bytes 4 teid)
                (length-le_bytes 4 teid) Unremoved-InOrder Unremoved-InOrder (λ m q. q)
                (λ m m' (less, all) e. (
                  Less-Erased teid pdr_id "teid_session" (le_bytes 4 teid) (M.content w) m m'
                      (inl (refl, refl)) less e,
                  Resolved-erase_teid (le_bytes 4 teid) m m' e all,
                ))).run
              w o s ((λ n j. inl refl), r)))
      where
        Unremoved : Maps → Type 0
        Unremoved m = Less teid pdr_id (M.content w) m × Resolved m

        Unremoved-InOrder : (m : Maps) → Unremoved m → InOrder m
        Unremoved-InOrder m (less, all) = (less, (λ _. all), inl all)

    -- A later deletion, in any world where the session is no longer in the way.
    pdr-Erased :
        (Before : Maps → Type 0) (n : String) (x : M.World)
        → n ≢ "teid_session"
        → Removable teid pdr_id n (le_bytes 4 pdr_id)
        → ((m m' : Maps) → Erased n (le_bytes 4 pdr_id) m m' → Before m → Before m')
        → M.IsOpen x
        → All InOrder (M.passed x)
        → NoSession (M.content x)
        → Before (M.content x)
        → Reaches M InOrder
            (λ _ m.
              (NoSession m × Before m)
              × GoneUnless (Refuses M n (le_bytes 4 pdr_id) x) n (le_bytes 4 pdr_id) m)
            Unencoded
            (map_delete M n (le_bytes 4 pdr_id) x)
    pdr-Erased Before n x ne which stays o s q b =
        Reaches-note M (gone_or_refused M n (le_bytes 4 pdr_id) x) (
          (Triple-delete M {P = Here} {Q = Here} n (le_bytes 4 pdr_id) (length-le_bytes 4 pdr_id)
              (λ m h. NoSession-InOrder m h.0) (λ m h. NoSession-InOrder m h.0) (λ m h. h)
              (λ m m' ((less, safe, gone), before) e. (
                (
                  Less-Erased teid pdr_id n (le_bytes 4 pdr_id) (M.content w) m m' which less e,
                  GoneSafely-Erased teid pdr_id (M.content w) alone n m m' ne less safe e,
                  GoneUnless-Erased SessionRefused n "teid_session" (le_bytes 4 teid)
                      (le_bytes 4 pdr_id) m m' (λ h. ne (sym h)) e gone,
                ),
                stays m m' e before,
              ))).run
            x o s (q, b))
      where
        Here : Maps → Type 0
        Here m = NoSession m × Before m

    bundle_last :
        M.IsOpen after_pdr
        → All InOrder (M.passed after_pdr)
        → NoSession (M.content after_pdr)
        → GoneUnless PdrRefused "pdr_table" (le_bytes 4 pdr_id) (M.content after_pdr)
        → Reaches M InOrder
            (λ _. Removed)
            Unencoded
            (map_delete M "tc_bundle_map" (le_bytes 4 pdr_id) after_pdr)
    bundle_last o s q p =
        Reaches-weaken M (λ m j. j)
          (λ _ m ((here, pdr), bundle). (NoSession-InOrder m here, here.2, pdr, bundle))
          (λ e m h. h)
          (pdr-Erased (GoneUnless PdrRefused "pdr_table" (le_bytes 4 pdr_id)) "tc_bundle_map"
            after_pdr bundle-ne-teid (inr (inr (refl, refl)))
            (λ m m' e.
              GoneUnless-Erased PdrRefused "tc_bundle_map" "pdr_table" (le_bytes 4 pdr_id)
                (le_bytes 4 pdr_id) m m' pdr-ne-bundle e)
            o s q p)

    pub remove_ordered :
        M.IsOpen w
        → All InOrder (M.passed w)
        → Reaches M InOrder (λ _. Removed) Unencoded (remove_session M teid pdr_id w)
    unfolding remove_session
    remove_ordered o s =
        Reaches-bind-lift M (enc_u32 teid) _ w o s
          (λ key hk. rw (enc_u32-key teid hk).0 (
            Reaches-bind M (map_delete M "teid_session" (le_bytes 4 teid)) _ w (session-Erased o s)
              (λ _ o1 s1 q1.
                Reaches-bind-lift M (enc_u32 pdr_id) _ after_session o1 s1
                  (λ key' hk'. rw (enc_u32-key pdr_id hk').0 (
                    Reaches-bind M (map_delete M "pdr_table" (le_bytes 4 pdr_id)) _ after_session
                      (pdr-Erased (λ _. Unit) "pdr_table" after_session pdr-ne-teid
                        (inr (inl (refl, refl))) (λ m m' e u. tt) o1 s1 q1 tt)
                      (λ _ o2 s2 ((q2, u), p2).
                        Reaches-bind-lift M (enc_u32 pdr_id) _ after_pdr o2 s2
                          (λ key'' hk''. rw (enc_u32-key pdr_id hk'').0 (bundle_last o2 s2 q2 p2))
                          (λ e fails. cc (fails, hk')))))
                  (λ e fails.
                    let (struct, bad) = enc_u32_fails pdr_id fails in
                    (struct, (λ f. bad f.1), NoSession-InOrder _ q1)))))
          (λ e fails.
            let (struct, bad) = enc_u32_fails teid fails in
            (struct, (λ f. bad f.0), ((λ n j. inl refl), (λ _. r), inl r)))

-- In any world where every session that a packet could find leads to a PDR and a bundle, and no
-- session but `teid` uses `pdr_id`: at every moment of `remove_session` each entry of every map is
-- as before or is one of the session, its PDR and its bundle and gone; once the session is gone,
-- every session that is left leads to a PDR and a bundle; and unless the kernel refuses to delete
-- the session, every session leads to a PDR and a bundle at every moment. At a normal end each of
-- the three entries is gone, unless the kernel refused to delete it in its turn: the session first,
-- then the PDR, then the bundle. An exception can only be `struct.error` for an identifier that does
-- not fit 32 bits. The record of passed contents starts with the call.
pub remove_session_safe :
    (M : PinnedMaps) (teid pdr_id : ℕ) (w : M.World)
    → M.IsOpen w
    → M.passed w ≡ M.content w ∷ []
    → Resolved (M.content w)
    → OnlyUser teid pdr_id (M.content w)
    → Reaches M
        (InOrder M teid pdr_id w)
        (λ _. Removed M teid pdr_id w)
        (Unencoded M teid pdr_id w)
        (remove_session M teid pdr_id w)
remove_session_safe M teid pdr_id w o fresh r alone =
    remove_ordered M teid pdr_id w r alone o (rw fresh (((λ n j. inl refl), (λ _. r), inl r), tt))
