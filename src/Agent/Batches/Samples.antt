-- ===== src/Agent/Batches/Samples.antt =====
-- What `measure_rule_update` measures, and how it ends.
use ebpf_upf.Prelude.{
  ℕ, zero, suc, ◌+◌, ◌-◌, ◌*◌, ◌≤◌, ◌<◌, ◌^◌, ℤ, ◌≡◌, refl, ap, ◌∙◌, String, ◌⊎◌, inl, inr, List,
  [], ◌∷◌, length, All, arith,
}
use ebpf_upf.Python.{Exception, Result, ok, err, os_error, struct_error}
use ebpf_upf.Python.Exec.{Exec, pure, lift, resume, ◌>>=◌, ◌>>◌}
use ebpf_upf.Python.Struct.{Bytes}
use ebpf_upf.Python.Struct.RoundTrip.{length-le_bytes}
use ebpf_upf.Maps.{Maps, PinnedMaps, key_size}
use ebpf_upf.Maps.Logic.{
  Ends, Triple, Triple-pure, Triple-bind, Triple-bind-lift, Triple-delete, Triple-conclude,
}
use ebpf_upf.Agent.Encoders.{enc_u32}
use ebpf_upf.Agent.Layout.{enc_u32-key, enc_u32_ok}
use ebpf_upf.Agent.Tables.{map_delete}
use ebpf_upf.Agent.Sessions.{remove_session}
use ebpf_upf.Agent.Sessions.Presence.{Resolved}
use ebpf_upf.Agent.Sessions.Order.{Fitting, Stopped, install_shows}
use ebpf_upf.Agent.Batches.{install_default, install_timed, remove_sessions, measure_rule_update}

-- The readings around each installation, from number `i` on.
abbrev pub between : (ℕ → ℕ) → ℕ → ℕ → List ℕ
between clock zero i = []
between clock (suc n) i = (clock (2 + 2 * i) - clock (1 + 2 * i)) ∷ between clock n (i + 1)

abbrev Anything : Maps → Type 0
Anything m = Unit

abbrev Never : Exception → Maps → Type 0
Never e m = ⊥

abbrev OsError : Exception → Maps → Type 0
OsError (os_error x) m = Unit
OsError _ m = ⊥

module _ (M : PinnedMaps) where
  delete_ends :
      (n : String) (v : ℕ) {key : Bytes}
      → enc_u32 v ≡ ok key
      → Triple M Anything Anything (map_delete M n key) (λ _. Anything) Never
  delete_ends n v {key} h =
      let e : length key ≡ key_size = ap length (enc_u32-key v h).0 ∙ length-le_bytes 4 v in
      Triple-delete M n key e (λ m p. tt) (λ m p. tt) (λ m p. tt) (λ m m' p e. tt)

  -- An encoding that fits, and what follows it.
  encoded :
      {P : Maps → Type 0} {f : Bytes → Exec M.World (Unit {0})} (v : ℕ)
      → v < 2 ^ 32
      → ((key : Bytes) → enc_u32 v ≡ ok key → Triple M Anything P (f key) (λ _. Anything) Never)
      → Triple M Anything P (lift (enc_u32 v) >>= f) (λ _. Anything) Never
  encoded v small go = Triple-bind-lift M (enc_u32 v) go (λ e fails. cc (fails, enc_u32_ok v small))

  remove_ends :
      (teid pdr_id : ℕ)
      → teid < 2 ^ 32
      → pdr_id < 2 ^ 32
      → Triple M Anything Anything (remove_session M teid pdr_id) (λ _. Anything) Never
  unfolding remove_session
  remove_ends teid pdr_id ht hp = encoded teid ht (λ key hk.
      Triple-bind M (delete_ends "teid_session" teid hk) (λ _. encoded pdr_id hp (λ key hk.
        Triple-bind M (delete_ends "pdr_table" pdr_id hk)
          (λ _. encoded pdr_id hp (λ key hk. delete_ends "tc_bundle_map" pdr_id hk)))))

  module _ (clock : ℕ → ℕ) where
    removals_end :
        (n i : ℕ)
        → 0x20000 + (i + n) ≤ 2 ^ 32
        → Triple M Anything Anything (remove_sessions M clock n i) (λ _. Anything) Never
    unfolding remove_sessions
    removals_end zero i h = Triple-pure M tt (λ m p. tt)
    removals_end (suc n) i h =
        Triple-bind M (remove_ends (0x10000 + i) (0x20000 + i) (omega arith) (omega arith))
          (λ _. removals_end n (i + 1) (omega arith))

    install_ends :
        (i : ℕ)
        → 0x20000 + i < 2 ^ 32
        → Triple M Resolved Resolved
            (install_default M (0x10000 + i) (0x20000 + i))
            (λ _. Resolved)
            OsError
    unfolding install_default
    install_ends i h =
        Triple-conclude M (λ u m q. q.0) stopped
          (install_shows M (0x10000 + i) (0x20000 + i) 1 1 100 1)
      where
        fit : Fitting M (0x10000 + i) (0x20000 + i) 1 1 100 1
        fit = (omega arith, omega arith, omega arith, omega arith, omega arith, omega arith)

        stopped :
            (e : Exception) (m : Maps)
            → Stopped M (0x10000 + i) (0x20000 + i) 1 1 100 1 e m
            → OsError e m
        stopped (os_error x) m (r, why) = tt
        stopped struct_error m (r, why) = absurd (why fit)
        stopped e m (r, why) = absurd why

    timed_ends :
        (n i : ℕ)
        → 0x20000 + (i + n) ≤ 2 ^ 32
        → Triple M Resolved Resolved
            (install_timed M clock n i)
            (λ samples _. samples ≡ between clock n i)
            OsError
    unfolding install_timed
    timed_ends zero i h = Triple-pure M [] (λ m p. refl)
    timed_ends (suc n) i h = Triple-bind M (install_ends i (omega arith)) (λ _.
        Triple-bind M (timed_ends n (i + 1) (omega arith)) (λ samples.
          Triple-pure M _ (λ m e. ap (λ l. (clock (2 + 2 * i) - clock (1 + 2 * i)) ∷ l) e)))

    only_ok : (r : Result (Unit {0})) (c : Maps) → Ends (λ _. Anything) Never r c → r ≡ ok tt
    only_ok (ok u) c h = refl
    only_ok (err e) c h = absurd h

    All-Anything : (l : List Maps) → All Anything l
    All-Anything [] = tt
    All-Anything (m ∷ l) = (tt, All-Anything l)

    -- What is returned after the installations, and how the call may end.
    abbrev report : ℕ → List ℕ → Exec M.World (ℕ × List ℕ)
    report n samples = remove_sessions M clock n 0 >> pure (clock (1 + 2 * n) - clock 0, samples)

    abbrev pub Measured : ℕ → Result (ℕ × List ℕ) → Type 0
    Measured n r =
        (r ≡ ok (clock (1 + 2 * n) - clock 0, between clock n 0))
        ⊎ ((x : ℤ) × (r ≡ err (os_error x)))

    report-Ends :
        (n : ℕ)
        → 0x20000 + n ≤ 2 ^ 32
        → (r : Result (List ℕ)) (w : M.World) → M.IsOpen w
        → Ends (λ samples _. samples ≡ between clock n 0) OsError r (M.content w)
        → Measured n (resume r (report n) w).0
    report-Ends n h (ok samples) w o e =
        let k = (removals_end n 0 (omega arith)).run w o (All-Anything (M.passed w)) tt in
        let removed = only_ok (remove_sessions M clock n 0 w).0 _ k.ends in
        inl (rw (removed, e) refl)
    report-Ends n h (err (os_error x)) w o e = inr (x, refl)
    report-Ends n h (err e') w o e = absurd e

-- From any world where every session that a packet could find leads to a PDR and a bundle, whatever
-- the kernel refuses, and for as many rules as have identifiers of 32 bits: `measure_rule_update`
-- ends normally or raises an `OSError`. A normal end returns the time from its first reading of the
-- clock to the one after the last installation, and one sample for each rule, each the time between
-- the readings around that installation; removal is not measured.
pub measure_ends :
    (M : PinnedMaps) (clock : ℕ → ℕ) (n : ℕ) (w : M.World)
    → M.IsOpen w
    → All Resolved (M.passed w)
    → Resolved (M.content w)
    → 0x20000 + n ≤ 2 ^ 32
    → Measured M clock n (measure_rule_update M clock n w).0
unfolding measure_rule_update
measure_ends M clock n w o s r h =
    let k = (timed_ends M clock n 0 (omega arith)).run w o s r in
    report-Ends M clock n h (install_timed M clock n 0 w).0 (install_timed M clock n 0 w).1 k.opened
      k.ends
