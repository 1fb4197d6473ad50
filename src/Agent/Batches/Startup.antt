-- ===== src/Agent/Batches/Startup.antt =====
-- `bootstrap_initial` keeps every session resolved, and leaves what the packets need.
pub mod Entries
use mathlib.Core.Option
use ebpf_upf.Prelude.{
  ℕ, zero, suc, ◌+◌, ◌≤◌, ◌<◌, ◌^◌, ◌≡◌, ◌≢◌, refl, sym, ap, ◌∙◌, subst, String, Option, List, [],
  ◌∷◌, some, inl, inr, length, All, arith,
}
use ebpf_upf.Python.{Exception, ok, os_error, struct_error}
use ebpf_upf.Python.Exec.{lift, ◌>>=◌}
use ebpf_upf.Python.Struct.{Bytes, Format, little, size, pack, le_bytes}
use ebpf_upf.Python.Struct.RoundTrip.{
  InRange, pack_fails, pack-IsByte, length-pack, length-le_bytes,
}
use ebpf_upf.Maps.{Maps, PinnedMaps, Wrote, value_size}
use ebpf_upf.Maps.Worlds.{Triple-also}
use ebpf_upf.Maps.Logic.{
  Reaches, Triple, Triple-pure, Triple-bind, Triple-bind-lift, Triple-update, Triple-conclude,
  Triple-weaken, Reaches-weaken,
}
use ebpf_upf.Datapath.Tables.{session_val, far_val, qer_val, map_lookup}
use ebpf_upf.Agent.Encoders.{quad_format, qer_format, enc_u32, enc_far, enc_qer}
use ebpf_upf.Agent.Layout.{enc_u32-key, enc_u32_ok, far_val-enc_far, qer_val-enc_qer}
use ebpf_upf.Agent.Frame.{Frame-refl}
use ebpf_upf.Agent.Frame.Install.{install_session-Frame}
use ebpf_upf.Agent.Batches.Startup.Entries.{
  FarThere, FarThere-write_qer, There, OfSession, different, There-later, There-next,
}
use ebpf_upf.Agent.Tables.{install_far, install_qer}
use ebpf_upf.Agent.Sessions.{install_session}
use ebpf_upf.Agent.Sessions.Presence.{Resolved}
use ebpf_upf.Agent.Sessions.Order.{Fitting, Stopped, install_shows}
use ebpf_upf.Agent.Batches.{install_default, install_sessions, bootstrap_initial}

-- The sessions' tables read as before.
Resolved-same :
    (m m' : Maps)
    → m' "teid_session" ≡ m "teid_session"
    → m' "pdr_table" ≡ m "pdr_table"
    → m' "tc_bundle_map" ≡ m "tc_bundle_map"
    → Resolved m
    → Resolved m'
unfolding map_lookup
Resolved-same m m' t p b r = record {
  at = λ j v h.
      let there = r.at j v (sym (ap (λ (c : Bytes → Option Bytes). c j) t) ∙ h) in
      let k = le_bytes 4 (session_val v).pdr_id in
      record {
        pdr = (there.pdr.0, ap (λ (c : Bytes → Option Bytes). c k) p ∙ there.pdr.1);
        bundle = (there.bundle.0, ap (λ (c : Bytes → Option Bytes). c k) b ∙ there.bundle.1);
      };
}

-- An exception of the start-up: a system call's error, or a number that does not fit.
abbrev pub Halted : Type 0 → Exception → Maps → Type 0
Halted Fits (os_error x) m = Resolved m
Halted Fits struct_error m = Resolved m × ¬ Fits
Halted Fits _ m = ⊥

module _ (M : PinnedMaps) (Fits : Type 0) where
  halted : (e : Exception) (m : Maps) → e ≡ struct_error → ¬ Fits → Resolved m → Halted Fits e m
  halted e m h misfit r = subst (λ x. Halted Fits x m) (sym h) (r, misfit)

  -- A write to a table of no session, as the datapath reads it.
  module _ {V : Type 0} (n : String) (view : Bytes → V) (v : V) (ws : Format) (xs : List ℕ)
      (P : Maps → Type 0)
      (reads : (b : Bytes) → pack little ws xs ≡ ok b → (length b ≡ value_size n) × (view b ≡ v))
      (t : ◌≢◌ {A = String} "teid_session" n) (p : ◌≢◌ {A = String} "pdr_table" n)
      (b : ◌≢◌ {A = String} "tc_bundle_map" n) (range : Fits → InRange ws xs)
      (stays : (x : Bytes) (m m' : Maps) → Wrote n (le_bytes 4 1) x m m' → P m → P m') where
    enter_other :
        Triple M Resolved
          (λ m. Resolved m × P m)
          (do key ← lift (enc_u32 1); val ← lift (pack little ws xs); M.update n key val)
          (λ _ m. Resolved m × P m × (Option.map view (map_lookup m n 1) ≡ some v))
          (Halted Fits)
    unfolding map_lookup
    enter_other =
        Triple-bind-lift M (enc_u32 1)
          (λ key hk.
            Triple-bind-lift M (pack little ws xs)
              (λ x hx. rw (enc_u32-key 1 hk).0 (
                Triple-update M n (le_bytes 4 1) x
                  (length-le_bytes 4 1, (reads x hx).0, pack-IsByte little ws xs hx) (λ m q. q.0)
                  (λ m q. q.0) (λ e m q. q.0)
                  (λ m m' (r, before) w. (
                    Resolved-same m m' (w.others "teid_session" t) (w.others "pdr_table" p)
                        (w.others "tc_bundle_map" b) r,
                    stays x m m' w before,
                    ap (Option.map view) w.here ∙ ap some (reads x hx).1,
                  ))))
              (λ e fails m (r, before).
                let (struct, bad) = pack_fails little ws xs fails in
                halted e m struct (λ f. bad (range f)) r))
          (λ e fails. cc (fails, enc_u32_ok 1 (omega arith)))

  -- One session, while all that was entered before it stays.
  session_joins :
      (out_ifindex i : ℕ)
      → Triple M
          (λ _. Unit {0})
          (There out_ifindex i)
          (install_session M (0x1000 + i) (0x2000 + i) 1 1 100 1)
          (λ _. There out_ifindex i)
          (λ e _. Unit {0})
  session_joins out_ifindex i = record {
    run = λ w o s there.
        let m0 = M.content w in
        Reaches-weaken M (λ m u. u) (λ _ m f. There-later i m0 m f out_ifindex there) (λ e m u. u)
          ((install_session-Frame M (OfSession i) m0 (λ m f. tt) (λ e m f. tt) (0x1000 + i)
              (0x2000 + i) 1 1 100 1 (λ small. inl (refl, small, refl))
              (λ small. inr (inl refl, small, refl)) (λ small. inr (inr refl, small, refl))).run
            w o s (Frame-refl (OfSession i) m0));
  }

  -- The loop over the sessions, up to `total` of them.
  sessions-There :
      (out_ifindex total n i : ℕ)
      → i + n ≡ total
      → (Fits → 0x2000 + total ≤ 2 ^ 32)
      → Triple M Resolved
          (λ m. Resolved m × There out_ifindex i m)
          (install_sessions M n i)
          (λ _ m. Resolved m × There out_ifindex total m)
          (Halted Fits)
  unfolding install_sessions install_default
  sessions-There out_ifindex total zero i e h =
      Triple-pure M tt
        (λ m (r, there). (r, subst (λ k. There out_ifindex k m) (omega (arith, e)) there))
  sessions-There out_ifindex total (suc n) i e h =
      Triple-bind M
        (Triple-conclude M
          (λ _ m (q, there). (q.0, There-next out_ifindex i m there (q.1, q.2, inl q.3))) stopped
          (Triple-also M _ (install_shows M (0x1000 + i) (0x2000 + i) 1 1 100 1)
            (session_joins out_ifindex i)))
        (λ _. sessions-There out_ifindex total n (i + 1) (omega (arith, e)) h)
    where
      fit : Fits → Fitting M (0x1000 + i) (0x2000 + i) 1 1 100 1
      fit f = (
        omega (arith, h f),
        omega (arith, h f),
        omega arith,
        omega arith,
        omega arith,
        omega arith,
      )

      stopped :
          (e : Exception) (m : Maps)
          → Stopped M (0x1000 + i) (0x2000 + i) 1 1 100 1 e m
          → Halted Fits e m
      stopped (os_error x) m (r, why) = r
      stopped struct_error m (r, why) = (r, λ f. why (fit f))
      stopped e m (r, why) = absurd why

-- From any world where every session that a packet could find led to a PDR and a bundle, and
-- whatever the kernel refuses or evicts: this stays so at every moment of `bootstrap_initial` and
-- at its end, normal or not. After a normal end the datapath reads FAR 1, which forwards to the
-- interface, QER 1, which has no limit, and for each i below n the PDR 0x2000 + i, its bundle, and
-- the session 0x1000 + i that leads to it, unless that session is evicted. An exception is an
-- `OSError` of a system call or `struct.error`, and the latter only if the interface does not fit 32
-- bits or some identifier 0x2000 + i does not.
pub bootstrap_initial_serves :
    (M : PinnedMaps) (n out_ifindex : ℕ) (w : M.World)
    → M.IsOpen w
    → All Resolved (M.passed w)
    → Resolved (M.content w)
    → Reaches M Resolved
        (λ _ m. Resolved m × There out_ifindex n m)
        (Halted ((out_ifindex < 2 ^ 32) × (0x2000 + n ≤ 2 ^ 32)))
        (bootstrap_initial M n out_ifindex w)
unfolding bootstrap_initial install_far install_qer enc_far enc_qer
bootstrap_initial_serves M n out_ifindex w o s r =
    (Triple-bind M
        (enter_other M Fits "far_table" far_val _ quad_format (1 ∷ out_ifindex ∷ 0 ∷ 0 ∷ [])
          (λ _. Unit {0}) (λ b. far_val-enc_far 1 out_ifindex 0 0 {b = b}) (different _ _ refl)
          (different _ _ refl) (different _ _ refl)
          (λ f. (omega arith, (f.0, (omega arith, (omega arith, tt))))) (λ x m m' e u. u))
        (λ _.
          Triple-bind M
            (Triple-weaken M (λ m (r', u, far). (r', far))
              (enter_other M Fits "qer_table" qer_val _ qer_format (0 ∷ 0 ∷ 0 ∷ 0 ∷ [])
                (FarThere out_ifindex) (λ b. qer_val-enc_qer 0 0 0 {b = b}) (different _ _ refl)
                (different _ _ refl) (different _ _ refl)
                (λ f. (omega arith, (omega arith, (omega arith, (omega arith, tt)))))
                (FarThere-write_qer out_ifindex)))
            (λ _.
              Triple-weaken M (λ m (r', far, qer). (r', (far, qer, tt)))
                (sessions-There M Fits out_ifindex n n 0 (omega arith) (λ f. f.1))))).run
      w o s (r, tt)
  where
    Fits : Type 0
    Fits = (out_ifindex < 2 ^ 32) × (0x2000 + n ≤ 2 ^ 32)
