-- ===== src/Agent/Server/Spares.antt =====
-- Whatever is asked of the server, it leaves alone the entries that are not of a measured batch.
use ebpf_upf.Prelude.{
  ℕ, suc, ℤ, ◌+◌, ◌<◌, ◌^◌, ◌≡◌, ◌≢◌, refl, sym, ap, ◌∙◌, ◌⊎◌, inl, inr, String, str_eq, eq_iff,
  List, [], ◌∷◌, Option, Bool, true, false, if◌then◌else◌, codes, length, arith,
}
use ebpf_upf.Python.{Result, ok, err}
use ebpf_upf.Python.Exec.{Exec, lift}
use ebpf_upf.Python.Struct.{Bytes, le_bytes, le_value}
use ebpf_upf.Maps.{Maps, PinnedMaps, Kept}
use ebpf_upf.Python.Struct.RoundTrip.{le_value-le_bytes}
use ebpf_upf.Maps.Logic.{
  Ends, Reaches, Triple, Triple-bind, Triple-pure, Triple-lift, Reaches-weaken,
}
use ebpf_upf.Agent.Frame.{Frame, Frame-refl, Keeps, ReadsOnly}
use ebpf_upf.Agent.Frame.Batch.{Batch, Spares, measure_rule_update-Spares}
use ebpf_upf.Agent.Batches.{bootstrap_initial}
use ebpf_upf.Agent.Metrics.{DumpEntry}
use ebpf_upf.Agent.Http.{do_get, get_metrics, get_ruleupdate}
use ebpf_upf.Agent.Http.Answers.{
  Report, same_text, starts_with, first_n, rounds, answer_metrics, answer_report,
}
use ebpf_upf.Agent.Server.{Args, report_error, serve, main}

Keeps-if :
    (M : PinnedMaps) (J : Maps → Type 0) {A : Type 0} (b : Bool) (m k : Exec M.World A)
    → Keeps M J m
    → Keeps M J k
    → Keeps M J (if b then m else k)
Keeps-if M J true m k hm hk = hm
Keeps-if M J false m k hm hk = hk

module _ (M : PinnedMaps) (clock : ℕ → ℕ) (dump : Exec M.World (List DumpEntry))
    (query : Bytes → Option (List Bytes)) (int_of : Bytes → Result ℤ) (dumps : Report → Bytes)
    (reads : ReadsOnly M dump) (m0 : Maps) where
  answered : {A : Type 0} (r : Result A) → Spares M m0 (lift r)
  answered r = Triple-lift M r (λ a m h f. f) (λ e m h f. f)

  get_ruleupdate-Spares :
      (path : Bytes) → Spares M m0 (get_ruleupdate M clock dump query int_of dumps path)
  unfolding get_ruleupdate
  get_ruleupdate-Spares path = Triple-bind M (answered (first_n (query path))) (λ text.
      Triple-bind M (answered (int_of text)) (λ n.
        Triple-bind M (measure_rule_update-Spares M m0 clock (rounds n))
          (λ measured. answered (answer_report dumps n measured))))

  get_metrics-Spares : Spares M m0 (get_metrics M clock dump query int_of dumps)
  unfolding get_metrics
  get_metrics-Spares = Triple-bind M (reads (Frame Batch m0)) (λ raw. answered (answer_metrics raw))

  do_get-Spares : (path : Bytes) → Spares M m0 (do_get M clock dump query int_of dumps path)
  unfolding do_get
  do_get-Spares path =
      let J : Maps → Type 0 = Frame Batch m0 in
      Keeps-if M J (same_text path (codes "/metrics")) _ _ get_metrics-Spares (
        Keeps-if M J (starts_with (codes "/ruleupdate") path) _ _ (get_ruleupdate-Spares path) (
          Keeps-if M J (same_text path (codes "/healthz")) _ _ (Triple-pure M _ (λ m f. f))
            (Triple-pure M _ (λ m f. f))))

  after_report :
      {A : Type 0} (J : Maps → Type 0) (r : Result A) (c : Maps) → Ends (λ a. J) (λ e. J) r c → J c
  after_report J (ok a) c h = h
  after_report J (err e) c h = h

  reported :
      {A : Type 0} {J : Maps → Type 0} {m : Exec M.World A}
      → Keeps M J m
      → Triple M J J (report_error m) (λ r. J) (λ e c. ⊥)
  reported {J} {m} t = record {
    run = λ w o s p.
        let k = t.run w o s p in
        record {
          opened = k.opened;
          seen = k.seen;
          ends = after_report J (m w).0 (M.content (m w).1) k.ends;
        };
  }

  serve_keeps :
      (paths : List Bytes)
      → Triple M
          (Frame Batch m0)
          (Frame Batch m0)
          (serve M clock dump query int_of dumps paths)
          (λ answers m. (length answers ≡ length paths) × Frame Batch m0 m)
          (λ e c. ⊥)
  unfolding serve
  serve_keeps [] = Triple-pure M [] (λ m f. (refl, f))
  serve_keeps (path ∷ paths) = Triple-bind M (reported (do_get-Spares path)) (λ answer.
      Triple-bind M (serve_keeps paths)
        (λ answers. Triple-pure M (answer ∷ answers) (λ m h. (ap suc h.0, h.1))))

-- The entries of a session are as before, but that its TEID may be evicted; and all FARs and QERs.
pub record Untouched (teid pdr_id : ℕ) (m0 m : Maps) : Type 0 where
  pub session : Kept true (m0 "teid_session" (le_bytes 4 teid)) (m "teid_session" (le_bytes 4 teid))
  pub pdr : m "pdr_table" (le_bytes 4 pdr_id) ≡ m0 "pdr_table" (le_bytes 4 pdr_id)
  pub bundle : m "tc_bundle_map" (le_bytes 4 pdr_id) ≡ m0 "tc_bundle_map" (le_bytes 4 pdr_id)
  pub fars : (key : Bytes) → m "far_table" key ≡ m0 "far_table" key
  pub qers : (key : Bytes) → m "qer_table" key ≡ m0 "qer_table" key

le_bytes_inj : (a b : ℕ) → a < 2 ^ 32 → b < 2 ^ 32 → le_bytes 4 a ≡ le_bytes 4 b → a ≡ b
le_bytes_inj a b ha hb h = sym (le_value-le_bytes 4 a ha) ∙ ap le_value h ∙ le_value-le_bytes 4 b hb

differs : (n m : String) → str_eq n m ≡ false → n ≢ m
differs n m h e = cc (h, (eq_iff n m).1 e)

not_in_batch : {A : Type 0} {F : Type 0} → ¬ A → A ⊎ F → F
not_in_batch no_batch (inl a) = absurd (no_batch a)
not_in_batch no_batch (inr f) = f

Frame-Untouched :
    (teid pdr_id : ℕ) (m0 m : Maps)
    → teid < 0x10000
    → pdr_id < 0x20000
    → Frame Batch m0 m
    → Untouched teid pdr_id m0 m
Frame-Untouched teid pdr_id m0 m ht hp frame = record {
  session =
      not_in_batch
        (λ b. elim b [
          | inl (name, (i, small, same)) ↦
              omega (arith, le_bytes_inj teid (0x10000 + i) (omega arith) small same)
          | inr (inl name, rest) ↦ differs _ _ refl name
          | inr (inr name, rest) ↦ differs _ _ refl name
        ])
        (frame "teid_session" (le_bytes 4 teid));
  pdr = not_in_batch (low_pdr "pdr_table" refl) (frame "pdr_table" (le_bytes 4 pdr_id));
  bundle = not_in_batch (low_pdr "tc_bundle_map" refl) (frame "tc_bundle_map" (le_bytes 4 pdr_id));
  fars = λ key. not_in_batch (other "far_table" key refl refl refl) (frame "far_table" key);
  qers = λ key. not_in_batch (other "qer_table" key refl refl refl) (frame "qer_table" key);
}
  where
    low_pdr : (n : String) → str_eq n "teid_session" ≡ false → ¬ Batch n (le_bytes 4 pdr_id)
    low_pdr n h (inl (name, rest)) = differs _ _ h name
    low_pdr n h (inr (which, (i, small, same))) =
        omega (arith, le_bytes_inj pdr_id (0x20000 + i) (omega arith) small same)

    other :
        (n : String) (key : Bytes)
        → str_eq n "teid_session" ≡ false
        → str_eq n "pdr_table" ≡ false
        → str_eq n "tc_bundle_map" ≡ false
        → ¬ Batch n key
    other n key t p b (inl (name, rest)) = differs _ _ t name
    other n key t p b (inr (inl name, rest)) = differs _ _ p name
    other n key t p b (inr (inr name, rest)) = differs _ _ b name

-- An exception of `main` is one of the start-up: once it has ended, every request gets its result.
main_serves :
    (M : PinnedMaps) (clock : ℕ → ℕ) (dump : Exec M.World (List DumpEntry))
    (query : Bytes → Option (List Bytes)) (int_of : Bytes → Result ℤ) (dumps : Report → Bytes)
    (args : Args) (paths : List Bytes) (w : M.World)
    → (bootstrap_initial M args.initial args.out_ifindex w).0 ≡ ok tt
    → main M clock dump query int_of dumps args paths w
      ≡ serve M clock dump query int_of dumps paths
          (bootstrap_initial M args.initial args.out_ifindex w).1
unfolding main
main_serves M clock dump query int_of dumps args paths w started = rw started refl

-- For every session with a TEID below 0x10000 and a PDR below 0x20000, as those of the start-up are,
-- a dump of the counters that writes no map, and whatever requests come, in whatever order and with
-- whatever numbers of rules, and whatever the kernel refuses or evicts: serving them raises no
-- exception and gives one result for each, and at every moment the PDR, the bundle, and all FARs and
-- QERs are as before, and the session too, unless it is evicted. The record of passed contents starts
-- with the serving.
pub serve_spares :
    (M : PinnedMaps) (clock : ℕ → ℕ) (dump : Exec M.World (List DumpEntry))
    (query : Bytes → Option (List Bytes)) (int_of : Bytes → Result ℤ) (dumps : Report → Bytes)
    (paths : List Bytes) (teid pdr_id : ℕ) (w : M.World)
    → ReadsOnly M dump
    → teid < 0x10000
    → pdr_id < 0x20000
    → M.IsOpen w
    → M.passed w ≡ M.content w ∷ []
    → Reaches M
        (Untouched teid pdr_id (M.content w))
        (λ answers m. (length answers ≡ length paths) × Untouched teid pdr_id (M.content w) m)
        (λ e m. ⊥)
        (serve M clock dump query int_of dumps paths w)
serve_spares M clock dump query int_of dumps paths teid pdr_id w reads ht hp o fresh =
    let m0 : Maps = M.content w in
    let start : Frame Batch m0 m0 = Frame-refl Batch m0 in
    let view = λ (m : Maps) (f : Frame Batch m0 m). Frame-Untouched teid pdr_id m0 m ht hp f in
    Reaches-weaken M view (λ a m h. (h.0, view m h.1)) (λ e m h. h)
      ((serve_keeps M clock dump query int_of dumps reads m0 paths).run w o (rw fresh (start, tt))
        start)
