-- ===== src/Agent/Modify/Atomic.antt =====
-- `modify_tc_bundle` is atomic for the datapath: it sees the tuple from before or the new one.
use ebpf_upf.Prelude.{
  ℕ, ◌+◌, ◌-◌, ◌*◌, ◌%◌, ◌<◌, ◌^◌, ◌≡◌, refl, subst, sym, [], ◌∷◌, Option, some, ◌⊎◌, inl, length,
  All, arith, ap, ◌∙◌,
}
use ebpf_upf.Python.{Exception, ok, err}
use ebpf_upf.Python.Exec.{◌>>=◌, ◌>>◌}
use ebpf_upf.Python.Struct.{Bytes, IsByte, little, le_bytes}
use ebpf_upf.Python.Struct.RoundTrip.{pack-ok, length-le_bytes}
use ebpf_upf.Maps.{Maps, PinnedMaps}
use ebpf_upf.Maps.Logic.{
  Reaches, Triple, Triple-bind, Triple-bind-lift, Triple-lookup, Triple-fact, Triple-pure,
  Triple-weaken,
}
use ebpf_upf.Datapath.Tables.{BundleSlot, u32, bundle_slot, current_slot}
use ebpf_upf.Agent.Encoders.{slot_format, enc_u32}
use ebpf_upf.Agent.Layout.{enc_u32-key}
use ebpf_upf.Agent.Layout.Bundle.{slot_fields}
use ebpf_upf.Agent.Slots.{read_active, read_slot, modified, enc_slot}
use ebpf_upf.Agent.Slots.Reading.{read_active_lem, read_slot_lem, enc_slot_lem, bundle_slot-InRange}
use ebpf_upf.Agent.Modify.{write_bundle, modify_tc_bundle}
use ebpf_upf.Agent.Modify.Writes.{
  bundle_map, Shows, Failed, bundle_of-key, first_write, second_write,
}
use ebpf_upf.Python.Exec.{Exec, lift, pure}
use ebpf_upf.Python.Struct.RoundTrip.{pack_fails}
use ebpf_upf.Agent.Layout.{enc_u32_fails}

module _ (M : PinnedMaps) (pdr_id : ℕ) (far_id qer_id urr_id precedence : Option ℕ) (m0 : Maps)
    (raw : Bytes) (held : m0 bundle_map (le_bytes 4 pdr_id) ≡ some raw) where
  abbrev old : BundleSlot
  old = current_slot raw

  abbrev new : BundleSlot
  new = modified (current_slot raw) far_id qer_id urr_id precedence

  abbrev EitherHere : Maps → Type 0
  EitherHere m = Shows pdr_id old m0 m ⊎ Shows pdr_id new m0 m

  Shows-start : (m : Maps) → m ≡ m0 → Shows pdr_id old m0 m
  Shows-start m e = rw e (record {
    bundle = bundle_of-key m0 pdr_id raw held;
    same = record { maps = λ n h. refl; keys = λ j h. refl };
  })

  read_cur :
      (a : ℕ) (cur : BundleSlot)
      → length raw ≡ 56
      → read_active raw ≡ ok a
      → read_slot raw a ≡ ok cur
      → (a < 2) × (cur ≡ old)
  unfolding current_slot bundle_slot
  read_cur a cur sized ha hc =
      let bit : a ≡ u32 raw 0 % 2 = cc (ha, read_active_lem raw sized) in
      let small : a < 2 = omega arith in
      let at_slot : cur ≡ bundle_slot raw (8 + a * 24) = cc (hc, read_slot_lem raw sized a small) in
      let off : 8 + a * 24 ≡ 8 + 24 * (u32 raw 0 % 2) = omega arith in
      (small, at_slot ∙ ap (bundle_slot raw) off)

  slot_refused :
      (e : Exception) (m : Maps)
      → enc_slot new ≡ err e
      → Shows pdr_id old m0 m
      → Failed pdr_id old new m0 e m
  slot_refused e m fails s =
      let (struct, misfit) =
        pack_fails little slot_format (slot_fields new) (rw enc_slot_lem at fails) in
      subst (λ x. Failed pdr_id old new m0 x m) (sym struct) (s, λ enc. misfit enc.1)

  id_refused :
      (e : Exception) (m : Maps) → enc_u32 pdr_id ≡ err e → m ≡ m0 → Failed pdr_id old new m0 e m
  id_refused e m fails same =
      let (struct, misfit) = enc_u32_fails pdr_id fails in
      subst (λ x. Failed pdr_id old new m0 x m) (sym struct)
        (Shows-start m same, λ enc. misfit enc.0)

  commit_block : ℕ → Exec M.World ℕ
  commit_block active = do
    old_bytes ← lift (enc_slot old)
    new_bytes ← lift (enc_slot new)
    write_bundle M pdr_id active active old_bytes new_bytes
    write_bundle M pdr_id (1 - active) active old_bytes new_bytes
    pure new.generation

  commit-Shows :
      (active : ℕ)
      → active < 2
      → pdr_id < 2 ^ 32
      → All IsByte raw
      → Triple M EitherHere
          (Shows pdr_id old m0)
          (commit_block active)
          (λ g m. (g ≡ new.generation) × Shows pdr_id new m0 m)
          (Failed pdr_id old new m0)
  unfolding commit_block current_slot
  commit-Shows active bit small bytes =
      Triple-bind-lift M (enc_slot old)
        (λ ob packed_old.
          Triple-bind-lift M (enc_slot new)
            (λ nb packed_new.
              Triple-bind M (first_write M pdr_id old new m0 small active bit packed_old packed_new)
                (λ _.
                  Triple-bind M
                    (second_write M pdr_id old new m0 small active bit packed_old packed_new)
                    (λ _. Triple-pure M new.generation (λ m s. (refl, s)))))
            (λ e fails m s. slot_refused e m fails s))
        (λ e fails m s. cc (
          fails,
          (pack-ok little slot_format (slot_fields old)
              (bundle_slot-InRange raw (8 + 24 * (u32 raw 0 % 2)) bytes)).1,
          enc_slot_lem old,
        ))

  -- What follows the lookup, for the bytes that it returned.
  read_block : Bytes → Exec M.World ℕ
  read_block found = do
    active ← lift (read_active found)
    cur ← lift (read_slot found active)
    let new' = modified cur far_id qer_id urr_id precedence
    old_bytes ← lift (enc_slot cur)
    new_bytes ← lift (enc_slot new')
    write_bundle M pdr_id active active old_bytes new_bytes
    write_bundle M pdr_id (1 - active) active old_bytes new_bytes
    pure new'.generation

  abbrev Done : ℕ → Maps → Type 0
  Done g m = (g ≡ new.generation) × Shows pdr_id new m0 m

  read-Shows :
      pdr_id < 2 ^ 32
      → length raw ≡ 56
      → All IsByte raw
      → Triple M EitherHere (Shows pdr_id old m0) (read_block raw) Done (Failed pdr_id old new m0)
  unfolding read_block commit_block
  read-Shows small sized bytes =
      Triple-bind-lift M (read_active raw)
        (λ active ha.
          Triple-bind-lift M (read_slot raw active)
            (λ cur hc.
              let (bit, e) = read_cur active cur sized ha hc in
              rw e (commit-Shows active bit small bytes))
            (λ x fails. cc (
              fails,
              ha,
              read_active_lem raw sized,
              read_slot_lem raw sized (u32 raw 0 % 2) (omega arith),
            )))
        (λ x fails. cc (fails, read_active_lem raw sized))

  modify_shows :
      Triple M EitherHere
        (λ m. m ≡ m0)
        (modify_tc_bundle M pdr_id far_id qer_id urr_id precedence)
        Done
        (Failed pdr_id old new m0)
  unfolding modify_tc_bundle read_block
  modify_shows =
      Triple-bind-lift M (enc_u32 pdr_id)
        (λ key hk.
          let (ek, small) = enc_u32-key pdr_id hk in
          Triple-bind M
            (Triple-lookup M bundle_map key (rw ek (length-le_bytes 4 pdr_id))
              (λ m e. inl (Shows-start m e)) (λ x m e. Shows-start m e))
            (λ found.
              Triple-fact M
                (λ m p.
                  let same : some found ≡ some raw =
                    rw ek at (sym p.1)
                    ∙ ap (λ (c : Maps). c bundle_map (le_bytes 4 pdr_id)) p.0
                    ∙ held in
                  let f : (found ≡ raw) × (length found ≡ 56) × All IsByte found = (cc, p.2, p.3) in
                  f)
                (λ f.
                  Triple-weaken M (λ m p. Shows-start m p.0)
                    (subst
                      (λ b.
                        Triple M EitherHere (Shows pdr_id old m0) (read_block b) Done
                          (Failed pdr_id old new m0))
                      (sym f.0) (read-Shows small (rw f.0 at f.1) (rw f.0 at f.2))))))
        (λ e fails m same. id_refused e m fails same)

-- In any world whose contents hold the bundle `raw` for `pdr_id`, and whatever the kernel refuses:
-- at every moment of the call the datapath reads either the whole tuple from before or the whole
-- new one, and no other entry of any map has changed. A normal end returns the generation from
-- before plus one, with the new tuple in force. An exception leaves the old tuple in force, is an
-- `OSError` of a system call or `struct.error`, and the latter only if the identifier or a field of
-- the new tuple does not fit 32 bits. The record of passed contents starts with the call.
pub modify_tc_bundle_atomic :
    (M : PinnedMaps) (pdr_id : ℕ) (far_id qer_id urr_id precedence : Option ℕ) (w : M.World)
    (raw : Bytes)
    → M.IsOpen w
    → M.passed w ≡ M.content w ∷ []
    → M.content w "tc_bundle_map" (le_bytes 4 pdr_id) ≡ some raw
    → Reaches M
        (λ m.
          Shows pdr_id (current_slot raw) (M.content w) m
          ⊎ Shows pdr_id
              (modified (current_slot raw) far_id qer_id urr_id precedence)
              (M.content w)
              m)
        (λ g m.
          (g ≡ (current_slot raw).generation + 1)
          × Shows pdr_id
              (modified (current_slot raw) far_id qer_id urr_id precedence)
              (M.content w)
              m)
        (Failed pdr_id
          (current_slot raw)
          (modified (current_slot raw) far_id qer_id urr_id precedence)
          (M.content w))
        (modify_tc_bundle M pdr_id far_id qer_id urr_id precedence w)
unfolding current_slot modified
modify_tc_bundle_atomic M pdr_id far_id qer_id urr_id precedence w raw o fresh held =
    let start = inl (
      Shows-start M pdr_id far_id qer_id urr_id precedence (M.content w) raw held (M.content w)
        refl) in
    (modify_shows M pdr_id far_id qer_id urr_id precedence (M.content w) raw held).run w o
      (rw fresh (start, tt)) refl
