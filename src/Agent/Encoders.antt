-- ===== src/Agent/Encoders.antt =====
-- The domain encoders of loader/agent.py. An identifier or counter is a natural number; `struct`
-- refuses what does not fit its field.
use ebpf_upf.Prelude.{ℕ, [], ◌∷◌, ◌++◌}
use ebpf_upf.Python.{Result, ok, ◌>>=◌}
use ebpf_upf.Python.Struct.{Bytes, Format, little, pack}

abbrev pub u32_format : Format
u32_format = 4 ∷ []

abbrev pub quad_format : Format
quad_format = 4 ∷ 4 ∷ 4 ∷ 4 ∷ []

abbrev pub qer_format : Format
qer_format = 8 ∷ 8 ∷ 4 ∷ 4 ∷ []

abbrev pub slot_format : Format
slot_format = 4 ∷ 4 ∷ 4 ∷ 4 ∷ 4 ∷ 4 ∷ []

abbrev pub pair_format : Format
pair_format = 4 ∷ 4 ∷ []

unfoldable pub enc_session : ℕ → ℕ → ℕ → Result Bytes
enc_session pdr_id qer_id far_id = pack little quad_format (pdr_id ∷ qer_id ∷ far_id ∷ 0 ∷ [])

unfoldable pub enc_pdr : ℕ → ℕ → ℕ → ℕ → Result Bytes
enc_pdr far_id qer_id precedence urr_id =
    pack little quad_format (far_id ∷ qer_id ∷ precedence ∷ urr_id ∷ [])

unfoldable pub enc_far : ℕ → ℕ → ℕ → ℕ → Result Bytes
enc_far action out_ifindex peer_ipv4_be out_teid_be =
    pack little quad_format (action ∷ out_ifindex ∷ peer_ipv4_be ∷ out_teid_be ∷ [])

unfoldable pub enc_qer : ℕ → ℕ → ℕ → Result Bytes
enc_qer mbr_ul_bps mbr_dl_bps burst_bytes =
    pack little qer_format (mbr_ul_bps ∷ mbr_dl_bps ∷ burst_bytes ∷ 0 ∷ [])

unfoldable pub enc_u32 : ℕ → Result Bytes
enc_u32 v = pack little u32_format (v ∷ [])

unfoldable pub enc_bundle_slot : ℕ → ℕ → ℕ → ℕ → ℕ → Result Bytes
enc_bundle_slot far_id qer_id urr_id precedence generation =
    pack little slot_format (far_id ∷ qer_id ∷ urr_id ∷ precedence ∷ generation ∷ 0 ∷ [])

unfoldable pub enc_bundle : ℕ → Bytes → Bytes → Result Bytes
enc_bundle active slot0_bytes slot1_bytes = do
  head ← pack little pair_format (active ∷ 0 ∷ [])
  ok ((head ++ slot0_bytes) ++ slot1_bytes)
