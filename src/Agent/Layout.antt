-- ===== src/Agent/Layout.antt =====
-- What the agent encodes is what the datapath reads: the value types of bpf/upf_maps.h, field by
-- field, with their sizes.
pub mod Bundle
pub mod Sizes
use mathlib.Core.List.{append-nil}
use native.Mathlib.Nat.{add_assoc}
use ebpf_upf.Prelude.{
  ℕ, ◌+◌, ◌^◌, ◌<◌, zero, suc, ◌≡◌, refl, [], ◌∷◌, length, drop, drop-drop, lt→ltb, arith,
}
use ebpf_upf.Python.{Exception, struct_error, ok, err, ◌>>=◌}
use ebpf_upf.Python.Struct.{Bytes, little, le_bytes, pack, split, to_bytes, from_bytes}
use ebpf_upf.Python.Struct.RoundTrip.{pack_fails, pack_inv, split-pack, length-pack}
use ebpf_upf.Maps.{value_size}
use ebpf_upf.Datapath.Tables.{u32, u64, session_val, pdr_val, far_val, qer_val}
use ebpf_upf.Agent.Encoders.{
  u32_format, quad_format, qer_format, slot_format, pair_format, enc_session, enc_pdr, enc_far,
  enc_qer, enc_u32,
}

split_quad : (b : Bytes) → split little quad_format b ≡ u32 b 0 ∷ u32 b 4 ∷ u32 b 8 ∷ u32 b 12 ∷ []
unfolding split u32 from_bytes
split_quad b = simp drop-drop

split_qer : (b : Bytes) → split little qer_format b ≡ u64 b 0 ∷ u64 b 8 ∷ u32 b 16 ∷ u32 b 20 ∷ []
unfolding split u32 u64 from_bytes
split_qer b = simp drop-drop

pub split_slot :
    (b : Bytes) (off : ℕ)
    → split little slot_format (drop off b)
      ≡ u32 b off
        ∷ u32 b (off + 4)
        ∷ u32 b (off + 8)
        ∷ u32 b (off + 12)
        ∷ u32 b (off + 16)
        ∷ u32 b (off + 20)
        ∷ []
unfolding split u32 from_bytes
split_slot b off = simp (drop-drop, add_assoc)

pub split_pair : (b : Bytes) → split little pair_format b ≡ u32 b 0 ∷ u32 b 4 ∷ []
unfolding split u32 from_bytes
split_pair b = refl

pub enc_u32-key : (v : ℕ) {k : Bytes} → enc_u32 v ≡ ok k → (k ≡ le_bytes 4 v) × (v < 2 ^ 32)
unfolding enc_u32 to_bytes
enc_u32-key v h =
    let (tl, small, e, whole) = pack_inv little 4 [] v [] h in (unfold pack in cc (e, whole), small)

pub enc_u32_ok : (v : ℕ) → v < 2 ^ 32 → enc_u32 v ≡ ok (le_bytes 4 v)
unfolding enc_u32 to_bytes pack
enc_u32_ok v h = rw (lt→ltb v (256 ^ 4) h)

pub enc_u32_fails :
    (v : ℕ) {e : Exception} → enc_u32 v ≡ err e → (e ≡ struct_error) × ¬ (v < 2 ^ 32)
enc_u32_fails v h = (
  unfold enc_u32 in (pack_fails little u32_format (v ∷ []) h).0,
  λ small. cc (h, enc_u32_ok v small),
)

-- What `enc_session` accepts has the size of `struct session_val` and reads back as its fields.
pub session_val-enc_session :
    (pdr_id qer_id far_id : ℕ) {b : Bytes}
    → enc_session pdr_id qer_id far_id ≡ ok b
    → (length b ≡ value_size "teid_session")
      × (session_val b ≡ record { pdr_id = pdr_id; qer_id = qer_id; far_id = far_id })
unfolding enc_session session_val
session_val-enc_session pdr_id qer_id far_id {b} h =
    (length-pack little quad_format _ h, ground (arith, split_quad b, whole))
  where
    whole : split little quad_format b ≡ pdr_id ∷ qer_id ∷ far_id ∷ 0 ∷ []
    whole = rw append-nil at (split-pack little quad_format _ [] h)

pub pdr_val-enc_pdr :
    (far_id qer_id precedence urr_id : ℕ) {b : Bytes}
    → enc_pdr far_id qer_id precedence urr_id ≡ ok b
    → (length b ≡ value_size "pdr_table")
      × (pdr_val b
          ≡ record { far_id = far_id; qer_id = qer_id; precedence = precedence; urr_id = urr_id })
unfolding enc_pdr pdr_val
pdr_val-enc_pdr far_id qer_id precedence urr_id {b} h =
    (length-pack little quad_format _ h, ground (arith, split_quad b, whole))
  where
    whole : split little quad_format b ≡ far_id ∷ qer_id ∷ precedence ∷ urr_id ∷ []
    whole = rw append-nil at (split-pack little quad_format _ [] h)

pub far_val-enc_far :
    (action out_ifindex peer_ipv4_be out_teid_be : ℕ) {b : Bytes}
    → enc_far action out_ifindex peer_ipv4_be out_teid_be ≡ ok b
    → (length b ≡ value_size "far_table")
      × (far_val b ≡ record {
        action = action;
        out_ifindex = out_ifindex;
        peer_ipv4_be = peer_ipv4_be;
        out_teid_be = out_teid_be;
      })
unfolding enc_far far_val
far_val-enc_far action out_ifindex peer_ipv4_be out_teid_be {b} h =
    (length-pack little quad_format _ h, ground (arith, split_quad b, whole))
  where
    whole : split little quad_format b ≡ action ∷ out_ifindex ∷ peer_ipv4_be ∷ out_teid_be ∷ []
    whole = rw append-nil at (split-pack little quad_format _ [] h)

pub qer_val-enc_qer :
    (mbr_ul_bps mbr_dl_bps burst_bytes : ℕ) {b : Bytes}
    → enc_qer mbr_ul_bps mbr_dl_bps burst_bytes ≡ ok b
    → (length b ≡ value_size "qer_table")
      × (qer_val b
          ≡ record { mbr_ul_bps = mbr_ul_bps; mbr_dl_bps = mbr_dl_bps; burst_bytes = burst_bytes })
unfolding enc_qer qer_val
qer_val-enc_qer mbr_ul_bps mbr_dl_bps burst_bytes {b} h =
    (length-pack little qer_format _ h, ground (arith, split_qer b, whole))
  where
    whole : split little qer_format b ≡ mbr_ul_bps ∷ mbr_dl_bps ∷ burst_bytes ∷ 0 ∷ []
    whole = rw append-nil at (split-pack little qer_format _ [] h)
