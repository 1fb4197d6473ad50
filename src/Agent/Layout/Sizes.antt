-- ===== src/Agent/Layout/Sizes.antt =====
-- The types of what the agent encodes, against the sizes that bpf/upf_maps.h declares.
use ebpf_upf.Prelude.{ℕ, ◌≡◌, refl, List, [], ◌∷◌, ◌++◌, length, length-append, All, arith}
use ebpf_upf.Python.{Result, ok, err, struct_error, ◌>>=◌}
use ebpf_upf.Python.Struct.{Bytes, IsByte, Format, little, size, pack}
use ebpf_upf.Python.Struct.RoundTrip.{length-pack, pack-IsByte, pack_fails, All-append}
use ebpf_upf.Maps.{key_size, value_size}
use ebpf_upf.Agent.Encoders.{
  u32_format, quad_format, qer_format, slot_format, pair_format, enc_u32, enc_session, enc_pdr,
  enc_far, enc_qer, enc_bundle_slot, enc_bundle,
}

-- So many bytes, or `struct.error`.
abbrev pub Sized : ℕ → Result Bytes → Type 0
Sized n (ok b) = (length b ≡ n) × All IsByte b
Sized n (err e) = e ≡ struct_error

Sized-of :
    (ws : Format) (xs : List ℕ) (r : Result Bytes) → pack little ws xs ≡ r → Sized (size ws) r
Sized-of ws xs (ok b) h = (length-pack little ws xs h, pack-IsByte little ws xs h)
Sized-of ws xs (err e) h = (pack_fails little ws xs h).0

pack-Sized : (ws : Format) (xs : List ℕ) → Sized (size ws) (pack little ws xs)
pack-Sized ws xs = Sized-of ws xs (pack little ws xs) refl

bundle_from :
    (a s t : Result Bytes)
    → Sized 8 a
    → Sized 24 s
    → Sized 24 t
    → Sized 56 (do slot0 ← s; slot1 ← t; head ← a; ok ((head ++ slot0) ++ slot1))
bundle_from a (err e) t ha hs ht = hs
bundle_from a (ok s) (err e) ha hs ht = ht
bundle_from (err e) (ok s) (ok t) ha hs ht = ha
bundle_from (ok a) (ok s) (ok t) (na, ba) (ns, bs) (nt, bt) = (
  omega (arith, length-append (a ++ s) t, length-append a s, na, ns, nt),
  All-append (a ++ s) t (All-append a s ba bs) bt,
)

-- Whatever the arguments: each encoder raises `struct.error`, or returns bytes of exactly the size of
-- the key or the value type that the map declares; so does the encoder of a bundle whose slots are
-- encoded first.
pub encoders-Sized :
    (a b c d e f g h i j active : ℕ)
    → Sized key_size (enc_u32 a)
      × Sized (value_size "teid_session") (enc_session a b c)
      × Sized (value_size "pdr_table") (enc_pdr a b c d)
      × Sized (value_size "far_table") (enc_far a b c d)
      × Sized (value_size "qer_table") (enc_qer a b c)
      × Sized (value_size "tc_bundle_map") (do
        slot0 ← enc_bundle_slot a b c d e
        slot1 ← enc_bundle_slot f g h i j
        enc_bundle active slot0 slot1)
unfolding enc_u32 enc_session enc_pdr enc_far enc_qer enc_bundle_slot enc_bundle
encoders-Sized a b c d e f g h i j active = (
  pack-Sized u32_format (a ∷ []),
  pack-Sized quad_format (a ∷ b ∷ c ∷ 0 ∷ []),
  pack-Sized quad_format (a ∷ b ∷ c ∷ d ∷ []),
  pack-Sized quad_format (a ∷ b ∷ c ∷ d ∷ []),
  pack-Sized qer_format (a ∷ b ∷ c ∷ 0 ∷ []),
  bundle_from (pack little pair_format (active ∷ 0 ∷ []))
      (pack little slot_format (a ∷ b ∷ c ∷ d ∷ e ∷ 0 ∷ []))
      (pack little slot_format (f ∷ g ∷ h ∷ i ∷ j ∷ 0 ∷ []))
      (pack-Sized pair_format (active ∷ 0 ∷ []))
      (pack-Sized slot_format (a ∷ b ∷ c ∷ d ∷ e ∷ 0 ∷ []))
      (pack-Sized slot_format (f ∷ g ∷ h ∷ i ∷ j ∷ 0 ∷ [])),
)
