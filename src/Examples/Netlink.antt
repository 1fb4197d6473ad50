-- ===== src/Examples/Netlink.antt =====
-- The netlink client at concrete inputs, over a socket that plays back replies.
use ebpf_upf.Prelude.{ℕ, pos, ◌≡◌, ◌≢◌, refl, true, List, [], ◌∷◌, ◌++◌, none, some, arith}
use ebpf_upf.Python.{Result, ok, err, os_error}
use ebpf_upf.Python.Exec.{pure}
use ebpf_upf.Python.Struct.{
  Bytes, little, big, pack, to_bytes, le_bytes, unpack_from, split, from_bytes, le_value,
}
use ebpf_upf.Netlink.Attributes.{nla, join}
use ebpf_upf.Netlink.Attributes.Reading.{Attribute, Encoded, attributes, attributes-join}
use ebpf_upf.Netlink.Replies.{
  message_header, reply_type, field, r_len_from, errno_val, attr_header, refuse_nonzero,
  family_found,
}
use ebpf_upf.Netlink.Socket.{
  Socket, GenlSocket, connected, send_recv, resolve_family, cmd, walk, note_family, attribute_at,
}
use ebpf_upf.Netlink.Socket.Walk.{last_family, walk_enough}
use ebpf_upf.Netlink.Socket.Outcomes.{resolve_family_finds, cmd_accepts}
use ebpf_upf.Netlink.Messages.{
  far_attrs, forwarding, pdr_attrs, pdi_attrs, f_teid_attrs, pdi_nested,
}
use ebpf_upf.Netlink.Messages.Far.{Forwarding, far_attrs_read}
use ebpf_upf.Netlink.Messages.Pdr.{given, Pdi, FTeid, pdr_attrs_read}

-- The replies that are still to come.
abbrev play : ℕ → List Bytes → Result Bytes × List Bytes
play n [] = (err (os_error (pos 11)), [])
play n (r ∷ rs) = (ok r, rs)

abbrev playback : Socket
playback = record { State = List Bytes; send = λ msg rs. (ok tt, rs); recv = play; close = pure tt }

abbrev returned : Result Bytes → Bytes
returned (ok b) = b
returned (err e) = []

-- "gtp5g" with its NUL, and the family 21.
abbrev family_attributes : List Attribute
family_attributes = (2, 103 ∷ 116 ∷ 112 ∷ 53 ∷ 103 ∷ 0 ∷ []) ∷ (1, 21 ∷ 0 ∷ []) ∷ []

abbrev family_pieces : List Bytes
family_pieces =
    (10 ∷ 0 ∷ 2 ∷ 0 ∷ 103 ∷ 116 ∷ 112 ∷ 53 ∷ 103 ∷ 0 ∷ 0 ∷ 0 ∷ [])
    ∷ (6 ∷ 0 ∷ 1 ∷ 0 ∷ 21 ∷ 0 ∷ 0 ∷ 0 ∷ [])
    ∷ []

family-Encoded : Encoded family_attributes family_pieces
unfolding nla pack to_bytes le_bytes
family-Encoded = (refl, (refl, tt))

attributes-join_example : attributes (join family_pieces) ≡ some family_attributes
attributes-join_example = attributes-join family_attributes family_pieces family-Encoded

abbrev front : Bytes
front = 40 ∷ 0 ∷ 0 ∷ 0 ∷ 16 ∷ 0 ∷ 0 ∷ 0 ∷ 1 ∷ 0 ∷ 0 ∷ 0 ∷ 0 ∷ 0 ∷ 0 ∷ 0 ∷ 1 ∷ 2 ∷ 0 ∷ 0 ∷ []

abbrev reply : Bytes
reply = front ++ join family_pieces

walk_enough_example : walk 20 reply 40 20 none ≡ walk 40 reply 40 20 none
walk_enough_example = walk_enough 20 40 reply 40 20 (omega arith) (omega arith) none

test_walk : walk 2 reply 40 20 none ≡ (ok tt, some 21)
unfolding walk attribute_at attr_header note_family field unpack_from from_bytes
test_walk = refl

abbrev name : Bytes
name = 103 ∷ 116 ∷ 112 ∷ 53 ∷ 103 ∷ []

abbrev unresolved : GenlSocket (List Bytes)
unresolved = connected (reply ∷ [])

reply_no_error : reply_type reply ≡ ok 16
unfolding reply_type unpack_from split from_bytes le_value
reply_no_error = refl

reply_length : r_len_from reply ≡ ok 40
unfolding field unpack_from split from_bytes le_value
reply_length = refl

resolve_family_finds_example :
    ((resolve_family playback name unresolved).0
      ≡ family_found (last_family family_attributes none))
    × ((resolve_family playback name unresolved).1.family_id ≡ last_family family_attributes none)
resolve_family_finds_example =
    resolve_family_finds playback name unresolved front family_attributes family_pieces 16
      family-Encoded (λ h. absurd (omega arith), (λ h. omega arith, tt)) refl reply_no_error
      (omega arith) reply_length (record { sends = λ msg. refl; answers = λ msg. refl })
      (omega arith) (omega arith)

-- An acknowledgement: NLMSG_ERROR with errno 0.
abbrev acknowledgement : Bytes
acknowledgement =
    20 ∷ 0 ∷ 0 ∷ 0 ∷ 2 ∷ 0 ∷ 0 ∷ 0 ∷ 1 ∷ 0 ∷ 0 ∷ 0 ∷ 0 ∷ 0 ∷ 0 ∷ 0 ∷ 0 ∷ 0 ∷ 0 ∷ 0 ∷ []

abbrev resolved : GenlSocket (List Bytes)
resolved = record { seq = 1; family_id = some 21; nl = acknowledgement ∷ [] }

acknowledged : (cmd playback 2 (1 ∷ []) true resolved).0 ≡ ok acknowledgement
unfolding cmd send_recv message_header pack reply_type refuse_nonzero errno_val field unpack_from
    split from_bytes le_value to_bytes
acknowledged = refl

cmd_accepts_example :
    (r_type : ℕ) × (reply_type acknowledgement ≡ ok r_type)
    × (r_type ≡ 2 → errno_val acknowledgement ≡ ok (pos 0))
    × (resolved.family_id ≢ none)
cmd_accepts_example = cmd_accepts playback 2 (1 ∷ []) true resolved acknowledged

abbrev far_bytes : Bytes
far_bytes = returned (far_attrs 5 2 2 (some 0x1000) (some 0x0A000002) 2152)

far_accepted : far_attrs 5 2 2 (some 0x1000) (some 0x0A000002) 2152 ≡ ok far_bytes
unfolding far_attrs nla pack to_bytes le_bytes forwarding
far_accepted = refl

far_attrs_read_example :
    (xs : List Attribute) × (attributes far_bytes
      ≡ some ((1, to_bytes little 4 5) ∷ (3, to_bytes little 4 2) ∷ (4, to_bytes little 2 2) ∷ xs))
    × Forwarding 2 (some 0x1000) (some 0x0A000002) 2152 xs
far_attrs_read_example = far_attrs_read 5 2 2 (some 0x1000) (some 0x0A000002) 2152 far_accepted

abbrev pdr_bytes : Bytes
pdr_bytes = returned (pdr_attrs 5 1 100 1 (some 0x0A000002) (some 0x1000) none none (some 0))

pdr_accepted : pdr_attrs 5 1 100 1 (some 0x0A000002) (some 0x1000) none none (some 0) ≡ ok pdr_bytes
unfolding pdr_attrs nla pack to_bytes le_bytes pdi_attrs f_teid_attrs pdi_nested
pdr_accepted = refl

pdr_attrs_read_example :
    (pdi f_teid : List Attribute) × (attributes pdr_bytes
      ≡ some (
          (((1, to_bytes little 4 5)
              ∷ (3, to_bytes little 2 1)
              ∷ (4, to_bytes little 4 100)
              ∷ given little 1 6 (some 0))
            ++ pdi)
          ++ ((7, to_bytes little 4 1) ∷ [])))
    × Pdi ((given big 4 1 (some 0x0A000002) ++ f_teid) ++ given little 1 4 none) pdi
    × FTeid (some 0x1000) none f_teid
pdr_attrs_read_example =
    pdr_attrs_read 5 1 100 1 (some 0x0A000002) (some 0x1000) none none (some 0) pdr_accepted
