-- ===== src/Netlink/Replies.antt =====
-- The datagrams of results_native/gtp5g_baseline/gtp5g_genl.py: the header of a request, and the
-- fields that the client reads from a reply.
use ebpf_upf.Prelude.{
  ℕ, zero, ◌+◌, ℤ, pos, negate, int32, Bool, true, false, List, [], ◌∷◌, Option, none, some, ◌==◌,
  if◌then◌else◌,
}
use ebpf_upf.Python.{Result, ok, err, os_error, struct_error, value_error, runtime_error, ◌>>=◌}
use ebpf_upf.Python.Struct.{Bytes, Format, little, pack, unpack_from}
use ebpf_upf.Netlink.Attributes.{nla_format}

abbrev pub genl_id_ctrl : ℕ
genl_id_ctrl = 16

abbrev pub ctrl_cmd_getfamily : ℕ
ctrl_cmd_getfamily = 3

abbrev pub ctrl_attr_family_id : ℕ
ctrl_attr_family_id = 1

abbrev pub ctrl_attr_family_name : ℕ
ctrl_attr_family_name = 2

-- NLM_F_REQUEST, and NLM_F_REQUEST | NLM_F_ACK.
abbrev pub nlm_f_request : ℕ
nlm_f_request = 1

abbrev pub nlm_f_request_ack : ℕ
nlm_f_request_ack = 5

abbrev pub nlmsg_error : ℕ
nlmsg_error = 2

-- "=IHHII" and "=BBH".
abbrev pub nlmsghdr_format : Format
nlmsghdr_format = 4 ∷ 2 ∷ 2 ∷ 4 ∷ 4 ∷ []

abbrev pub genlmsghdr_format : Format
genlmsghdr_format = 1 ∷ 1 ∷ 2 ∷ []

-- A message type of `None` is refused by `struct.pack`.
unfoldable pub message_header : Option ℕ → ℕ → ℕ → ℕ → Result Bytes
message_header none flags seq n = err struct_error
message_header (some msg_type) flags seq n =
    pack little nlmsghdr_format ((16 + n) ∷ msg_type ∷ flags ∷ seq ∷ 0 ∷ [])

type_of_five : List ℕ → Result ℕ
type_of_five (r_len ∷ r_type ∷ r_flags ∷ r_seq ∷ r_pid ∷ []) = ok r_type
type_of_five _ = err value_error

unfoldable pub reply_type : Bytes → Result ℕ
unfolding type_of_five
reply_type resp = do five ← unpack_from little nlmsghdr_format resp 0; type_of_five five

first_of_one : List ℕ → Result ℕ
first_of_one (x ∷ []) = ok x
first_of_one _ = err value_error

first_of_pair : List ℕ → Result (ℕ × ℕ)
first_of_pair (x ∷ y ∷ []) = ok (x, y)
first_of_pair _ = err value_error

-- One field of `width` bytes at an offset.
unfoldable pub field : ℕ → Bytes → ℕ → Result ℕ
unfolding first_of_one
field width resp off = do one ← unpack_from little (width ∷ []) resp off; first_of_one one

unfoldable pub attr_header : Bytes → ℕ → Result (ℕ × ℕ)
unfolding first_of_pair
attr_header resp off = do two ← unpack_from little nla_format resp off; first_of_pair two

abbrev pub r_len_from : Bytes → Result ℕ
r_len_from resp = field 4 resp 0

unfoldable pub errno_val : Bytes → Result ℤ
errno_val resp = do v ← field 4 resp 16; ok (int32 v)

-- A negative `errno` in the reply is raised, and so is zero.
unfoldable pub refuse_error : ℕ → Bytes → Result (Unit {0})
refuse_error r_type resp =
    if r_type == nlmsg_error then (do v ← errno_val resp; err (os_error (negate v))) else ok tt

-- In `cmd` zero is an acknowledgement.
is_zero : ℤ → Bool
is_zero (pos zero) = true
is_zero _ = false

unfoldable pub refuse_nonzero : ℕ → Bytes → Result (Unit {0})
unfolding is_zero
refuse_nonzero r_type resp =
    if r_type == nlmsg_error
    then (do v ← errno_val resp; if is_zero v then ok tt else err (os_error (negate v)))
    else ok tt

unfoldable pub family_found : Option ℕ → Result ℕ
family_found none = err runtime_error
family_found (some f) = ok f
