-- ===== src/Netlink/Socket.antt =====
-- `GenlSocket` of results_native/gtp5g_baseline/gtp5g_genl.py, over a netlink socket that is a
-- parameter. A family's name is the bytes that `name.encode()` gives.
pub mod Walk
pub mod Outcomes
use ebpf_upf.Prelude.{
  ℕ, zero, suc, ◌+◌, Bool, List, [], ◌∷◌, ◌++◌, Option, none, some, ltb, ◌==◌, if◌then◌else◌,
  length,
}
use ebpf_upf.Python.{Exception, Result, ok, err}
use ebpf_upf.Python.Exec.{Exec, pure, raise, lift, ◌>>=◌, ◌>>◌}
use ebpf_upf.Python.Struct.{Bytes, Format, little, pack}
use ebpf_upf.Netlink.Attributes.{padding, nla}
use ebpf_upf.Netlink.Replies.{
  genl_id_ctrl, ctrl_cmd_getfamily, ctrl_attr_family_id, ctrl_attr_family_name, nlm_f_request,
  nlm_f_request_ack, genlmsghdr_format, message_header, reply_type, field, attr_header, r_len_from,
  refuse_error, refuse_nonzero, family_found,
}

-- The operating system's socket: `send`, and `recv` of one datagram of bounded size.
pub record Socket : Type 1 where
  pub State : Type 0
  pub send : Bytes → Exec State (Unit {0})
  pub recv : ℕ → Exec State Bytes
  pub close : Exec State (Unit {0})

pub record GenlSocket (S : Type 0) : Type 0 where
  pub seq : ℕ
  pub family_id : Option ℕ
  pub nl : S

-- `self.seq` and `self.family_id` after `__init__`.
abbrev pub connected : {S : Type 0} → S → GenlSocket S
connected s = record { seq = 0; family_id = none; nl = s }

-- `self.family_id`, as the loop of `resolve_family` sets it.
unfoldable pub note_family : Bytes → ℕ → ℕ → Exec (Option ℕ) (Unit {0})
note_family resp off a_type =
    if a_type == ctrl_attr_family_id
    then (do fam_id ← lift (field 2 resp (off + 4)); (λ family. (ok tt, some fam_id)))
    else pure tt

-- The body of the loop; `next` is the loop from the next offset on.
unfoldable pub attribute_at :
    Bytes → ℕ → (ℕ → Exec (Option ℕ) (Unit {0})) → Exec (Option ℕ) (Unit {0})
attribute_at resp off next = do
  (a_len, a_type) ← lift (attr_header resp off)
  (if ltb a_len 4
      then pure tt
      else (note_family resp off a_type >> next (off + (a_len + padding a_len))))

-- `while off < end`, at most `n` times.
unfoldable pub walk : ℕ → Bytes → ℕ → ℕ → Exec (Option ℕ) (Unit {0})
walk zero resp end off = pure tt
walk (suc n) resp end off =
    let next = walk n resp end in if ltb off end then attribute_at resp off next else pure tt

module _ (N : Socket) where
  open N use {State, send, recv}

  abbrev pub next_seq : Exec (GenlSocket State) ℕ
  next_seq s = (ok (s.seq + 1), record s { seq = s.seq + 1 })

  abbrev pub on_nl : {A : Type 0} → Exec State A → Exec (GenlSocket State) A
  on_nl m s = let (r, nl) = m s.nl in (r, record s { nl = nl })

  abbrev pub on_family : {A : Type 0} → Exec (Option ℕ) A → Exec (GenlSocket State) A
  on_family m s = let (r, f) = m s.family_id in (r, record s { family_id = f })

  abbrev pub own_family : Exec (GenlSocket State) (Option ℕ)
  own_family s = (ok s.family_id, s)

  -- `_send_recv`: one datagram out, one in.
  unfoldable pub send_recv : Option ℕ → ℕ → Bytes → Exec (GenlSocket State) (ℕ × Bytes)
  send_recv msg_type flags payload = do
    seq ← next_seq
    hdr ← lift (message_header msg_type flags seq (length payload))
    on_nl (send (hdr ++ payload))
    resp ← on_nl (recv 65536)
    r_type ← lift (reply_type resp)
    pure (r_type, resp)

  unfoldable pub resolve_family : Bytes → Exec (GenlSocket State) ℕ
  unfolding send_recv
  resolve_family name = do
    genlhdr ← lift (pack little genlmsghdr_format (ctrl_cmd_getfamily ∷ 1 ∷ 0 ∷ []))
    attr ← lift (nla ctrl_attr_family_name (name ++ (0 ∷ [])))
    (r_type, resp) ← send_recv (some genl_id_ctrl) nlm_f_request_ack (genlhdr ++ attr)
    lift (refuse_error r_type resp)
    end ← lift (r_len_from resp)
    on_family (walk end resp end 20)
    family ← own_family
    lift (family_found family)

  unfoldable pub cmd : ℕ → Bytes → Bool → Exec (GenlSocket State) Bytes
  unfolding send_recv
  cmd command payload ack = do
    genlhdr ← lift (pack little genlmsghdr_format (command ∷ 1 ∷ 0 ∷ []))
    family ← own_family
    let flags = if ack then nlm_f_request_ack else nlm_f_request
    (r_type, resp) ← send_recv family flags (genlhdr ++ payload)
    lift (refuse_nonzero r_type resp)
    pure resp
