-- ===== src/Datapath/Ingress.antt =====
-- `upf_tc_ingress` of bpf/upf_tc.c with `upf_far_forward` and `upf_urr_update`, in the builds without
-- events for experiments. The agent may write between two lookups of one run: `seen k` is what the
-- agent's maps hold at lookup number k. What the kernel's helpers return is a parameter.
pub mod Accounts
use ebpf_upf.Prelude.{
  ℕ, ◌+◌, ◌%◌, List, [], ◌∷◌, ◌++◌, Option, none, some, ◌==◌, Bool, true, false, if◌then◌else◌,
}
use ebpf_upf.Python.Struct.{Bytes}
use ebpf_upf.Maps.{Maps}
use ebpf_upf.Datapath.Tables.{
  SessionVal, session_val, FarVal, far_val, BundleSlot, bundle_of, map_lookup,
}
use ebpf_upf.Datapath.Qer.{Build, Buckets, u64_mod, upf_qer_admit}
use ebpf_upf.Datapath.Packet.{Parsed, gpdu, parse, ◌>>=◌}
use ebpf_upf.Datapath.Stages.{
  m_tc_miss_far, m_tc_far_drop, m_tc_far_forward, m_tc_far_buffer, m_tc_decap_err,
  m_tc_redirect_err, m_tc_qer_pass, m_tc_qer_drop, m_tc_urr_updated,
}

abbrev pub tc_act_ok : ℕ
tc_act_ok = 0

abbrev pub tc_act_shot : ℕ
tc_act_shot = 2

abbrev pub tc_act_redirect : ℕ
tc_act_redirect = 7

abbrev pub far_drop : ℕ
far_drop = 0

abbrev pub far_buffer : ℕ
far_buffer = 2

pub record UrrVal : Type 0 where
  pub bytes_ul : ℕ
  pub bytes_dl : ℕ
  pub pkts_ul : ℕ
  pub pkts_dl : ℕ

abbrev pub Urrs : Type 0
Urrs = ℕ → Option UrrVal

pub record BufferEvent : Type 0 where
  pub teid : ℕ
  pub pdr_id : ℕ
  pub far_id : ℕ
  pub pkt_len : ℕ
  pub ts_ns : ℕ

-- `skb->len` before and after the headers are stripped, the clock, whether
-- `bpf_skb_adjust_room` by so many bytes fails, whether a new URR entry fits, and what
-- `bpf_redirect` returns for an interface.
pub record Helpers : Type 0 where
  pub len : ℕ
  pub inner_len : ℕ
  pub now : ℕ
  pub adjust_fails : ℕ → Bool
  pub urr_fits : Bool
  pub redirect : ℕ → ℕ

-- What a CPU keeps between packets.
pub record State : Type 0 where
  pub buckets : Buckets
  pub urrs : Urrs

-- What one run returns, the counters it bumps, the event it sends and the state it leaves.
pub record Outcome : Type 0 where
  pub action : ℕ
  pub bumps : List ℕ
  pub event : Option BufferEvent
  pub state : State

unfoldable pub put_urr : ℕ → UrrVal → Urrs → Urrs
put_urr urr_id uv urrs i = if i == urr_id then some uv else urrs i

unfoldable pub count_urr : Helpers → ℕ → ℕ → Urrs → Urrs
unfolding put_urr
count_urr h urr_id pkt_len urrs = elim (urrs urr_id) [
  | none ↦
      (if h.urr_fits
        then put_urr urr_id record { bytes_ul = pkt_len; bytes_dl = 0; pkts_ul = 1; pkts_dl = 0 }
            urrs
        else urrs)
  | some uv ↦
      put_urr urr_id
        record {
          bytes_ul = (uv.bytes_ul + pkt_len) % u64_mod;
          bytes_dl = uv.bytes_dl;
          pkts_ul = (uv.pkts_ul + 1) % u64_mod;
          pkts_dl = uv.pkts_dl;
        }
        urrs
]

unfoldable pub upf_urr_update : Helpers → ℕ → ℕ → Urrs → Urrs × List ℕ
unfolding count_urr
upf_urr_update h urr_id pkt_len urrs =
    if urr_id == 0 then (urrs, []) else (count_urr h urr_id pkt_len urrs, m_tc_urr_updated ∷ [])

-- The redirection of an admitted packet, after its accounting.
unfoldable pub redirect_out : Helpers → FarVal → ℕ → State → Outcome
unfolding upf_urr_update
redirect_out h far urr_id s =
    let (urrs, counted) = upf_urr_update h urr_id h.inner_len s.urrs in
    let ret = h.redirect far.out_ifindex in
    record {
      action = ret;
      bumps =
          m_tc_qer_pass
          ∷ (counted
              ++ (m_tc_far_forward
                  ∷ (if ret == tc_act_redirect then [] else m_tc_redirect_err ∷ [])));
      event = none;
      state = record { buckets = s.buckets; urrs = urrs };
    }

abbrev pub shot : ℕ → State → Outcome
shot reason s = record { action = tc_act_shot; bumps = reason ∷ []; event = none; state = s }

-- The policing of the decapsulated packet.
unfoldable pub police : Build → Helpers → Maps → FarVal → BundleSlot → State → Outcome
unfolding redirect_out
police build h m far cur s =
    let (buckets, admitted) = upf_qer_admit build m h.now cur.qer_id h.inner_len s.buckets in
    let s' : State = record { buckets = buckets; urrs = s.urrs } in
    if admitted then redirect_out h far cur.urr_id s' else shot m_tc_qer_drop s'

unfoldable pub upf_far_forward : Build → Helpers → (ℕ → Maps) → BundleSlot → ℕ → State → Outcome
unfolding police
upf_far_forward build h seen cur outer_hdr_len s =
    if h.adjust_fails outer_hdr_len
    then shot m_tc_decap_err s
    else elim (map_lookup (seen 3) "far_table" cur.far_id) [
      | none ↦ shot m_tc_decap_err s
      | some b ↦ police build h (seen 4) (far_val b) cur s
    ]

-- A packet that is left to the stack.
abbrev pub passed_on : List ℕ → State → Outcome
passed_on bumps s = record { action = tc_act_ok; bumps = bumps; event = none; state = s }

unfoldable pub buffer_notice : Helpers → ℕ → ℕ → ℕ → State → Outcome
buffer_notice h teid pdr_id far_id s = record {
  action = tc_act_shot;
  bumps = m_tc_far_buffer ∷ [];
  event =
      some record { teid = teid; pdr_id = pdr_id; far_id = far_id; pkt_len = h.len; ts_ns = h.now };
  state = s;
}

-- The action of the FAR: what is neither DROP nor BUFFER is forwarded.
unfoldable pub apply_far :
    Build → Helpers → (ℕ → Maps) → ℕ → ℕ → ℕ → BundleSlot → FarVal → State → Outcome
unfolding upf_far_forward buffer_notice
apply_far build h seen ihl_bytes teid pdr_id cur far s =
    if far.action == far_drop
    then shot m_tc_far_drop s
    else if far.action == far_buffer
    then buffer_notice h teid pdr_id cur.far_id s
    else upf_far_forward build h seen cur (ihl_bytes + 8 + 8) s

unfoldable pub with_bundle : Build → Helpers → (ℕ → Maps) → ℕ → ℕ → ℕ → BundleSlot → State → Outcome
unfolding apply_far
with_bundle build h seen ihl_bytes teid pdr_id cur s =
    elim (map_lookup (seen 2) "far_table" cur.far_id) [
      | none ↦ passed_on (m_tc_miss_far ∷ []) s
      | some b ↦ apply_far build h seen ihl_bytes teid pdr_id cur (far_val b) s
    ]

unfoldable pub with_session : Build → Helpers → (ℕ → Maps) → ℕ → ℕ → SessionVal → State → Outcome
unfolding with_bundle
with_session build h seen ihl_bytes teid sess s = elim (bundle_of (seen 1) sess.pdr_id) [
  | none ↦ passed_on (m_tc_miss_far ∷ []) s
  | some cur ↦ with_bundle build h seen ihl_bytes teid sess.pdr_id cur s
]

unfoldable pub enforce : Build → Helpers → (ℕ → Maps) → Parsed → State → Outcome
unfolding with_session
enforce build h seen (gpdu ihl_bytes teid) s = elim (map_lookup (seen 0) "teid_session" teid) [
  | none ↦ passed_on (m_tc_miss_far ∷ []) s
  | some b ↦ with_session build h seen ihl_bytes teid (session_val b) s
]
enforce build h seen _ s = passed_on [] s

unfoldable pub upf_tc_ingress : Build → Helpers → (ℕ → Maps) → Bytes → State → Option Outcome
unfolding parse enforce
upf_tc_ingress build h seen d s = do p ← parse d; some (enforce build h seen p s)
