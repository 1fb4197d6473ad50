-- ===== src/Datapath/Uplink/Accounts.antt =====
-- Every packet at the XDP hook is counted, and counted once.
use ebpf_upf.Prelude.{
  ℕ, ◌+◌, ◌≡◌, ◌⊎◌, refl, List, [], ◌∷◌, Option, none, some, Option-cases, inl, inr, arith,
}
use ebpf_upf.Python.Struct.{Bytes}
use ebpf_upf.Maps.{Maps}
use ebpf_upf.Datapath.Tables.{session_val, map_lookup}
use ebpf_upf.Datapath.Packet.{Parsed, other, short, non_gtp, short_gtp, control, gpdu, parse, ◌>>=◌}
use ebpf_upf.Datapath.Packet.Safety.{Within, parse-Within}
use ebpf_upf.Datapath.Stages.{
  m_rx_total, m_rx_gtpu, m_rx_gpdu, m_hit, m_miss_teid, m_miss_pdr, m_pass_nongtp, m_pass_ctrl,
  m_drop_parse, bumped,
}
use ebpf_upf.Datapath.Uplink.{
  XdpAction, xdp_drop, xdp_pass, look_up_pdr, look_up_session, classify, upf_xdp_uplink,
}

-- What each kind of packet is, as a number: 1 or 0.
abbrev pub gpdus : Parsed → ℕ
gpdus (gpdu ihl_bytes teid) = 1
gpdus _ = 0

abbrev pub controls : Parsed → ℕ
controls control = 1
controls _ = 0

abbrev pub malformed : Parsed → ℕ
malformed short = 1
malformed short_gtp = 1
malformed _ = 0

abbrev pub gtp_packets : Parsed → ℕ
gtp_packets short_gtp = 1
gtp_packets p = gpdus p + controls p

abbrev pub others : Parsed → ℕ
others non_gtp = 1
others _ = 0

-- The packets that are dropped.
abbrev pub drops : List ℕ → ℕ
drops b = bumped m_drop_parse b + bumped m_miss_teid b + bumped m_miss_pdr b

abbrev pub drop_count : XdpAction → ℕ
drop_count xdp_drop = 1
drop_count xdp_pass = 0

-- The books of the run for a packet that the parser takes for `p`.
pub record Balanced (p : Parsed) (run : XdpAction × List ℕ) : Type 0 where
  pub received : bumped m_rx_total run.1 ≡ 1
  pub gtpu : bumped m_rx_gtpu run.1 ≡ gtp_packets p
  pub non_gtp : bumped m_pass_nongtp run.1 ≡ others p
  pub controlled : bumped m_pass_ctrl run.1 ≡ controls p
  pub refused : bumped m_drop_parse run.1 ≡ malformed p
  pub tunnelled : bumped m_rx_gpdu run.1 ≡ gpdus p
  pub found : bumped m_hit run.1 + bumped m_miss_teid run.1 + bumped m_miss_pdr run.1 ≡ gpdus p
  pub dropped : drops run.1 ≡ drop_count run.0

look_up_session_cases :
    (seen : ℕ → Maps) (teid : ℕ)
    → (look_up_session seen teid ≡ (xdp_drop, m_miss_teid ∷ []))
      ⊎ (look_up_session seen teid ≡ (xdp_drop, m_miss_pdr ∷ []))
      ⊎ (look_up_session seen teid ≡ (xdp_pass, m_hit ∷ []))
unfolding look_up_session
look_up_session_cases seen teid = elim (Option-cases (map_lookup (seen 0) "teid_session" teid)) [
  | inl missing ↦ inl (rw (missing, look_up_session))
  | inr (sess, found) ↦
      elim (Option-cases (map_lookup (seen 1) "pdr_table" (session_val sess).pdr_id)) [
        | inl missing ↦ inr (inl (rw (found, look_up_session) (rw (missing, look_up_pdr))))
        | inr (pdr, there) ↦ inr (inr (rw (found, look_up_session) (rw (there, look_up_pdr))))
      ]
]

-- A G-PDU, by what its lookups gave.
gpdu-Balanced :
    (ihl_bytes teid : ℕ) (run : XdpAction × List ℕ)
    → (run ≡ (xdp_drop, m_miss_teid ∷ []))
      ⊎ (run ≡ (xdp_drop, m_miss_pdr ∷ []))
      ⊎ (run ≡ (xdp_pass, m_hit ∷ []))
    → Balanced (gpdu ihl_bytes teid) (run.0, m_rx_total ∷ m_rx_gtpu ∷ m_rx_gpdu ∷ run.1)
gpdu-Balanced ihl_bytes teid run (inl e) = rw e (ground arith)
gpdu-Balanced ihl_bytes teid run (inr (inl e)) = rw e (ground arith)
gpdu-Balanced ihl_bytes teid run (inr (inr e)) = rw e (ground arith)

classify-Balanced : (seen : ℕ → Maps) (p : Parsed) → Balanced p (classify seen p)
unfolding classify
classify-Balanced seen (gpdu ihl_bytes teid) =
    gpdu-Balanced ihl_bytes teid (look_up_session seen teid) (look_up_session_cases seen teid)
classify-Balanced seen other = ground arith
classify-Balanced seen short = ground arith
classify-Balanced seen non_gtp = ground arith
classify-Balanced seen short_gtp = ground arith
classify-Balanced seen control = ground arith

-- For every packet, and whatever the agent writes between the lookups: the XDP program ends without
-- a read past the packet's end, and what it counts is what the parser takes the packet for. Every
-- packet is received once; a GTP-U packet, a packet of another protocol, a control message, a
-- malformed packet and a G-PDU are each counted once as such, and nothing else is; a G-PDU is in
-- addition counted once, and no other packet is, as a hit or as a miss of its TEID or its PDR. The
-- packet is dropped exactly if it is counted as malformed or as a miss.
pub uplink-Balanced :
    (seen : ℕ → Maps) (d : Bytes)
    → (p : Parsed) × (run : XdpAction × List ℕ) × (parse d ≡ some p)
      × (upf_xdp_uplink seen d ≡ some run)
      × Balanced p run
unfolding upf_xdp_uplink
uplink-Balanced seen d = go (parse d) (parse-Within d)
  where
    go :
        (r : Option Parsed)
        → Within d r
        → (p : Parsed) × (run : XdpAction × List ℕ) × (r ≡ some p)
          × ((do p ← r; some (classify seen p)) ≡ some run)
          × Balanced p run
    go none h = absurd h
    go (some p) h = (p, classify seen p, refl, refl, classify-Balanced seen p)
