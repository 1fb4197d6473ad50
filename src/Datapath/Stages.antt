-- ===== src/Datapath/Stages.antt =====
-- The indices of the counters, `enum metric_idx` of bpf/upf_maps.h. A run of a program is modelled
-- with the list of the indices that it bumps, in order.
use ebpf_upf.Prelude.{ℕ, ◌+◌, List, [], ◌∷◌, ◌==◌, if◌then◌else◌}

abbrev pub m_rx_total : ℕ
m_rx_total = 0

abbrev pub m_rx_gtpu : ℕ
m_rx_gtpu = 1

abbrev pub m_rx_gpdu : ℕ
m_rx_gpdu = 2

abbrev pub m_hit : ℕ
m_hit = 3

abbrev pub m_miss_teid : ℕ
m_miss_teid = 4

abbrev pub m_miss_pdr : ℕ
m_miss_pdr = 5

abbrev pub m_pass_nongtp : ℕ
m_pass_nongtp = 6

abbrev pub m_pass_ctrl : ℕ
m_pass_ctrl = 7

abbrev pub m_drop_parse : ℕ
m_drop_parse = 8

abbrev pub m_tc_miss_far : ℕ
m_tc_miss_far = 9

abbrev pub m_tc_far_drop : ℕ
m_tc_far_drop = 10

abbrev pub m_tc_far_forward : ℕ
m_tc_far_forward = 11

abbrev pub m_tc_far_buffer : ℕ
m_tc_far_buffer = 12

abbrev pub m_tc_decap_err : ℕ
m_tc_decap_err = 13

abbrev pub m_tc_redirect_err : ℕ
m_tc_redirect_err = 14

abbrev pub m_tc_qer_pass : ℕ
m_tc_qer_pass = 15

abbrev pub m_tc_qer_drop : ℕ
m_tc_qer_drop = 16

abbrev pub m_tc_urr_updated : ℕ
m_tc_urr_updated = 17

abbrev pub m_tc_dl_hit : ℕ
m_tc_dl_hit = 18

abbrev pub m_tc_dl_miss : ℕ
m_tc_dl_miss = 19

abbrev pub m_tc_dl_encap_err : ℕ
m_tc_dl_encap_err = 20

-- How often an index was bumped.
abbrev pub bumped : ℕ → List ℕ → ℕ
bumped i [] = 0
bumped i (j ∷ js) = (if j == i then 1 else 0) + bumped i js
