-- ===== src/Datapath/Qer.antt =====
-- The token bucket of bpf/upf_tc.c, `upf_qer_admit`, in both of its builds. Fields are of 64 bits:
-- sums, differences and products wrap. The lock of the shared build makes a call one step.
pub mod Rate
pub mod Builds
pub mod Refill
pub mod Late
use ebpf_upf.Prelude.{
  ℕ, ◌+◌, ◌-◌, ◌*◌, ◌/◌, ◌%◌, ◌^◌, String, List, [], ◌∷◌, Option, none, some, ltb, leb, ◌==◌, Bool,
  true, false, if◌then◌else◌,
}
use ebpf_upf.Python.Struct.{Bytes}
use ebpf_upf.Maps.{Maps}
use ebpf_upf.Datapath.Tables.{QerVal, qer_val, map_lookup}

-- With UPF_QER_SHARED_LOCK there is one bucket for each QER, else one for each QER and CPU.
pub data Build : Type 0 where
  per_cpu shared_lock : Build

pub record Bucket : Type 0 where
  pub tokens_bytes : ℕ
  pub last_ns : ℕ

abbrev pub u64_mod : ℕ
u64_mod = 18446744073709551616

unfoldable pub elapsed : Build → ℕ → ℕ → ℕ
elapsed per_cpu now last_ns = (now + u64_mod - last_ns) % u64_mod
elapsed shared_lock now last_ns = if ltb last_ns now then now - last_ns else 0

-- `if (elapsed > 1000000000ULL) elapsed = 1000000000ULL;`
unfoldable pub capped : ℕ → ℕ
capped e = if ltb 1000000000 e then 1000000000 else e

unfoldable pub refill : ℕ → ℕ → ℕ
refill e mbr_ul_bps = (e * mbr_ul_bps) % u64_mod / 8000000000

-- The first use of a bucket starts full.
unfoldable pub top_up : Build → QerVal → ℕ → Bucket → Bucket
unfolding elapsed capped refill
top_up build qv now st =
    if st.last_ns == 0
    then record { tokens_bytes = qv.burst_bytes; last_ns = now }
    else (let tokens =
          (st.tokens_bytes + refill (capped (elapsed build now st.last_ns)) qv.mbr_ul_bps)
          % u64_mod in
        record {
          tokens_bytes = if ltb qv.burst_bytes tokens then qv.burst_bytes else tokens;
          last_ns = now;
        })

unfoldable pub take_tokens : ℕ → Bucket → Bucket × Bool
take_tokens pkt_len st =
    if leb pkt_len st.tokens_bytes
    then (record { tokens_bytes = st.tokens_bytes - pkt_len; last_ns = st.last_ns }, true)
    else (st, false)

-- One packet at a bucket.
unfoldable pub meter : Build → QerVal → ℕ → ℕ → Bucket → Bucket × Bool
unfolding top_up take_tokens
meter build qv now pkt_len st = take_tokens pkt_len (top_up build qv now st)

abbrev pub Buckets : Type 0
Buckets = ℕ → Option Bucket

unfoldable pub put_bucket : ℕ → Bucket → Buckets → Buckets
put_bucket qer_id st buckets i = if i == qer_id then some st else buckets i

unfoldable pub admit_limited : Build → QerVal → ℕ → ℕ → ℕ → Buckets → Buckets × Bool
unfolding meter put_bucket
admit_limited build qv now qer_id pkt_len buckets = elim (buckets qer_id) [
  | none ↦ (buckets, true)
  | some st ↦
      let (st', admitted) = meter build qv now pkt_len st in
      (put_bucket qer_id st' buckets, admitted)
]

-- No QER, a rate of 0 and a QER without a bucket admit.
unfoldable pub upf_qer_admit : Build → Maps → ℕ → ℕ → ℕ → Buckets → Buckets × Bool
unfolding admit_limited
upf_qer_admit build m now qer_id pkt_len buckets = elim (map_lookup m "qer_table" qer_id) [
  | none ↦ (buckets, true)
  | some b ↦
      (let qv = qer_val b in
        if qv.mbr_ul_bps == 0
        then (buckets, true)
        else admit_limited build qv now qer_id pkt_len buckets)
]

-- The bytes that a bucket admits of packets, each with its time and length.
unfoldable pub meter_all : Build → QerVal → List (ℕ × ℕ) → Bucket → Bucket × ℕ
meter_all build qv [] st = (st, 0)
meter_all build qv ((now, pkt_len) ∷ ps) st =
    let (st', admitted) = meter build qv now pkt_len st in
    let (st'', bytes) = meter_all build qv ps st' in
    (st'', (if admitted then pkt_len else 0) + bytes)
