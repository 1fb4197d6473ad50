-- ===== src/EndToEnd/Usage/Counted.antt =====
-- What one packet adds to the counters of a CPU, `upf_urr_update` of bpf/upf_tc.c.
use ebpf_upf.Prelude.{
  ℕ, ◌+◌, ◌%◌, ◌^◌, ◌<◌, ◌≡◌, refl, sym, ap, ◌∙◌, subst, Option, none, some, Bool, true, false,
  ◌==◌, ==_iff, if◌then◌else◌, arith,
}
use ebpf_upf.Datapath.Tables.{FarVal}
use ebpf_upf.Datapath.Qer.{u64_mod}
use ebpf_upf.Datapath.Ingress.{
  UrrVal, Urrs, Helpers, State, put_urr, count_urr, upf_urr_update, redirect_out,
}
use ebpf_upf.Agent.Usage.Printed.{IsUrr}

abbrev pub zero_urr : UrrVal
zero_urr = record { bytes_ul = 0; bytes_dl = 0; pkts_ul = 0; pkts_dl = 0 }

-- What a CPU holds for a URR; the kernel fills the values of the other CPUs of a new entry with
-- zeros.
abbrev pub or_zeros : Option UrrVal → UrrVal
or_zeros none = zero_urr
or_zeros (some v) = v

abbrev pub held : ℕ → Urrs → UrrVal
held urr_id urrs = or_zeros (urrs urr_id)

-- A packet's bytes and the packet, for the URR that it is billed to.
abbrev pub billed : ℕ → ℕ → ℕ → ℕ × ℕ
billed urr_id i pkt_len = if i == urr_id then (pkt_len, 1) else (0, 0)

if-or_zeros :
    (b : Bool) (uv : UrrVal) (o : Option UrrVal)
    → or_zeros (if b then some uv else o) ≡ (if b then uv else or_zeros o)
if-or_zeros true uv o = refl
if-or_zeros false uv o = refl

held-put_urr :
    (urr_id i : ℕ) (uv : UrrVal) (urrs : Urrs)
    → held i (put_urr urr_id uv urrs) ≡ (if i == urr_id then uv else held i urrs)
unfolding put_urr
held-put_urr urr_id i uv urrs = if-or_zeros (i == urr_id) uv (urrs i)

-- `a` is `b` after `n` more bytes and `k` more packets.
abbrev pub Grown : UrrVal → UrrVal → ℕ × ℕ → Type 0
Grown a b (n, k) = (a.bytes_ul ≡ b.bytes_ul + n) × (a.pkts_ul ≡ b.pkts_ul + k)

-- The value of a URR after one more packet.
after : ℕ → Option UrrVal → UrrVal
after pkt_len none = record { bytes_ul = pkt_len; bytes_dl = 0; pkts_ul = 1; pkts_dl = 0 }
after pkt_len (some uv) = record {
  bytes_ul = (uv.bytes_ul + pkt_len) % u64_mod;
  bytes_dl = uv.bytes_dl;
  pkts_ul = (uv.pkts_ul + 1) % u64_mod;
  pkts_dl = uv.pkts_dl;
}

after-Grown :
    (pkt_len : ℕ) (o : Option UrrVal)
    → (or_zeros o).bytes_ul + pkt_len < 2 ^ 64
    → (or_zeros o).pkts_ul + 1 < 2 ^ 64
    → Grown (after pkt_len o) (or_zeros o) (pkt_len, 1)
unfolding after
after-Grown pkt_len none bytes pkts = (omega arith, omega arith)
after-Grown pkt_len (some uv) bytes pkts = (omega arith, omega arith)

count_urr_puts :
    (h : Helpers) (urr_id pkt_len : ℕ) (urrs : Urrs) (o : Option UrrVal)
    → h.urr_fits ≡ true
    → urrs urr_id ≡ o
    → count_urr h urr_id pkt_len urrs ≡ put_urr urr_id (after pkt_len o) urrs
unfolding count_urr after
count_urr_puts h urr_id pkt_len urrs none fits there = rw (there, count_urr) (rw fits refl)
count_urr_puts h urr_id pkt_len urrs (some uv) fits there = rw (there, count_urr) refl

if-Grown :
    (b : Bool) (v old other : UrrVal) (n k : ℕ)
    → (b ≡ true → other ≡ old)
    → Grown v old (n, k)
    → Grown (if b then v else other) other (if b then (n, k) else (0, 0))
if-Grown true v old other n k same g = subst (λ x. Grown v x (n, k)) (sym (same refl)) g
if-Grown false v old other n k same g = (omega arith, omega arith)

pub count_urr-Grown :
    (h : Helpers) (urr_id i pkt_len : ℕ) (urrs : Urrs)
    → h.urr_fits ≡ true
    → (held urr_id urrs).bytes_ul + pkt_len < 2 ^ 64
    → (held urr_id urrs).pkts_ul + 1 < 2 ^ 64
    → Grown (held i (count_urr h urr_id pkt_len urrs)) (held i urrs) (billed urr_id i pkt_len)
count_urr-Grown h urr_id i pkt_len urrs fits bytes pkts =
    let uv : UrrVal = after pkt_len (urrs urr_id) in
    let shape : held i (count_urr h urr_id pkt_len urrs)
        ≡ (if i == urr_id then uv else held i urrs) =
      ap (held i) (count_urr_puts h urr_id pkt_len urrs (urrs urr_id) fits refl)
      ∙ held-put_urr urr_id i uv urrs in
    subst (λ x. Grown x (held i urrs) (billed urr_id i pkt_len)) (sym shape)
      (if-Grown (i == urr_id) uv (held urr_id urrs) (held i urrs) pkt_len 1
        (λ same. ap (λ k. held k urrs) ((==_iff i urr_id).0 same))
        (after-Grown pkt_len (urrs urr_id) bytes pkts))

pub redirect_out-urrs :
    (h : Helpers) (far : FarVal) (urr_id : ℕ) (s : State)
    → 0 < urr_id
    → (redirect_out h far urr_id s).state.urrs ≡ count_urr h urr_id h.inner_len s.urrs
unfolding redirect_out upf_urr_update
redirect_out-urrs h far urr_id s positive =
    let counted : (urr_id == 0) ≡ false = ground arith in rw counted refl

after-IsUrr :
    (pkt_len : ℕ) (o : Option UrrVal)
    → IsUrr (or_zeros o)
    → (or_zeros o).bytes_ul + pkt_len < 2 ^ 64
    → (or_zeros o).pkts_ul + 1 < 2 ^ 64
    → IsUrr (after pkt_len o)
unfolding after
after-IsUrr pkt_len none h bytes pkts =
    (omega (arith, bytes), omega arith, omega arith, omega arith)
after-IsUrr pkt_len (some uv) (a, b, c, d) bytes pkts = (omega arith, b, omega arith, d)

if-IsUrr : (b : Bool) (v w : UrrVal) → IsUrr v → IsUrr w → IsUrr (if b then v else w)
if-IsUrr true v w hv hw = hv
if-IsUrr false v w hv hw = hw

pub count_urr-IsUrr :
    (h : Helpers) (urr_id i pkt_len : ℕ) (urrs : Urrs)
    → h.urr_fits ≡ true
    → (held urr_id urrs).bytes_ul + pkt_len < 2 ^ 64
    → (held urr_id urrs).pkts_ul + 1 < 2 ^ 64
    → IsUrr (held urr_id urrs)
    → IsUrr (held i urrs)
    → IsUrr (held i (count_urr h urr_id pkt_len urrs))
count_urr-IsUrr h urr_id i pkt_len urrs fits bytes pkts own other =
    let uv : UrrVal = after pkt_len (urrs urr_id) in
    let shape : held i (count_urr h urr_id pkt_len urrs)
        ≡ (if i == urr_id then uv else held i urrs) =
      ap (held i) (count_urr_puts h urr_id pkt_len urrs (urrs urr_id) fits refl)
      ∙ held-put_urr urr_id i uv urrs in
    subst IsUrr (sym shape) (
      if-IsUrr (i == urr_id) uv (held i urrs) (after-IsUrr pkt_len (urrs urr_id) own bytes pkts)
        other)
