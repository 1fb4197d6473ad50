-- ===== src/Examples/Maps.antt =====
-- The map cache and the single tables at concrete inputs.
use ebpf_upf.Prelude.{◌^◌, ◌<◌, [], ◌∷◌, refl, replicate, arith}
use ebpf_upf.Python.Struct.{Bytes}
use ebpf_upf.Python.Struct.RoundTrip.{InRange}
use ebpf_upf.Maps.{Fits}
use ebpf_upf.Maps.Logic.{Reaches}
use ebpf_upf.Kernel.{Kernel}
use ebpf_upf.Kernel.Tables
use ebpf_upf.Kernel.Tables.{run, find}
use ebpf_upf.Kernel.Tables.Instance
use ebpf_upf.Syscall.{World, update, delete, lookup}
use ebpf_upf.Syscall.Implements.{Updated, Deleted, LookedUp}
use ebpf_upf.Syscall.Refines.{operations_end}
use ebpf_upf.Datapath.Tables.{FarVal, far_val}
use ebpf_upf.Agent.Encoders.{quad_format}
use ebpf_upf.Agent.Tables.{install_far}
use ebpf_upf.Agent.Tables.Install.{OnlyAt, Entered, Refused, install_far_enters}
use ebpf_upf.Examples.Start.{maps, pin_base, fresh, fresh-IsOpen}

abbrev tables_kernel : Kernel
tables_kernel = Instance.kernel pin_base 16

abbrev teid_key : Bytes
teid_key = 0 ∷ 16 ∷ 0 ∷ 0 ∷ []

abbrev session_bytes : Bytes
session_bytes = replicate 16 1

session-Fits : Fits "teid_session" teid_key session_bytes
session-Fits = ground arith

operations_end_example :
    let c = maps.content fresh in
    Updated tables_kernel pin_base
      (Instance.sizes pin_base 16)
      (Instance.lrus pin_base 16)
      "teid_session"
      teid_key
      session_bytes
      c
      (update tables_kernel pin_base "teid_session" teid_key session_bytes 0 fresh)
    × Deleted tables_kernel pin_base
        (Instance.sizes pin_base 16)
        (Instance.lrus pin_base 16)
        "teid_session"
        teid_key
        c
        (delete tables_kernel pin_base "teid_session" teid_key fresh)
    × LookedUp tables_kernel pin_base
        (Instance.sizes pin_base 16)
        (Instance.lrus pin_base 16)
        "teid_session"
        teid_key
        c
        (lookup tables_kernel pin_base "teid_session" teid_key 16 fresh)
operations_end_example =
    operations_end tables_kernel pin_base (Instance.sizes pin_base 16) (Instance.lrus pin_base 16)
      "teid_session" teid_key session_bytes fresh fresh-IsOpen session-Fits

-- No system call came before.
abbrev start : World Tables.Tables
start = record fresh { trace = Tables.empty ∷ [] }

start-IsOpen : maps.IsOpen start
start-IsOpen = record { valid = fresh-IsOpen.valid; cached = fresh-IsOpen.cached }

abbrev default_far : FarVal
default_far = record { action = 1; out_ifindex = 2; peer_ipv4_be = 0; out_teid_be = 0 }

install_far_enters_example :
    Reaches maps
      (OnlyAt "far_table" 1 (maps.content start))
      (λ _. Entered "far_table" far_val 1 default_far (maps.content start))
      (Refused ((1 < 2 ^ 32) × InRange quad_format (1 ∷ 2 ∷ 0 ∷ 0 ∷ [])) (maps.content start))
      (install_far maps 1 1 2 0 0 start)
install_far_enters_example = install_far_enters maps 1 1 2 0 0 start start-IsOpen refl
