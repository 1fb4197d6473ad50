-- ===== src/Examples/Start.antt =====
-- The agent's map cache over the running kernel, and worlds to start from.
use ebpf_upf.Prelude.{String, []}
use ebpf_upf.Maps.{PinnedMaps}
use ebpf_upf.Kernel.Tables
use ebpf_upf.Kernel.Tables.Instance
use ebpf_upf.Syscall.{World, find_fd}
use ebpf_upf.Syscall.Instance as Cache
use ebpf_upf.Agent.Sessions.{install_session}
use ebpf_upf.Agent.Sessions.Presence.{Resolved}

abbrev pub pin_base : String
pin_base = "/sys/fs/bpf/upf"

-- Room for sixteen entries.
abbrev pub maps : PinnedMaps
maps =
    Cache.pinned_maps (Instance.kernel pin_base 16) pin_base (Instance.sizes pin_base 16)
      (Instance.lrus pin_base 16)

-- No map is open, and all are empty.
abbrev pub fresh : World Tables.Tables
fresh = record { fds = []; kernel = Tables.empty; trace = [] }

pub fresh-IsOpen : maps.IsOpen fresh
unfolding find_fd
fresh-IsOpen = record { valid = Instance.empty-IsValid pin_base 16; cached = λ name d h. cc }

pub fresh-Resolved : Resolved (maps.content fresh)
unfolding Tables.find
fresh-Resolved = record { at = λ j v h. cc }

-- One session, with the defaults of `install_session`.
abbrev pub one_session : World Tables.Tables
one_session = (install_session maps 0x1000 0x2000 1 1 100 1 fresh).1
