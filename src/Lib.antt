-- ===== src/Lib.antt =====
-- ebpf-upf: a 5G user plane function in eBPF, with the control-plane agent that fills its tables.
--
-- The program. loader/agent.py stands in for a PFCP agent. It encodes sessions, PDRs, FARs, QERs
-- and double-buffered bundles with `struct.pack`, and writes them to BPF maps that are pinned under
-- /sys/fs/bpf/upf. loader/bpf_syscall.py is its path into the kernel: bpf(2) through ctypes, and a
-- cache of the descriptors of pinned maps. bpf/upf_xdp.c and bpf/upf_tc.c are the datapath, which
-- runs between any two system calls of the agent and reads what the maps then hold, through the
-- structures of bpf/upf_maps.h. bpf/upf_tc_egress.c is the way back: it puts the packets for a UE
-- into the tunnel that the agent entered for the UE's address.
--
-- The model.
--   Prelude                  shared names, Boolean tests and lists over the native numbers
--   Python                   exceptions as values; Exec: an action on a state that may raise;
--                            Struct: `struct.pack` and `struct.unpack` of integer formats, both
--                            byte orders, with round trips in Struct/RoundTrip; Sorting, Hex and
--                            Strings: `sorted`, `min`, `max` and the text methods in use; Runs:
--                            rules for where an action ends
--   Maps                     what the maps hold, and the interface `PinnedMaps` between the agent
--                            and the cache; Logic: a Hoare triple whose invariant holds after every
--                            system call, not only at the end; Worlds: from world to world
--   Kernel                   bpf(2) as a parameter: an interface with the documented laws. A call
--                            may fail at any time, and an LRU map may evict. Tables: a kernel that
--                            runs, which shows that the laws can hold
--   Syscall                  loader/bpf_syscall.py, over any kernel; Instance fills `PinnedMaps`
--   Datapath                 bpf/: Tables: the structures of bpf/upf_maps.h as the C code reads
--                            them, and the slot of a bundle that `upf_tc_ingress` selects; Packet:
--                            the parsing that both programs share, with reads that can fault;
--                            Stages: the counters; Uplink: `upf_xdp_uplink` of bpf/upf_xdp.c;
--                            Ingress: `upf_tc_ingress`, `upf_far_forward` and `upf_urr_update` of
--                            bpf/upf_tc.c; Qer: both builds of `upf_qer_admit`; Egress:
--                            `upf_tc_egress` and `ip_checksum20` of bpf/upf_tc_egress.c
--   Agent                    loader/agent.py. Encoders: `enc_*`; Layout: what the datapath reads
--                            from them; Tables: `map_update`, `map_delete`, `install_far`,
--                            `install_qer`; Slots and Modify: `modify_tc_bundle`; Sessions:
--                            `install_tc_bundle`, `install_session`, `remove_session`;
--                            Batches: `bootstrap_initial`, `measure_rule_update`;
--                            Metrics: `read_metrics`, `prometheus_text`, bpftool's print of the
--                            counters and a scraper's reader; Http: `_send` and `do_GET`;
--                            Downlink: `install_dl_ue`, `install_upf_config`; Usage: `read_urr`;
--                            Bpftool: `map_dump`; Server: `serve` and `main`; Frame: code that
--                            writes only its own entries
--   Netlink                  results_native/gtp5g_baseline/gtp5g_genl.py. Attributes: `nla` and its
--                            kin, and an independent reader; Replies: headers and fields; Socket:
--                            `GenlSocket` over a socket that is a parameter; Messages and Commands:
--                            `add_far`, `add_pdr` and the script's steps; Link:
--                            gtp5g_link_add.py beside it, over the operating system's sockets
--   EndToEnd                 the agent and the datapath together: what packets meet while a session
--                            is installed; Transitions: while a bundle is modified; Removal: while
--                            another session is removed; Downlink: while a tunnel is entered; Usage:
--                            what a packet adds to the report of its URR
--   Analysis                 results_native/transactional_consistency/analyze.py: the parser of
--                            captured decisions and its counts; Toggles: the tuples that
--                            test/toggle_bundle.py commits
--   Bench                    results_native/eupf_comparison/bench_eupf_ruleupdate.py
--   Pfcp                     results_native/eupf_comparison/pfcp_session_establish.py: Request: the
--                            message; Once: what is sent
--   Examples                 tests and concrete inputs, over the kernel that runs
--
-- Concurrency. The datapath does not write the tables of sessions. A kernel or a world records
-- the contents after every system call (`trace`, `passed`), and a property of "every moment" is a
-- property of each of them. One agent writes. An update of a hash map replaces a value at once. An
-- update of far_table or qer_table, which are array maps, copies the value, which bpf(2) does not
-- promise to be atomic: it is one step here, and no property says what a packet reads of such an
-- entry while it is written. The value of upf_config_map is one word.
--
-- Bounds. Numbers are unbounded, as in Python; a value that does not fit the field of a format is
-- `struct.error`. Bytes are numbers, and the laws of the kernel hold for bytes below 256.
-- In the datapath sums, differences and products of the token bucket wrap at 64 bits. The index
-- `int(len * 0.95)` of the percentiles is written with integers, with which the doubles agree for
-- every length below 2^45. The loop of `resolve_family` gets as many turns as the reply says that it
-- has bytes; a turn takes four bytes at least. Times are left in nanoseconds.
-- In the egress program lengths wrap at 32 bits and are cut to 16; the packet is the linear part of
-- the buffer.
--
-- Parameters: the kernel's helpers, bpf(2), sockets, the clock, `subprocess.run`, `json`, the parsing
-- of queries and options, `inet_aton` of the C library, and the packet library of the PFCP client.
--
-- Not modelled: the verifier and the loader scripts, the sockets of the HTTP server, what the agent
-- and the benchmark print, the plots of scripts/, which hand a table to a plotting library, and the
-- drivers under test/ that only start processes or send packets.
pub mod Prelude
pub mod Python
pub mod Maps
pub mod Kernel
pub mod Syscall
pub mod Datapath
pub mod Agent
pub mod Netlink
pub mod EndToEnd
pub mod Analysis
pub mod Bench
pub mod Pfcp
pub mod Examples
