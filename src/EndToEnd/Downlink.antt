-- ===== src/EndToEnd/Downlink.antt =====
-- The agent and the downlink program together: what a packet for a UE becomes while loader/agent.py
-- installs the UE's tunnel or the address of the UPF, in bpf/upf_tc_egress.c.
use ebpf_upf.Prelude.{
  ℕ, ◌+◌, ◌*◌, ◌/◌, ◌%◌, ◌≡◌, refl, sym, ◌∙◌, ap, subst, inl, inr, ◌⊎◌, String, eq_iff, Option,
  some, [], ◌∷◌, ◌++◌, length, take, drop, take-append, take_all, All, arith,
}
use ebpf_upf.Python.{Result, ok}
use ebpf_upf.Python.Struct.{Bytes, IsByte, big, little, from_bytes, to_bytes, le_bytes, le_value}
use ebpf_upf.Python.Struct.RoundTrip.{from_bytes-to_bytes, length-to_bytes, to_bytes-IsByte}
use ebpf_upf.Maps.{Maps, PinnedMaps}
use ebpf_upf.Maps.Logic.{Reaches, Reaches-weaken}
use ebpf_upf.Datapath.Tables.{u32, map_lookup}
use ebpf_upf.Datapath.Packet.{gpdu, parse}
use ebpf_upf.Datapath.Egress.{Room, dl_ue_val, destination, n3_address, upf_tc_egress}
use ebpf_upf.Datapath.Egress.Plain.{destination-Plain}
use ebpf_upf.Datapath.Egress.Grown.{Grows, sent_as}
use ebpf_upf.Datapath.Egress.Tunnel.{egress-Tunnelled}
use ebpf_upf.Agent.Downlink.{Resolver, install_dl_ue, install_upf_config}
use ebpf_upf.Agent.Downlink.Install.{dl_ue_bytes, TunnelEntry, ConfigEntry}
use ebpf_upf.Agent.Downlink.Whole.{install_dl_ue_whole, install_upf_config_whole}

-- A number read in the byte order of the host and written again.
le_bytes-le_value : (bs : Bytes) → All IsByte bs → le_bytes (length bs) (le_value bs) ≡ bs
unfolding le_bytes le_value
le_bytes-le_value [] h = refl
le_bytes-le_value (b ∷ bs) (small, h) =
    let low : (b + 256 * le_value bs) % 256 ≡ b = omega (arith, small) in
    let high : (b + 256 * le_value bs) / 256 ≡ le_value bs = omega (arith, small) in
    rw (low, high, le_bytes-le_value bs h) refl

-- In the maps `m`, the packet `d` leaves towards `peer`, in the tunnel `teid`, unchanged inside.
pub record Carried (r : Room) (d peer : Bytes) (teid : ℕ) (m : Maps) : Type 0 where
  pub packet : Bytes
  pub ran : upf_tc_egress r (λ k. m) d ≡ some (sent_as packet)
  pub tunnel : parse packet ≡ some (gpdu 20 teid)
  pub towards : take 4 (drop 30 packet) ≡ peer
  pub inner : take 14 packet ++ drop 50 packet ≡ d

word_bytes : (bs : Bytes) → (length bs ≡ 4) × All IsByte bs → le_bytes 4 (le_value bs) ≡ bs
word_bytes bs (size, h) = subst (λ n. le_bytes n (le_value bs) ≡ bs) size (le_bytes-le_value bs h)

-- What the program reads from the entry, byte for byte.
entry_teid :
    (teid : ℕ) (peer : Bytes) (qfi : ℕ)
    → le_bytes 4 (dl_ue_val (dl_ue_bytes teid peer qfi)).teid_be ≡ to_bytes big 4 teid
unfolding dl_ue_val u32 to_bytes
entry_teid teid peer qfi =
    word_bytes (to_bytes big 4 teid) (length-to_bytes big 4 teid, to_bytes-IsByte big 4 teid)

entry_peer :
    (teid : ℕ) (peer : Bytes) (qfi : ℕ)
    → (length peer ≡ 4) × All IsByte peer
    → le_bytes 4 (dl_ue_val (dl_ue_bytes teid peer qfi)).gnb_ipv4_be ≡ peer
unfolding dl_ue_val u32 to_bytes
entry_peer teid peer qfi (size, h) =
    let rest : Bytes = to_bytes little 2 qfi ++ to_bytes little 2 0 in
    let found : take 4 (peer ++ rest) ≡ peer =
      subst (λ n. take n (peer ++ rest) ≡ peer) size (take-append peer rest) in
    rw found (word_bytes peer (size, h))

same_result : {b c : Bytes} → ◌≡◌ {A = Result Bytes} (ok b) (ok c) → b ≡ c
same_result h = cc

-- The lookup of a packet's address is the lookup of the four bytes in the packet.
address_key :
    (d key : Bytes) (dst_ip : ℕ)
    → dst_ip ≡ u32 d 30
    → take 4 (drop 30 d) ≡ key
    → (length key ≡ 4) × All IsByte key
    → le_bytes 4 dst_ip ≡ key
unfolding u32
address_key d key dst_ip read at bytes =
    ap (le_bytes 4) (read ∙ ap le_value at) ∙ word_bytes key bytes

found_at :
    (m : Maps) (n : String) (dst_ip : ℕ) (key b : Bytes)
    → le_bytes 4 dst_ip ≡ key
    → m n key ≡ some b
    → map_lookup m n dst_ip ≡ some b
unfolding map_lookup
found_at m n dst_ip key b same found = ap (m n) same ∙ found

module _ (N : Resolver) (ue gnb : String) (teid qfi : ℕ) (key peer : Bytes)
    (key_read : N.inet_aton ue ≡ ok key) (peer_read : N.inet_aton gnb ≡ ok peer) (r : Room)
    (d : Bytes) (dst_ip : ℕ) (to : destination d ≡ some (some dst_ip))
    (at : take 4 (drop 30 d) ≡ key) (g : Grows r d) where
  -- An entry carries the packets of its address.
  TunnelEntry-Carried : (m0 m : Maps) → TunnelEntry N ue teid gnb qfi m0 m → Carried r d peer teid m
  TunnelEntry-Carried m0 m t =
      let same_key : t.key ≡ key = same_result (sym t.key_read ∙ key_read) in
      let same_peer : t.peer ≡ peer = same_result (sym t.peer_read ∙ peer_read) in
      let b : Bytes = dl_ue_bytes teid t.peer qfi in
      let looked_up : le_bytes 4 dst_ip ≡ t.key =
        address_key d t.key dst_ip (destination-Plain d dst_ip to).address (at ∙ sym same_key)
          (N.address_size ue t.key t.key_read) in
      let (e, ran, x) =
        egress-Tunnelled r (λ k. m) d dst_ip b to
          (found_at m "dl_ue_map" dst_ip t.key b looked_up t.wrote.here) g in
      record {
        packet = e;
        ran = ran;
        tunnel =
            x.parsed
            ∙ ap (λ bs. some (gpdu 20 (from_bytes big bs))) (entry_teid teid t.peer qfi)
            ∙ ap (λ n. some (gpdu 20 n)) (from_bytes-to_bytes big 4 teid t.fits.0);
        towards =
            x.peer ∙ entry_peer teid t.peer qfi (N.address_size gnb t.peer t.peer_read) ∙ same_peer;
        inner = x.inner;
      }

-- For any two addresses that `inet_aton` accepts, a packet to the first with a destination to look
-- up, and a helper that makes the room where its documentation says, in a linear buffer; in any world
-- whose record of passed contents starts with the call, and whatever the kernel refuses: at every
-- moment of `install_dl_ue` the maps are as before, or the downlink program sends the packet towards
-- the second address, as a G-PDU that the uplink parser reads with the TEID that the agent was given,
-- and unchanged inside. After a normal end it does; an exception has changed nothing.
pub install_dl_ue_carries :
    (M : PinnedMaps) (N : Resolver) (ue : String) (teid : ℕ) (gnb : String) (qfi : ℕ)
    (key peer : Bytes) (r : Room) (d : Bytes) (dst_ip : ℕ) (w : M.World)
    → M.IsOpen w
    → M.passed w ≡ M.content w ∷ []
    → N.inet_aton ue ≡ ok key
    → N.inet_aton gnb ≡ ok peer
    → destination d ≡ some (some dst_ip)
    → take 4 (drop 30 d) ≡ key
    → Grows r d
    → Reaches M
        (λ m. (m ≡ M.content w) ⊎ Carried r d peer teid m)
        (λ _. Carried r d peer teid)
        (λ e m. m ≡ M.content w)
        (install_dl_ue M N ue teid gnb qfi w)
install_dl_ue_carries M N ue teid gnb qfi key peer r d dst_ip w o fresh hk hp to at g =
    let m0 : Maps = M.content w in
    let carried = λ (m : Maps) (t : TunnelEntry N ue teid gnb qfi m0 m).
      TunnelEntry-Carried N ue gnb teid qfi key peer hk hp r d dst_ip to at g m0 m t in
    Reaches-weaken M (λ m h. elim h [ inl same ↦ inl same | inr t ↦ inr (carried m t) ])
      (λ u m t. carried m t) (λ e m h. h.0) (install_dl_ue_whole M N ue teid gnb qfi w o fresh)

-- In the maps `m`, the packet `d` leaves in a tunnel from `address`.
pub record Sourced (r : Room) (d address : Bytes) (m : Maps) : Type 0 where
  pub packet : Bytes
  pub ran : upf_tc_egress r (λ k. m) d ≡ some (sent_as packet)
  pub source : take 4 (drop 26 packet) ≡ address

n3_address_is :
    (m : Maps) (address : Bytes)
    → m "upf_config_map" (le_bytes 4 0) ≡ some address
    → (length address ≡ 4) × All IsByte address
    → le_bytes 4 (n3_address m) ≡ address
unfolding n3_address map_lookup u32
n3_address_is m address there (size, h) =
    let all : take 4 address ≡ address = take_all 4 address (omega (arith, size)) in
    rw (there, n3_address) (rw all (word_bytes address (size, h)))

module _ (N : Resolver) (n3_addr : String) (address : Bytes)
    (address_read : N.inet_aton n3_addr ≡ ok address) (r : Room) (d : Bytes) (dst_ip : ℕ)
    (b : Bytes) (to : destination d ≡ some (some dst_ip)) (g : Grows r d) (m0 : Maps)
    (tunnel : map_lookup m0 "dl_ue_map" dst_ip ≡ some b) where
  ConfigEntry-Sourced : (m : Maps) → ConfigEntry N n3_addr m0 m → Sourced r d address m
  unfolding map_lookup
  ConfigEntry-Sourced m c =
      let same : c.address ≡ address = same_result (sym c.address_read ∙ address_read) in
      let table : m "dl_ue_map" ≡ m0 "dl_ue_map" =
        c.wrote.others "dl_ue_map" (ground (arith, eq_iff "dl_ue_map" "upf_config_map")) in
      let (e, ran, x) =
        egress-Tunnelled r (λ k. m) d dst_ip b to
          (ap (λ (t : Bytes → Option Bytes). t (le_bytes 4 dst_ip)) table ∙ tunnel) g in
      record {
        packet = e;
        ran = ran;
        source =
            x.source
            ∙ n3_address_is m c.address c.wrote.here
                (N.address_size n3_addr c.address c.address_read)
            ∙ same;
      }

-- For an address that `inet_aton` accepts, a packet with a destination to look up, and a helper that
-- makes the room where its documentation says, in a linear buffer; in any world that holds a tunnel
-- for the packet and whose record of passed contents starts with the call, and whatever the kernel
-- refuses: at every moment of `install_upf_config` the maps are as before, or the packet leaves in a
-- tunnel from this address. After a normal end it does; an exception has changed nothing.
pub install_upf_config_sources :
    (M : PinnedMaps) (N : Resolver) (n3_addr : String) (address : Bytes) (r : Room) (d : Bytes)
    (dst_ip : ℕ) (b : Bytes) (w : M.World)
    → M.IsOpen w
    → M.passed w ≡ M.content w ∷ []
    → N.inet_aton n3_addr ≡ ok address
    → destination d ≡ some (some dst_ip)
    → Grows r d
    → map_lookup (M.content w) "dl_ue_map" dst_ip ≡ some b
    → Reaches M
        (λ m. (m ≡ M.content w) ⊎ Sourced r d address m)
        (λ _. Sourced r d address)
        (λ e m. m ≡ M.content w)
        (install_upf_config M N n3_addr w)
install_upf_config_sources M N n3_addr address r d dst_ip b w o fresh ha to g tunnel =
    let m0 : Maps = M.content w in
    let sourced = λ (m : Maps) (c : ConfigEntry N n3_addr m0 m).
      ConfigEntry-Sourced N n3_addr address ha r d dst_ip b to g m0 tunnel m c in
    Reaches-weaken M (λ m h. elim h [ inl same ↦ inl same | inr c ↦ inr (sourced m c) ])
      (λ u m c. sourced m c) (λ e m h. h.0) (install_upf_config_whole M N n3_addr w o fresh)
