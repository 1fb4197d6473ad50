-- ===== src/Examples/Link.antt =====
-- A gtp5g device on an operating system that hands out descriptors and plays back one reply, and a
-- whole run of the netlink client.
use ebpf_upf.Prelude.{ℕ, ◌+◌, ◌≡◌, refl, [], ◌∷◌, codes}
use ebpf_upf.Python.{Result, ok, err}
use ebpf_upf.Python.Struct.{
  Bytes, pack, to_bytes, le_bytes, unpack_from, split, from_bytes, le_value,
}
use ebpf_upf.Netlink.Replies.{reply_type, refuse_nonzero, errno_val, field}
use ebpf_upf.Netlink.Link.{link_nla, link_message}
use ebpf_upf.Netlink.Link.Reading.{Requests, link_message_read}
use ebpf_upf.Netlink.Link.Creation.{Os, create_gtp5g_link}
use ebpf_upf.Netlink.Link.Outcomes.{Exchanged, create_gtp5g_link_asks}

-- The next descriptor.
abbrev os : Bytes → Os
os reply = record {
  State = ℕ;
  socket = λ family type protocol n. (ok n, n + 1);
  setsockopt = λ fd level name value n. (ok tt, n);
  bind = λ fd address n. (ok tt, n);
  send = λ fd msg n. (ok tt, n);
  recv = λ fd size n. (ok reply, n);
  close = λ fd n. (ok tt, n);
  pid = 70000;
}

abbrev acknowledgement : Bytes
acknowledgement =
    36 ∷ 0 ∷ 0 ∷ 0 ∷ 2 ∷ 0 ∷ 0 ∷ 0 ∷ 112 ∷ 17 ∷ 0 ∷ 0 ∷ 0 ∷ 0 ∷ 0 ∷ 0 ∷ 0 ∷ 0 ∷ 0 ∷ 0 ∷ []

created : (create_gtp5g_link (os acknowledgement) (codes "gtp5gtest0") 2152 128 3).0 ≡ ok 3
unfolding create_gtp5g_link link_message link_nla pack to_bytes le_bytes reply_type refuse_nonzero
    errno_val field unpack_from split from_bytes le_value
created = refl

create_gtp5g_link_asks_example : Exchanged (os acknowledgement) (codes "gtp5gtest0") 128 3
create_gtp5g_link_asks_example =
    create_gtp5g_link_asks (os acknowledgement) (codes "gtp5gtest0") 2152 128 3 created

abbrev returned : Result Bytes → Bytes
returned (ok b) = b
returned (err e) = []

abbrev request : Bytes
request = returned (link_message (codes "gtp5gtest0") 128 3 70000)

built : link_message (codes "gtp5gtest0") 128 3 70000 ≡ ok request
unfolding link_message link_nla pack to_bytes le_bytes
built = refl

link_message_read_example : Requests (codes "gtp5gtest0") 128 3 70000 request
link_message_read_example = link_message_read (codes "gtp5gtest0") 128 3 70000 built
