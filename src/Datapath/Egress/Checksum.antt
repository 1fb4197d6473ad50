-- ===== src/Datapath/Egress/Checksum.antt =====
-- The header checksum of the outer IPv4 header, against its definition in RFC 791 and RFC 1071: the
-- words in network byte order add up to zero in one's complement arithmetic.
use ebpf_upf.Prelude.{ℕ, ◌+◌, ◌-◌, ◌*◌, ◌%◌, ◌^◌, ◌<◌, ◌≡◌, refl, sym, subst, [], ◌∷◌, arith}
use ebpf_upf.Python.Struct.{Bytes, le_bytes, to_bytes}
use ebpf_upf.Datapath.Egress.{sum16, fold16, ip_checksum20, outer_ip}

-- The sum of the words of a header as a receiver of the packet reads them.
abbrev pub network_sum : Bytes → ℕ
network_sum [] = 0
network_sum (hi ∷ []) = 256 * hi
network_sum (hi ∷ lo ∷ rest) = 256 * hi + lo + network_sum rest

-- What RFC 1071 asks of a header with a checksum: a sum of zero, of which -0 is the form that a sum
-- of words that are not all zero takes.
abbrev pub Verifies : Bytes → Type 0
Verifies hdr = (0 < network_sum hdr) × (network_sum hdr % 65535 ≡ 0)

-- The complement of the folded sum.
complement : (s : ℕ) → s < 2 ^ 20 → (s + (65535 - fold16 (fold16 s) % 65536)) % 65535 ≡ 0
unfolding fold16
complement s h = omega arith

-- The bytes that stand second in a word.
seconds : Bytes → ℕ
seconds [] = 0
seconds (b ∷ []) = 0
seconds (b ∷ c ∷ rest) = c + seconds rest

-- The byte order of the host does not matter: RFC 1071, 2 (B).
swapped : (bs : Bytes) → 256 * sum16 bs ≡ network_sum bs + 65535 * seconds bs
unfolding sum16 seconds
swapped [] = refl
swapped (b ∷ []) = omega arith
swapped (b ∷ c ∷ rest) = omega (arith, swapped rest)

network_sum_divides : (bs : Bytes) → sum16 bs % 65535 ≡ 0 → network_sum bs % 65535 ≡ 0
network_sum_divides bs h = omega (arith, swapped bs)

sum16-outer_ip :
    (check total_len saddr daddr : ℕ)
    → check < 65536
    → sum16 (outer_ip check total_len saddr daddr)
      ≡ sum16 (outer_ip 0 total_len saddr daddr) + check
unfolding sum16 outer_ip to_bytes le_bytes
sum16-outer_ip check total_len saddr daddr h = omega arith

sum16_small : (total_len saddr daddr : ℕ) → sum16 (outer_ip 0 total_len saddr daddr) < 2 ^ 20
unfolding sum16 outer_ip to_bytes le_bytes
sum16_small total_len saddr daddr = omega arith

starts_positive :
    (check total_len saddr daddr : ℕ) → 0 < network_sum (outer_ip check total_len saddr daddr)
unfolding outer_ip to_bytes le_bytes
starts_positive check total_len saddr daddr = omega arith

small : (hdr : Bytes) → ip_checksum20 hdr < 65536
unfolding ip_checksum20
small hdr = omega arith

-- For all lengths and addresses: a receiver that follows RFC 1071, in network byte order, accepts the
-- checksum of the outer IPv4 header, although the program adds the words in the order of the host.
pub outer_ip-Verifies :
    (total_len saddr daddr : ℕ)
    → Verifies (outer_ip (ip_checksum20 (outer_ip 0 total_len saddr daddr)) total_len saddr daddr)
unfolding ip_checksum20
outer_ip-Verifies total_len saddr daddr =
    let s : ℕ = sum16 (outer_ip 0 total_len saddr daddr) in
    let check : ℕ = 65535 - fold16 (fold16 s) % 65536 in
    let sums : (s + check) % 65535 ≡ 0 = complement s (sum16_small total_len saddr daddr) in
    let hdr : Bytes = outer_ip check total_len saddr daddr in
    let whole : sum16 hdr ≡ s + check = sum16-outer_ip check total_len saddr daddr (omega arith) in
    (
      starts_positive check total_len saddr daddr,
      network_sum_divides hdr (subst (λ n. n % 65535 ≡ 0) (sym whole) sums),
    )
