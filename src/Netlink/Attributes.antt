-- ===== src/Netlink/Attributes.antt =====
-- Netlink attributes as results_native/gtp5g_baseline/gtp5g_genl.py writes them: a header of length
-- and type, the payload, and padding to four bytes.
pub mod Reading
pub mod Carries
use ebpf_upf.Prelude.{ℕ, ◌+◌, ◌-◌, ◌%◌, List, [], ◌∷◌, ◌++◌, length, replicate}
use ebpf_upf.Python.{Result, ok, ◌>>=◌}
use ebpf_upf.Python.Struct.{Bytes, Format, little, big, pack}

abbrev pub nla_format : Format
nla_format = 2 ∷ 2 ∷ []

abbrev pub padding : ℕ → ℕ
padding len = (4 - len % 4) % 4

unfoldable pub nla : ℕ → Bytes → Result Bytes
nla nla_type payload = do
  header ← pack little nla_format ((4 + length payload) ∷ nla_type ∷ [])
  ok ((header ++ payload) ++ replicate (padding (4 + length payload)) 0)

-- `b"".join`
abbrev pub join : List Bytes → Bytes
join [] = []
join (b ∷ bs) = b ++ join bs

abbrev pub nla_nested : ℕ → List Bytes → Result Bytes
nla_nested nla_type attrs = nla nla_type (join attrs)

abbrev pub nla_u8 : ℕ → ℕ → Result Bytes
nla_u8 nla_type value = do payload ← pack little (1 ∷ []) (value ∷ []); nla nla_type payload

abbrev pub nla_u16 : ℕ → ℕ → Result Bytes
nla_u16 nla_type value = do payload ← pack little (2 ∷ []) (value ∷ []); nla nla_type payload

abbrev pub nla_u32 : ℕ → ℕ → Result Bytes
nla_u32 nla_type value = do payload ← pack little (4 ∷ []) (value ∷ []); nla nla_type payload

abbrev pub nla_be32 : ℕ → ℕ → Result Bytes
nla_be32 nla_type value = do payload ← pack big (4 ∷ []) (value ∷ []); nla nla_type payload
