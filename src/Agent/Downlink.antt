-- ===== src/Agent/Downlink.antt =====
-- The downlink entries of loader/agent.py: the tunnel of a UE and the address of the UPF.
pub mod Install
pub mod Whole
use ebpf_upf.Prelude.{ℕ, ℤ, String, ◌≡◌, ◌⊎◌, [], ◌∷◌, ◌++◌, length, All}
use ebpf_upf.Python.{Exception, Result, ok, err, os_error, value_error}
use ebpf_upf.Python.Exec.{Exec, lift, ◌>>=◌}
use ebpf_upf.Python.Struct.{Bytes, IsByte, Format, little, big, pack}
use ebpf_upf.Maps.{PinnedMaps}
use ebpf_upf.Agent.Encoders.{u32_format, enc_u32}
use ebpf_upf.Agent.Tables.{map_update}

-- How `inet_aton` refuses a text.
abbrev pub IsAddressError : Exception → Type 0
IsAddressError e = ((x : ℤ) × (e ≡ os_error x)) ⊎ (e ≡ value_error)

-- The C library's `inet_aton`, which `socket.inet_aton` calls: four bytes, or an exception.
pub record Resolver : Type 0 where
  pub inet_aton : String → Result Bytes
  pub address_size :
      (dotted : String) (b : Bytes) → inet_aton dotted ≡ ok b → (length b ≡ 4) × All IsByte b
  pub address_error :
      (dotted : String) (e : Exception) → inet_aton dotted ≡ err e → IsAddressError e

abbrev pub half_pair_format : Format
half_pair_format = 2 ∷ 2 ∷ []

abbrev pub ip_to_be32_bytes : Resolver → String → Result Bytes
ip_to_be32_bytes N dotted = N.inet_aton dotted

module _ (M : PinnedMaps) (N : Resolver) where
  open M use {World}

  unfoldable pub install_dl_ue : String → ℕ → String → ℕ → Exec World (Unit {0})
  install_dl_ue ue_ip_dotted teid gnb_ip_dotted qfi = do
    key ← lift (ip_to_be32_bytes N ue_ip_dotted)
    teid_be ← lift (pack big u32_format (teid ∷ []))
    gnb_be ← lift (ip_to_be32_bytes N gnb_ip_dotted)
    rest ← lift (pack little half_pair_format (qfi ∷ 0 ∷ []))
    map_update M "dl_ue_map" key ((teid_be ++ gnb_be) ++ rest)

  unfoldable pub install_upf_config : String → Exec World (Unit {0})
  install_upf_config n3_addr_dotted = do
    key ← lift (enc_u32 0)
    val ← lift (ip_to_be32_bytes N n3_addr_dotted)
    map_update M "upf_config_map" key val
