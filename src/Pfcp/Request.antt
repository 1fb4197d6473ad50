-- ===== src/Pfcp/Request.antt =====
-- The message that the client builds, with the constructors and arguments of the packet library that
-- the script names.
use ebpf_upf.Prelude.{ℕ, String}

mutual
  pub data Ie : Type 0 where
    create_far create_pdr forwarding_parameters pdi : Ies → Ie
    apply_action far_id pdr_id precedence : ℕ → Ie
    destination_interface source_interface network_instance outer_header_removal : String → Ie
    fteid fseid : ℕ → ℕ → String → Ie
    node_id : String → String → Ie

  pub data Ies : Type 0 where
    no_more : Ies
    ◌then◌ : Ie → Ies → Ies

infixr 40 ◌then◌
-- The header of a session establishment request, and its list of information elements.
pub record Message : Type 0 where
  pub version : ℕ
  pub s : ℕ
  pub seq : ℕ
  pub seid : ℕ
  pub spare_oct : ℕ
  pub ie_list : Ies

abbrev pub the_far : Ie
the_far = create_far (
    apply_action 1
    then far_id 2
    then forwarding_parameters
        (destination_interface "Access" then network_instance "access" then no_more)
    then no_more)

abbrev pub the_pdr : Ie
the_pdr = create_pdr (
    far_id 2
    then outer_header_removal "GTP-U/UDP/IPv4"
    then pdi (
        fteid 1 0x1001 "10.99.0.1"
        then network_instance "access"
        then source_interface "Access"
        then no_more)
    then pdr_id 2
    then precedence 100
    then no_more)

abbrev pub sess_est : Message
sess_est = record {
  version = 1;
  s = 1;
  seq = 10;
  seid = 0;
  spare_oct = 0;
  ie_list =
      the_far then the_pdr then fseid 1 2 "127.0.0.1" then node_id "FQDN" "test-smf" then no_more;
}
