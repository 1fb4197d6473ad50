-- ===== src/Agent/Downlink/Install.antt =====
-- Installing the tunnel of a UE and the address of the UPF: one entry, written whole or not at all.
use mathlib.Core.List.{append-nil}
use ebpf_upf.Prelude.{
  ℕ, ◌<◌, ◌^◌, ◌≡◌, sym, ◌∙◌, ap, subst, String, [], ◌∷◌, ◌++◌, length, All, length-append, ◌⊎◌,
  inl, inr, arith,
}
use ebpf_upf.Python.{Exception, ok, os_error, struct_error, value_error}
use ebpf_upf.Python.Struct.{Bytes, IsByte, little, big, to_bytes, le_bytes, pack}
use ebpf_upf.Python.Struct.RoundTrip.{pack_inv, length-to_bytes, to_bytes-IsByte, All-append}
use ebpf_upf.Maps.{Maps, PinnedMaps, Fits, Wrote}
use ebpf_upf.Maps.Logic.{Triple, Triple-update}
use ebpf_upf.Agent.Encoders.{u32_format}
use ebpf_upf.Agent.Downlink.{Resolver, IsAddressError, half_pair_format}

-- The exceptions that may be: an error of a system call or of an address, or `struct.error` with a
-- reason.
abbrev pub HasReason : Type 0 → Exception → Type 0
HasReason Fitting (os_error x) = Unit
HasReason Fitting value_error = Unit
HasReason Fitting struct_error = ¬ Fitting
HasReason Fitting _ = ⊥

-- An exception leaves the maps alone.
abbrev pub Declined : Type 0 → Maps → Exception → Maps → Type 0
Declined Fitting m0 e m = (m ≡ m0) × HasReason Fitting e

pub address-HasReason : (F : Type 0) (e : Exception) → IsAddressError e → HasReason F e
address-HasReason F e (inl (x, h)) = subst (HasReason F) (sym h) tt
address-HasReason F e (inr h) = subst (HasReason F) (sym h) tt

pub struct-HasReason : {F : Type 0} (e : Exception) → e ≡ struct_error → ¬ F → HasReason F e
struct-HasReason {F} e h unfit = subst (HasReason F) (sym h) unfit

-- The value of the entry, `struct dl_ue_val`.
abbrev pub dl_ue_bytes : ℕ → Bytes → ℕ → Bytes
dl_ue_bytes teid peer qfi =
    (to_bytes big 4 teid ++ peer) ++ (to_bytes little 2 qfi ++ to_bytes little 2 0)

pub one_field : (v : ℕ) {b : Bytes} → pack big u32_format (v ∷ []) ≡ ok b → b ≡ to_bytes big 4 v
one_field v {b} h =
    let (tl, fits, end, e) = pack_inv big 4 [] v [] h in
    let nothing : tl ≡ [] = unfold pack in cc in
    e ∙ ap (λ t. to_bytes big 4 v ++ t) nothing ∙ append-nil (to_bytes big 4 v)

pub two_fields :
    (v : ℕ) {b : Bytes}
    → pack little half_pair_format (v ∷ 0 ∷ []) ≡ ok b
    → b ≡ to_bytes little 2 v ++ to_bytes little 2 0
two_fields v {b} h =
    let (tl, fits, next, e) = pack_inv little 2 (2 ∷ []) v (0 ∷ []) h in
    let (tl', fits', end, e') = pack_inv little 2 [] 0 [] next in
    let nothing : tl' ≡ [] = unfold pack in cc in
    e
    ∙ ap (λ t. to_bytes little 2 v ++ t)
        (e' ∙ ap (λ t. to_bytes little 2 0 ++ t) nothing ∙ append-nil (to_bytes little 2 0))

pub dl_ue-Fits :
    (teid qfi : ℕ) (key peer : Bytes)
    → length key ≡ 4
    → (length peer ≡ 4) × All IsByte peer
    → Fits "dl_ue_map" key (dl_ue_bytes teid peer qfi)
dl_ue-Fits teid qfi key peer hk (hp, bytes) = (
  hk,
  omega (
    arith,
    hp,
    length-append (to_bytes big 4 teid ++ peer) (to_bytes little 2 qfi ++ to_bytes little 2 0),
    length-append (to_bytes big 4 teid) peer,
    length-append (to_bytes little 2 qfi) (to_bytes little 2 0),
    length-to_bytes big 4 teid,
    length-to_bytes little 2 qfi,
    length-to_bytes little 2 0,
  ),
  All-append (to_bytes big 4 teid ++ peer) (to_bytes little 2 qfi ++ to_bytes little 2 0)
      (All-append (to_bytes big 4 teid) peer (to_bytes-IsByte big 4 teid) bytes)
      (All-append (to_bytes little 2 qfi) (to_bytes little 2 0) (to_bytes-IsByte little 2 qfi)
        (to_bytes-IsByte little 2 0)),
)

module _ (M : PinnedMaps) (m0 : Maps) (F : Type 0) (G : Maps → Type 0) where
  -- One update from the maps `m0`, by which `G` holds.
  pub put_entry :
      (n : String) (k b : Bytes)
      → Fits n k b
      → ((m : Maps) → Wrote n k b m0 m → G m)
      → Triple M (λ m. (m ≡ m0) ⊎ G m) (λ m. m ≡ m0) (M.update n k b) (λ _. G) (Declined F m0)
  put_entry n k b fits holds =
      Triple-update M n k b fits (λ m same. inl same) (λ m g. inr g) (λ x m same. (same, tt))
        (λ m m' same w. holds m' (subst (λ c. Wrote n k b c m') same w))

-- The tunnel's entry, as the only one written since the maps were `m0`.
pub record TunnelEntry (N : Resolver) (ue : String) (teid : ℕ) (gnb : String) (qfi : ℕ)
    (m0 m : Maps) : Type 0 where
  pub key : Bytes
  pub peer : Bytes
  pub key_read : N.inet_aton ue ≡ ok key
  pub peer_read : N.inet_aton gnb ≡ ok peer
  pub fits : (teid < 2 ^ 32) × (qfi < 2 ^ 16)
  pub wrote : Wrote "dl_ue_map" key (dl_ue_bytes teid peer qfi) m0 m

-- The entry with the UPF's own address.
pub record ConfigEntry (N : Resolver) (n3_addr : String) (m0 m : Maps) : Type 0 where
  pub address : Bytes
  pub address_read : N.inet_aton n3_addr ≡ ok address
  pub wrote : Wrote "upf_config_map" (le_bytes 4 0) address m0 m
