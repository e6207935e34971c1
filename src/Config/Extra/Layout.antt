-- ===== src/Config/Extra/Layout.antt =====
-- The parts that `parse_extra` of extra.rs returns are the whole of the `extraData`, in order.
use helios_bsc.Prelude.{
  ℕ, ◌≡◌, Bool, true, false, Option, none, some, List, [], ◌∷◌, ◌++◌, Bytes, length,
}
use helios_bsc.Config.{ExtraDataVersion, pre_luban, luban, bohr}
use helios_bsc.Config.Extra.{SealingValidator, ParsedExtra}

-- Address and key of each record, one behind the other.
unfoldable pub print_records : List SealingValidator → Bytes
print_records [] = []
print_records (v ∷ vs) = v.address ++ (v.vote_key ++ print_records vs)

unfoldable pub print_addresses : List SealingValidator → Bytes
print_addresses [] = []
print_addresses (v ∷ vs) = v.address ++ print_addresses vs

unfoldable pub print_turn : Option ℕ → Bytes
print_turn none = []
print_turn (some t) = t ∷ []

-- An independent description of the layouts, as a printer.
unfoldable pub print_mid : ExtraDataVersion → Bool → ParsedExtra → Bytes
unfolding print_turn
print_mid version false p = p.attestation
print_mid pre_luban true p = print_addresses p.validators
print_mid luban true p =
    length p.validators
    ∷ (print_records p.validators ++ (print_turn p.turn_length ++ p.attestation))
print_mid bohr true p =
    length p.validators
    ∷ (print_records p.validators ++ (print_turn p.turn_length ++ p.attestation))

unfoldable pub print_extra : ExtraDataVersion → Bool → ParsedExtra → Bytes
print_extra version is_epoch p = p.vanity ++ (print_mid version is_epoch p ++ p.seal)

-- What `parse_mid` hands through, and what it takes apart.
record Kept (version : ExtraDataVersion) (is_epoch : Bool) (vanity next_fork_hash mid seal : Bytes)
    (p : ParsedExtra) : Type 0 where
  pub vanity_kept : p.vanity ≡ vanity
  pub hash_kept : p.next_fork_hash ≡ next_fork_hash
  pub seal_kept : p.seal ≡ seal
  pub printed : print_mid version is_epoch p ≡ mid
