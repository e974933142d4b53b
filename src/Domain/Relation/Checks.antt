-- ===== src/Domain/Relation/Checks.antt =====
-- The checks that both `sync_*` methods of the relations run over the server's list.
use openim_sdk_core_rust.Base.{String, false, List, ◌≡◌, ap, arith, All, All-imp}
use openim_sdk_core_rust.Base.Keys.{string_eq}
use openim_sdk_core_rust.Base.Text.{is_empty}
use openim_sdk_core_rust.Errors.{ok, each, each-ok, ◌>>◌}
use openim_sdk_core_rust.Domain.Relation.{ensure_owner, ensure_pair}

module _ {T : Type 0} (owner_of name_of : T → String) (owner : String) where
  -- what the server may send to one owner: items of that owner, with an identifier
  abbrev pub IsOwnedBy : T → Type 0
  IsOwnedBy v = (owner_of v ≡ owner) × (is_empty (name_of v) ≡ false)

  pub owner_checks :
      (server : List T)
      → is_empty owner ≡ false
      → All IsOwnedBy server
      → each (λ v. ensure_owner owner (owner_of v) >> ensure_pair (owner_of v) (name_of v)) server
        ≡ ok tt
  owner_checks server there all = each-ok _ server (
      All-imp IsOwnedBy _
        (λ v h. ground (arith, string_eq.beq_iff owner (owner_of v), ap is_empty h.0)) server all)
