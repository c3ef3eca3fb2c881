-- ===== src/Insertion/After.antt =====
-- The account and the pending table after an insertion.
use rsbanano_node.Prelude.{◌≡◌, ◌≢◌, some, arith, Option-cases, inl, inr}
use rsbanano_node.Prelude.Table.{
  Table, IsUnique, get, erase, nat_eq, get-put_self, get-put_ne, get-erase_ne, put-IsUnique,
  erase-IsUnique,
}
use rsbanano_node.Core.Types.{Account}
use rsbanano_node.Core.Saved.{AccountInfo, pending_keys}
use rsbanano_node.Validation.Helpers.{
  BlockValidator, new_account_info, delete_received_pending_info, new_pending_info,
}
use rsbanano_node.Insertion.Inserter.{Pending}
use rsbanano_node.Insertion.Inverse.{accounts_after, pending_taken, pending_after}

pub accounts_after-IsUnique :
    (v : BlockValidator) (t : Table Account AccountInfo)
    → IsUnique t
    → IsUnique (accounts_after v t)
accounts_after-IsUnique v t u = ground (
  arith,
  put-IsUnique v.account (new_account_info v) t u,
  put-IsUnique v.account (new_account_info v) (erase v.account t) (erase-IsUnique v.account t u),
)

pub accounts_after-other :
    (v : BlockValidator) (t : Table Account AccountInfo) (a : Account)
    → v.account ≢ a
    → get a (accounts_after v t) ≡ get a t
accounts_after-other v t a ne = ground (
  arith,
  get-put_ne v.account a (new_account_info v) t ne,
  get-put_ne v.account a (new_account_info v) (erase v.account t) ne,
  get-erase_ne v.account a t ne,
)

pub accounts_after_self :
    (v : BlockValidator) (t : Table Account AccountInfo)
    → get v.account (accounts_after v t) ≡ some (new_account_info v)
accounts_after_self v t = get-put_self v.account (new_account_info v) _

pending_taken-IsUnique :
    (v : BlockValidator) (t : Pending) → IsUnique t → IsUnique (pending_taken v t)
pending_taken-IsUnique v t u = elim (Option-cases (delete_received_pending_info v)) [
  | inl e ↦ ground arith
  | inr (k, e) ↦ ground (arith, erase-IsUnique k t u)
]

pub pending_after-IsUnique :
    (v : BlockValidator) (t : Pending) → IsUnique t → IsUnique (pending_after v t)
pending_after-IsUnique v t u = elim (Option-cases (new_pending_info v)) [
  | inl e ↦ ground (arith, pending_taken-IsUnique v t u)
  | inr ((k, p), e) ↦
      ground (arith, put-IsUnique k p (pending_taken v t) (pending_taken-IsUnique v t u))
]
