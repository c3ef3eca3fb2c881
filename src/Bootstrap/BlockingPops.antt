-- ===== src/Bootstrap/BlockingPops.antt =====
-- node/src/bootstrap/ascending/ordered_blocking.rs: what popping leaves, and the dependency accounts that become known.
use mathlib.Core.Path.{subst}
use rsbanano_node.Prelude.{
  ℕ, true, ◌+◌, ◌-◌, ◌≤◌, ◌≡◌, refl, sym, ◌∙◌, ap, Option, none, some, List, [], ◌∷◌, ◌==◌, is_some,
  arith, Bool-cases, Option-cases, inl, inr,
}
use rsbanano_node.Prelude.Lists.{length}
use rsbanano_node.Prelude.Order.{
  Ord, nat_ord, lookup, insert, remove, insert-IsSorted, remove-IsSorted,
}
use rsbanano_node.Prelude.Order.Lookup.{same, same-true, same_refl, lookup-insert, lookup-remove}
use rsbanano_node.Prelude.Index.{
  push_index, without, count, IsIndex, length-without, values, drop_single, drop_single-drop_index,
}
use rsbanano_node.Prelude.Index.Entries.{
  IsSequence, put-IsSequence, rest-IsSequence, has, drop-has, move-has, keep-has,
}
use rsbanano_node.Core.Types.{Account, BlockHash}
use rsbanano_node.Bootstrap.Blocking.{
  BlockingEntry, OrderedBlocking, entry_priority, entry_account, remove_blocked, remove_blocking,
  pop_blocking, modify_one, modify_all, modify_dependency_account,
}
use rsbanano_node.Bootstrap.BlockingLaws.{IsBlocking, insert-IsKeyed, remove-IsKeyed}

module _ {P : Type 0} ⦃o : Ord P⦄ where
  -- What popping leaves: no account that was not there, and one less where one was popped.
  abbrev pub Popped : OrderedBlocking P → Option (BlockingEntry P) → OrderedBlocking P → Type 0
  Popped q popped q' =
      (pop_blocking q ≡ some (popped, q'))
      × IsBlocking q'
      × ((a : Account)
          → is_some (lookup a q'.blocked_by_account) ≡ true
          → is_some (lookup a q.blocked_by_account) ≡ true)
      × (length q'.blocked_sequence ≤ length q.blocked_sequence - 1)

  pop_front :
      (q : OrderedBlocking P) (k : Account) (rest : List Account) (entry : BlockingEntry P)
      → IsBlocking q
      → q.blocked_sequence ≡ k ∷ rest
      → lookup k q.blocked_by_account ≡ some entry
      → (popped : Option (BlockingEntry P)) × (q' : OrderedBlocking P) × Popped q popped q'
  unfolding pop_blocking remove_blocking remove_blocked length
  pop_front q k rest entry h c e =
      let m = q.blocked_by_account in
      let (i1, d1, l1) = drop-has entry_priority m k entry q.blocked_by_priority h.0 e h.3 in
      let (i2, d2, l2) = drop-has (λ v. v.dependency) m k entry q.by_dependency h.0 e h.4 in
      let (i3, d3, l3) =
        drop-has (λ v. v.dependency_account) m k entry q.by_dependency_account h.0 e h.5 in
      (
        some entry,
        record {
          blocked_by_account = remove k m;
          blocked_sequence = without k rest;
          blocked_by_priority = i1;
          by_dependency = i2;
          by_dependency_account = i3;
        },
        (
          rw (pop_blocking, c, remove_blocking, e, remove_blocked, h.1 k entry e, d1, d2, d3) refl,
          (
            remove-IsSorted k m h.0,
            remove-IsKeyed m k h.0 h.1,
            rest-IsSequence m k rest h.0 (subst (λ z. IsSequence m z) c h.2),
            l1,
            l2,
            l3,
          ),
          λ a there. ground (arith, lookup-remove k a m h.0, there),
          rw c (omega (arith, length-without k rest)),
        ),
      )

  pub pop_blocking-some :
      (q : OrderedBlocking P)
      → IsBlocking q
      → (popped : Option (BlockingEntry P)) × (q' : OrderedBlocking P) × Popped q popped q'
  unfolding pop_blocking length
  pop_blocking-some q h = go q.blocked_sequence refl
    where
      go :
          (sequenced : List Account)
          → q.blocked_sequence ≡ sequenced
          → (popped : Option (BlockingEntry P)) × (q' : OrderedBlocking P) × Popped q popped q'
      go [] c = (none, q, (ground (arith, c), h, λ a there. there, rw c (omega arith)))
      go (k ∷ rest) c = elim (Option-cases (lookup k q.blocked_by_account)) [
        | inl e ↦ ground (arith, h.2 k, c, e, same_refl k)
        | inr (entry, e) ↦ pop_front q k rest entry h c e
      ]

  -- The accounts stay the same where dependency accounts change.
  abbrev pub Modified : OrderedBlocking P → ℕ × OrderedBlocking P → Type 0
  Modified q r =
      IsBlocking r.1
      × ((a : Account)
          → is_some (lookup a r.1.blocked_by_account) ≡ is_some (lookup a q.blocked_by_account))
      × (r.1.blocked_sequence ≡ q.blocked_sequence)

  modify_one-some :
      (q : OrderedBlocking P) (account new_dependency_account : Account)
      → IsBlocking q
      → is_some (lookup account q.blocked_by_account) ≡ true
      → (r : ℕ × OrderedBlocking P) × (modify_one q account new_dependency_account ≡ some r)
        × Modified q r
  unfolding modify_one
  modify_one-some q account new_dependency_account h there =
      elim (Option-cases (lookup account q.blocked_by_account)) [
        | inl e ↦ ground (arith, there, e)
        | inr (entry, e) ↦ elim (Bool-cases (entry.dependency_account == new_dependency_account)) [
          | inl b ↦ ((0, q), rw (modify_one, e, b) refl, (h, λ a. refl, refl))
          | inr b ↦
              let m = q.blocked_by_account in
              let v : BlockingEntry P = record entry {
                dependency_account = new_dependency_account;
              } in
              let (index', dropped, left) =
                move-has (λ x. x.dependency_account) m account entry v q.by_dependency_account e
                  h.5 in
              let keyed = sym (h.1 account entry e) in
              let single =
                drop_single-drop_index (has (λ x. x.dependency_account) m) entry.dependency_account
                  account q.by_dependency_account h.5 (rw e (same_refl entry.dependency_account)) in
              (
                (
                  1,
                  record q {
                    blocked_by_account = insert account v m;
                    by_dependency_account =
                        push_index new_dependency_account (entry_account entry) index';
                  },
                ),
                rw
                    (
                      modify_one,
                      e,
                      b,
                      subst
                          (λ z.
                            drop_single entry.dependency_account z q.by_dependency_account
                            ≡ some index')
                          keyed (single ∙ dropped),
                    )
                    refl,
                (
                  (
                    insert-IsSorted account v m h.0,
                    insert-IsKeyed m account v (h.1 account entry e) h.1,
                    put-IsSequence m q.blocked_sequence account v h.2 (rw e refl),
                    keep-has entry_priority m account entry v q.blocked_by_priority e refl h.3,
                    keep-has (λ x. x.dependency) m account entry v q.by_dependency e refl h.4,
                    subst
                        (λ z.
                          IsIndex (has (λ x. x.dependency_account) (insert account v m))
                            (push_index new_dependency_account z index'))
                        keyed left,
                  ),
                  λ a. known a entry e v,
                  refl,
                ),
              )
        ]
      ]
    where
      known :
          (a : Account) (entry : BlockingEntry P)
          → lookup account q.blocked_by_account ≡ some entry
          → (v : BlockingEntry P)
          → is_some (lookup a (insert account v q.blocked_by_account))
            ≡ is_some (lookup a q.blocked_by_account)
      known a entry e v = elim (Bool-cases (same account a)) [
        | inl b ↦ ground (
          arith,
          lookup-insert account a v q.blocked_by_account,
          b,
          ap (λ z. lookup z q.blocked_by_account) (same-true account a b),
          e,
        )
        | inr b ↦ ground (arith, lookup-insert account a v q.blocked_by_account, b)
      ]

  -- All accounts of a list are blocked.
  abbrev pub AllBlocked : OrderedBlocking P → List Account → Type 0
  AllBlocked q [] = Unit
  AllBlocked q (a ∷ accounts) =
      (is_some (lookup a q.blocked_by_account) ≡ true) × AllBlocked q accounts

  AllBlocked-same :
      (q q' : OrderedBlocking P) (accounts : List Account)
      → ((a : Account)
          → is_some (lookup a q'.blocked_by_account) ≡ is_some (lookup a q.blocked_by_account))
      → AllBlocked q accounts
      → AllBlocked q' accounts
  AllBlocked-same q q' [] same_accounts all = tt
  AllBlocked-same q q' (a ∷ accounts) same_accounts all =
      (same_accounts a ∙ all.0, AllBlocked-same q q' accounts same_accounts all.1)

  modify_all-some :
      (q : OrderedBlocking P) (accounts : List Account) (new_dependency_account : Account)
      → IsBlocking q
      → AllBlocked q accounts
      → (r : ℕ × OrderedBlocking P) × (modify_all q accounts new_dependency_account ≡ some r)
        × Modified q r
  unfolding modify_all
  modify_all-some q [] new_dependency_account h all = ((0, q), refl, (h, λ a. refl, refl))
  modify_all-some q (a ∷ accounts) new_dependency_account h all =
      let (r, ran, first) = modify_one-some q a new_dependency_account h all.0 in
      let (t, rest_ran, rest) =
        modify_all-some r.1 accounts new_dependency_account first.0
          (AllBlocked-same q r.1 accounts first.1 all.1) in
      (
        (r.0 + t.0, t.1),
        rw (modify_all, ran, rest_ran) refl,
        (rest.0, λ b. rest.1 b ∙ first.1 b, rest.2 ∙ first.2),
      )

  pub counted-AllBlocked :
      (q : OrderedBlocking P) (accounts : List Account)
      → ((a : Account) → 1 ≤ count a accounts → is_some (lookup a q.blocked_by_account) ≡ true)
      → AllBlocked q accounts
  counted-AllBlocked q [] known = tt
  counted-AllBlocked q (a ∷ accounts) known = (
    known a (ground (arith, same_refl a)),
    counted-AllBlocked q accounts (λ b some_b. known b (ground (arith, some_b))),
  )

  -- Making the dependency account known never panics, and leaves the same accounts blocked.
  pub modify_dependency_account-some :
      (q : OrderedBlocking P) (dependency : BlockHash) (new_dependency_account : Account)
      → IsBlocking q
      → (r : ℕ × OrderedBlocking P) × (modify_dependency_account q dependency new_dependency_account
          ≡ some r)
        × Modified q r
  unfolding modify_dependency_account
  modify_dependency_account-some q dependency new_dependency_account h =
      modify_all-some q (values dependency q.by_dependency) new_dependency_account h (
        counted-AllBlocked q (values dependency q.by_dependency)
          (λ a some_a. ground (arith, h.4.1 dependency a, some_a)))
