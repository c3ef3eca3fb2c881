-- ===== src/Bootstrap/Sync.antt =====
-- node/src/bootstrap/ascending/account_sets.rs: that `sync_dependencies` finds every account it walks
-- over, and keeps both sets well formed.
use rsbanano_node.Prelude.{
  ℕ, true, not, ◌&&◌, ◌+◌, ◌≤◌, ◌≡◌, refl, some, List, [], ◌∷◌, ◌++◌, ltb, leb, if◌then◌else◌,
  is_some, arith, Bool-cases, Option-cases, inl, inr,
}
use rsbanano_node.Prelude.Order.{Ord, nat_ord, TreeMap, lookup, range_from, IsSorted}
use rsbanano_node.Prelude.Order.Lookup.{lookup-tail}
use rsbanano_node.Prelude.Index.{values, count}
use rsbanano_node.Core.Types.{Account}
use rsbanano_node.Bootstrap.Priorities.{OrderedPriorities, prioritized, priorities_len, flatten}
use rsbanano_node.Bootstrap.PriorityLaws.{IsPriorities}
use rsbanano_node.Bootstrap.Blocking.{OrderedBlocking, blocked}
use rsbanano_node.Bootstrap.BlockingPops.{AllBlocked, counted-AllBlocked}
use rsbanano_node.Bootstrap.AccountSets.{
  AccountSets, AccountSetsConfig, PriorityArith, priority_set_impl, sync_loop, sync_dependencies,
}
use rsbanano_node.Bootstrap.Trim.{IsDisjoint, IsSets, trim_overflow-IsSets}
use rsbanano_node.Bootstrap.SetLaws.{priority_set_impl-well}

module _ {P : Type 0} ⦃o : Ord P⦄ where
  -- The values of an index are blocked accounts.
  abbrev IsKnown : OrderedBlocking P → TreeMap Account (List Account) → Type 0
  IsKnown q m =
      (k a : Account) → 1 ≤ count a (values k m) → is_some (lookup a q.blocked_by_account) ≡ true

  tail-IsKnown :
      (q : OrderedBlocking P) (j : Account) (accs : List Account)
      (m : TreeMap Account (List Account))
      → IsSorted ((j, accs) ∷ m)
      → IsKnown q ((j, accs) ∷ m)
      → IsKnown q m
  tail-IsKnown q j accs m sorted known k a some_a = elim (lookup-tail j k accs m sorted) [
    | inl e ↦ known k a (rw e some_a)
    | inr e ↦ ground (arith, some_a, e)
  ]

  AllBlocked-++ :
      (q : OrderedBlocking P) (xs ys : List Account)
      → AllBlocked q xs
      → AllBlocked q ys
      → AllBlocked q (xs ++ ys)
  AllBlocked-++ q [] ys first rest = rest
  AllBlocked-++ q (x ∷ xs) ys first rest = (first.0, AllBlocked-++ q xs ys first.1 rest)

  flatten-AllBlocked :
      (q : OrderedBlocking P) (m : TreeMap Account (List Account))
      → IsSorted m
      → IsKnown q m
      → AllBlocked q (flatten m)
  unfolding lookup
  flatten-AllBlocked q [] sorted known = tt
  flatten-AllBlocked q ((j, accs) ∷ m) sorted known =
      AllBlocked-++ q accs (flatten m)
        (counted-AllBlocked q accs (λ a some_a. known j a (rw (nat_ord.lt_irrefl j) some_a)))
        (flatten-AllBlocked q m sorted.1 (tail-IsKnown q j accs m sorted known))

  range-AllBlocked :
      (q : OrderedBlocking P) (k : Account) (m : TreeMap Account (List Account))
      → IsSorted m
      → IsKnown q m
      → AllBlocked q (flatten (range_from k m))
  unfolding range_from
  range-AllBlocked q k [] sorted known = tt
  range-AllBlocked q k ((j, accs) ∷ m) sorted known = elim (Bool-cases (ltb j k)) [
    | inl b ↦ rw b (range-AllBlocked q k m sorted.1 (tail-IsKnown q j accs m sorted known))
    | inr b ↦ rw b (flatten-AllBlocked q ((j, accs) ∷ m) sorted known)
  ]

  module _ (arith_of : PriorityArith P) where
    sync_loop-some :
        (config : AccountSetsConfig) (b : OrderedBlocking P) (accounts : List Account)
        (p : OrderedPriorities P) (inserted insert_failed : ℕ)
        → AllBlocked b accounts
        → IsPriorities p
        → IsDisjoint p b
        → (i f : ℕ) × (p' : OrderedPriorities P) × (sync_loop arith_of config b accounts p inserted
              insert_failed
            ≡ some (i, f, p'))
          × IsPriorities p'
          × IsDisjoint p' b
    unfolding sync_loop
    sync_loop-some config b [] p inserted insert_failed all well apart =
        (inserted, insert_failed, p, refl, well, apart)
    sync_loop-some config b (a ∷ accounts) p inserted insert_failed all well apart =
        elim (Option-cases (lookup a b.blocked_by_account)) [
          | inl e ↦ absurd (ground (arith, all.0, e))
          | inr (entry, e) ↦ elim (Bool-cases (leb config.priorities_max (priorities_len p))) [
            | inl g ↦ (inserted, insert_failed, p, rw (e, g) refl, well, apart)
            | inr g ↦
                let dep = entry.dependency_account in
                elim (Bool-cases (not (blocked b dep) && not (prioritized p dep))) [
                  | inl y ↦
                      let set = priority_set_impl arith_of dep b p in
                      let set_well = priority_set_impl-well arith_of dep b p well apart in
                      let (i, f, p', ran, well', apart') =
                        sync_loop-some config b accounts set.1
                          (if set.0 then inserted + 1 else inserted)
                          (if set.0 then insert_failed else insert_failed + 1) all.1 set_well.0
                          set_well.1 in
                      (i, f, p', rw (e, g, y) ran, well', apart')
                  | inr y ↦
                      let (i, f, p', ran, well', apart') =
                        sync_loop-some config b accounts p inserted insert_failed all.1 well
                          apart in
                      (i, f, p', rw (e, g, y) ran, well', apart')
                ]
          ]
        ]

    pub sync_dependencies-IsSets :
        (s : AccountSets P)
        → IsSets s
        → (i f : ℕ) × (t : AccountSets P) × (sync_dependencies arith_of s ≡ some (i, f, t))
          × IsSets t
    unfolding sync_dependencies
    sync_dependencies-IsSets s h =
        let index = s.blocking.by_dependency_account in
        let known : IsKnown s.blocking index =
          λ k a some_a. ground (arith, h.0.1.5.1 k a, some_a) in
        let (i, f, p, ran, well, apart) =
          sync_loop-some s.config s.blocking (flatten (range_from 1 index)) s.priorities 0 0
            (range-AllBlocked s.blocking 1 index h.0.1.5.0 known) h.0.0 h.0.2 in
        let (t, trimmed, kept) =
          trim_overflow-IsSets (record s { priorities = p }) (well, h.0.1, apart) in
        (i, f, t, rw ran (rw trimmed refl), kept)
