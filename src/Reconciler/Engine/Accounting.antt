-- ===== src/Reconciler/Engine/Accounting.antt =====
-- Every planned write is attempted once, and counted once.
use gcplane.Base.{
  ℕ, ◌+◌, String, false, ◌≡◌, sym, ◌∙◌, List, [], ◌∷◌, ◌++◌, Bool-cases, inl, inr, Result-cases,
  Option, none, some, arith, if◌then◌else◌, contains, length, length-append,
}
use gcplane.Manifest.Kind.{ResourceKind}
use gcplane.Manifest.Resource.{Resource}
use gcplane.Reconciler.Types.{Change, ApplyResult, add_result, ResourceInfo, Provider, Runtime}
use gcplane.Reconciler.Execute.{is_skipped, outcome_result, execute_changes}
use gcplane.Reconciler.Prune.{
  kept_kinds, is_kept, delete_change, prune_one, prune_remotes, prune_kind, prune_kinds,
}

-- How many changes the execute phase does not pass over.
abbrev pub attempts : List Change → ℕ
attempts [] = 0
attempts (c ∷ cs) = (if is_skipped c then 0 else 1) + attempts cs

pub attempts-append : (xs ys : List Change) → attempts (xs ++ ys) ≡ attempts xs + attempts ys
attempts-append [] ys = omega arith
attempts-append (c ∷ xs) ys = omega (arith, attempts-append xs ys)

-- A result in which `n` calls are counted, and each failure has its line.
pub record IsBalanced (n : ℕ) (r : ApplyResult) : Type 0 where
  pub total : r.applied + r.failed ≡ n
  pub lines : length r.errors ≡ r.failed

outcome-IsBalanced :
    (kind : ResourceKind) (name : String) (o : Option String)
    → IsBalanced 1 (outcome_result kind name o)
unfolding outcome_result
outcome-IsBalanced kind name none = omega arith
outcome-IsBalanced kind name (some e) = omega arith

pub add_result-IsBalanced :
    (m n : ℕ) (a b : ApplyResult)
    → IsBalanced m a
    → IsBalanced n b
    → IsBalanced (m + n) (add_result a b)
add_result-IsBalanced m n a b ha hb = record {
  total = omega (arith, ha.total, hb.total);
  lines = length-append a.errors b.errors ∙ omega (arith, ha.lines, hb.lines);
}

pub reindex : {m n : ℕ} {r : ApplyResult} → m ≡ n → IsBalanced m r → IsBalanced n r
reindex e h = record { total = h.total ∙ e; lines = h.lines }

module _ (R : Runtime) (P : Provider) where
  pub execute_changes-IsBalanced :
      (cs : List Change) (rs : List Resource) (s : P.State) (acc : ApplyResult) (n : ℕ)
      → length cs ≡ length rs
      → IsBalanced n acc
      → IsBalanced (n + attempts cs) (execute_changes R P s acc cs rs).0
  unfolding execute_changes
  execute_changes-IsBalanced [] rs s acc n l h = reindex (omega arith) h
  execute_changes-IsBalanced (c ∷ cs) [] s acc n l h = absurd (omega arith)
  execute_changes-IsBalanced (c ∷ cs) (r ∷ rs) s acc n l h = elim (Bool-cases (is_skipped c)) [
    | inl e ↦
        rw (e, execute_changes)
          (reindex (omega arith) (execute_changes-IsBalanced cs rs s acc n (omega arith) h))
    | inr e ↦
        rw (e, execute_changes)
          (reindex (omega arith) (
            execute_changes-IsBalanced cs rs _ (add_result acc (outcome_result c.kind c.name _))
              (n + 1) (omega arith)
              (add_result-IsBalanced n 1 acc _ h (outcome-IsBalanced c.kind c.name _))))
  ]

module _ (P : Provider) (resources : List Resource) where
  -- The deletions so far and their result.
  abbrev PruneBalanced : List Change × ApplyResult × P.State → Type 0
  PruneBalanced out = IsBalanced (length out.0) (out.1)

  prune_remotes-IsBalanced :
      (remotes : List ResourceInfo) (kind : ResourceKind) (s : P.State) (changes : List Change)
      (acc : ApplyResult)
      → IsBalanced (length changes) acc
      → PruneBalanced (prune_remotes P resources false kind s changes acc remotes)
  unfolding prune_remotes prune_one
  prune_remotes-IsBalanced [] kind s changes acc h = h
  prune_remotes-IsBalanced (r ∷ rs) kind s changes acc h =
      elim (Bool-cases (is_kept resources kind r)) [
        | inl e ↦ rw (e, prune_remotes) (prune_remotes-IsBalanced rs kind s changes acc h)
        | inr e ↦
            rw (e, prune_remotes)
              (prune_remotes-IsBalanced rs kind _ (changes ++ delete_change kind r.name ∷ []) _ (
                reindex (sym (length-append changes _)) (
                  add_result-IsBalanced (length changes) 1 acc _ h
                    (outcome-IsBalanced kind r.name _))))
      ]

  prune_kind-IsBalanced :
      (s : P.State) (changes : List Change) (acc : ApplyResult) (kind : ResourceKind)
      → IsBalanced (length changes) acc
      → PruneBalanced (prune_kind P resources false s changes acc kind)
  unfolding prune_kind
  prune_kind-IsBalanced s changes acc kind h = elim (Bool-cases (contains kept_kinds kind)) [
    | inl e ↦ rw e h
    | inr e ↦ elim (Result-cases (P.list_all s kind)) [
      | inl (remotes, l) ↦ rw (e, l) (prune_remotes-IsBalanced remotes kind s changes acc h)
      | inr (m, l) ↦ rw (e, l) h
    ]
  ]

  pub prune_kinds-IsBalanced :
      (kinds : List ResourceKind) (s : P.State) (changes : List Change) (acc : ApplyResult)
      → IsBalanced (length changes) acc
      → PruneBalanced (prune_kinds P resources false s changes acc kinds)
  unfolding prune_kinds
  prune_kinds-IsBalanced [] s changes acc h = h
  prune_kinds-IsBalanced (k ∷ ks) s changes acc h =
      prune_kinds-IsBalanced ks _ _ _ (prune_kind-IsBalanced s changes acc k h)
