-- ===== src/Reconciler/Prune/Safety.antt =====
-- What the prune phase may delete.
use mathlib.Core.List.{Memᴰ}
use gcplane.Base.{
  Bool, false, ◌≡◌, refl, Bool-cases, inl, inr, List, [], ◌∷◌, ◌++◌, contains, Result, ok, err,
  arith, All, eq_iff,
}
use gcplane.Manifest.Kind.{ResourceKind}
use gcplane.Manifest.Order.{delete_order}
use gcplane.Manifest.Resource.{Resource}
use gcplane.Reconciler.Types.{delete, Change, ApplyResult, empty_result, ResourceInfo, Provider}
use gcplane.Reconciler.Prune.{
  kept_kinds, declared, is_kept, delete_change, prune_remotes, prune_kind, prune_kinds,
  detect_and_execute_prunes,
}

-- A change that deletes a resource that the manifest does not declare, of a kind that may go, and
-- that the provider listed, in some state of the run, as created by gcplane.
pub record IsOrphan (P : Provider) (resources : List Resource) (c : Change) : Type 0 where
  pub deletes : c.action ≡ delete
  pub undeclared : declared resources c.kind c.name ≡ false
  pub prunable : contains kept_kinds c.kind ≡ false
  pub clean : c.error ≡ ""
  pub state : P.State
  pub listing : List ResourceInfo
  pub listed : P.list_all state c.kind ≡ ok listing
  pub remote : ResourceInfo
  pub found : Memᴰ remote listing
  pub named : remote.name ≡ c.name
  pub owned : remote.created_by ≡ "gcplane"

pub All-snoc {ℓ κ} :
    {A : Type ℓ} (P : A → Type κ) (xs ys : List A) → All P xs → All P ys → All P (xs ++ ys)
All-snoc P [] ys a b = b
All-snoc P (x ∷ xs) ys a b = (a.0, All-snoc P xs ys a.1 b)

is_kept-false :
    (resources : List Resource) (kind : ResourceKind) (r : ResourceInfo)
    → is_kept resources kind r ≡ false
    → (declared resources kind r.name ≡ false) × (r.created_by ≡ "gcplane")
unfolding is_kept
is_kept-false resources kind r h = ground (arith, eq_iff r.created_by "gcplane")

module _ (P : Provider) (resources : List Resource) (dry_run : Bool) where
  abbrev AllOrphans : List Change → Type 0
  AllOrphans = All (IsOrphan P resources)

  module _ (kind : ResourceKind) (st : P.State) (listing : List ResourceInfo)
      (listed : P.list_all st kind ≡ ok listing) (may_go : contains kept_kinds kind ≡ false) where
    prune_remotes-IsOrphan :
        (remotes : List ResourceInfo) (s : P.State) (changes : List Change) (acc : ApplyResult)
        → ((r : ResourceInfo) → Memᴰ r remotes → Memᴰ r listing)
        → AllOrphans changes
        → AllOrphans (prune_remotes P resources dry_run kind s changes acc remotes).0
    unfolding prune_remotes
    prune_remotes-IsOrphan [] s changes acc within h = h
    prune_remotes-IsOrphan (r ∷ rs) s changes acc within h =
        elim (Bool-cases (is_kept resources kind r)) [
          | inl e ↦
              rw (e, All)
                (prune_remotes-IsOrphan rs s changes acc (λ x m. within x (Memᴰ.tail m)) h)
          | inr e ↦
              rw (e, All)
                (prune_remotes-IsOrphan rs _ (changes ++ delete_change kind r.name ∷ []) _
                  (λ x m. within x (Memᴰ.tail m))
                  (All-snoc (IsOrphan P resources) changes _ h (
                    record {
                      deletes = refl;
                      undeclared = (is_kept-false resources kind r e).0;
                      prunable = may_go;
                      clean = refl;
                      state = st;
                      listing = listing;
                      listed = listed;
                      remote = r;
                      found = within r (Memᴰ.head refl);
                      named = refl;
                      owned = (is_kept-false resources kind r e).1;
                    },
                    tt,
                  )))
        ]

  prune_kind-IsOrphan :
      (s : P.State) (changes : List Change) (acc : ApplyResult) (kind : ResourceKind)
      → AllOrphans changes
      → AllOrphans (prune_kind P resources dry_run s changes acc kind).0
  unfolding prune_kind
  prune_kind-IsOrphan s changes acc kind h = elim (Bool-cases (contains kept_kinds kind)) [
    | inl e ↦ rw (e, All) h
    | inr e ↦ rw (e, All) (by_listing (P.list_all s kind) refl e)
  ]
    where
      by_listing :
          (l : Result (List ResourceInfo))
          → P.list_all s kind ≡ l
          → contains kept_kinds kind ≡ false
          → AllOrphans (
              let out : List Change × ApplyResult × P.State = elim l [
                | err e ↦ (changes, acc, s)
                | ok remotes ↦ prune_remotes P resources dry_run kind s changes acc remotes
              ] in
              out.0)
      by_listing (err e) eq k = h
      by_listing (ok remotes) eq k =
          prune_remotes-IsOrphan kind s remotes eq k remotes s changes acc (λ x m. m) h

  prune_kinds-IsOrphan :
      (kinds : List ResourceKind) (s : P.State) (changes : List Change) (acc : ApplyResult)
      → AllOrphans changes
      → AllOrphans (prune_kinds P resources dry_run s changes acc kinds).0
  unfolding prune_kinds
  prune_kinds-IsOrphan [] s changes acc h = h
  prune_kinds-IsOrphan (kind ∷ kinds) s changes acc h =
      prune_kinds-IsOrphan kinds _ _ _ (prune_kind-IsOrphan s changes acc kind h)

  -- Every change of the prune phase deletes a resource that the manifest does not declare, whose
  -- kind is none of those that are passed over, and that the provider listed in some state as
  -- created by gcplane; none carries an error.
  pub detect_and_execute_prunes-IsOrphan :
      (s : P.State) → All (IsOrphan P resources) (detect_and_execute_prunes P resources dry_run s).0
  unfolding detect_and_execute_prunes
  detect_and_execute_prunes-IsOrphan s = prune_kinds-IsOrphan delete_order s [] empty_result tt
