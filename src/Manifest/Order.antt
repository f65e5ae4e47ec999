-- ===== src/Manifest/Order.antt =====
-- `DeleteOrder` (internal/manifest/delete_order.go).
use gcplane.Base.{ℕ, zero, suc, ◌+◌, ◌-◌, List, [], ◌∷◌, length}
use gcplane.Manifest.Kind.{ResourceKind, apply_order}

-- `reversed[i] = k`; the indices that the loop writes are in range.
unfoldable pub set : List ResourceKind → ℕ → ResourceKind → List ResourceKind
set [] i v = []
set (x ∷ xs) zero v = v ∷ xs
set (x ∷ xs) (suc i) v = x ∷ set xs i v

-- `make([]ResourceKind, n)`
unfoldable pub blanks : ℕ → List ResourceKind
blanks zero = []
blanks (suc n) = "" ∷ blanks n

-- `for i, k := range order { reversed[len(order)-1-i] = k }`
unfoldable pub fill_reversed : ℕ → ℕ → List ResourceKind → List ResourceKind → List ResourceKind
fill_reversed n i [] reversed = reversed
fill_reversed n i (k ∷ order) reversed = fill_reversed n (i + 1) order (set reversed (n - 1 - i) k)

unfoldable pub reverse_order : List ResourceKind → List ResourceKind
unfolding fill_reversed set blanks
reverse_order order = fill_reversed (length order) 0 order (blanks (length order))

-- `DeleteOrder`
unfoldable pub delete_order : List ResourceKind
unfolding reverse_order apply_order
delete_order = reverse_order apply_order
