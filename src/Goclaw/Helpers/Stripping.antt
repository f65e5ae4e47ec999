-- ===== src/Goclaw/Helpers/Stripping.antt =====
-- What is left of an answer.
use gcplane.Base.{
  String, none, List, [], ◌∷◌, ◌==◌, ◌≡◌, refl, if◌then◌else◌, contains, eq_iff, arith,
}
use gcplane.Spec.{Fields, end, field, get}
use gcplane.Goclaw.Helpers.{without, without_all}

pub get-without :
    (fs : Fields) (k j : String) → get (without fs k) j ≡ (if k == j then none else get fs j)
unfolding get without
get-without end k j = ground arith
get-without (field i v fs) k j =
    ground (arith, eq_iff i k, eq_iff i j, eq_iff k j, get-without fs k j)

-- Deleting a list of keys leaves nothing at them, and every other key as it was.
pub get-without_all :
    (fs : Fields) (ks : List String) (j : String)
    → get (without_all fs ks) j ≡ (if contains ks j then none else get fs j)
unfolding without_all contains
get-without_all fs [] j = refl
get-without_all fs (k ∷ ks) j =
    ground (arith, get-without fs k j, get-without_all (without fs k) ks j)
