-- ===== src/Tests/Memory.antt =====
-- A provider in memory, and a runtime that resolves nothing.
use gcplane.Base.{
  ℕ, ◌+◌, ◌*◌, String, Bool, true, false, ◌&&◌, not, ◌≡◌, ◌≢◌, Option, none, some, List, [], ◌∷◌,
  ◌++◌, ◌==◌, eq_iff, ok, arith, filter, map, nat_eq, if◌then◌else◌,
}
use gcplane.Spec.{ℤ, pos, negsuc, Fields}
use gcplane.Manifest.Kind.{ResourceKind}
use gcplane.Reconciler.Compare.{Floats}
use gcplane.Reconciler.WriteOnlyHash.{Digest}
use gcplane.Reconciler.Types.{ResourceInfo, Provider, Runtime}

abbrev int_bits : ℤ → ℕ
int_bits (pos n) = n * 2
int_bits (negsuc n) = n * 2 + 1

pub bits_symm : (a b : ℕ) → nat_eq a b ≡ nat_eq b a
bits_symm a b = ground arith

pub bits_refl : (n : ℕ) → nat_eq n n ≡ true
bits_refl n = ground arith

abbrev pub floats : Floats
floats = record {
  of_int = int_bits;
  of_float32 = λ x. x;
  eq = nat_eq;
  eq_symm = bits_symm;
  eq-of_int = λ z. bits_refl (int_bits z);
}

pub sum-ne-nothing : ◌≢◌ {A = Option String} (some "sum") (some "")
sum-ne-nothing = ground (arith, eq_iff "sum" "")

abbrev pub digest : Digest
digest = record { sum = λ xs. some "sum"; sum-ne-empty = λ xs. sum-ne-nothing }

abbrev pub runtime : Runtime
runtime = record { resolve = λ s. ok s; digest = digest; floats = floats }

pub record Row : Type 0 where
  pub kind : ResourceKind
  pub name : String
  pub owner : String
  pub spec : Fields

abbrev is_row : ResourceKind → String → Row → Bool
is_row kind name r = r.kind == kind && r.name == name

abbrev find : ResourceKind → String → List Row → Option Fields
find kind name [] = none
find kind name (r ∷ rs) = if is_row kind name r then some r.spec else find kind name rs

abbrev write : ResourceKind → String → Fields → List Row → List Row
write kind name spec rows =
    filter (λ r. not (is_row kind name r)) rows
    ++ record { kind = kind; name = name; owner = "gcplane"; spec = spec } ∷ []

abbrev info : Row → ResourceInfo
info r = record {
  kind = r.kind;
  name = r.name;
  created_by = r.owner;
  source = "";
  is_system = false;
}

abbrev pub memory : Provider
memory = record {
  State = List Row;
  observe = λ rows kind name. ok (find kind name rows);
  create = λ rows kind name spec. (none, write kind name spec rows);
  update = λ rows kind name spec. (none, write kind name spec rows);
  delete = λ rows kind name. (none, filter (λ r. not (is_row kind name r)) rows);
  list_all = λ rows kind. ok (map info (filter (λ r. r.kind == kind) rows));
}
