-- ===== src/Common/Lists.antt =====
-- Lists measured and indexed by native numbers, functions updated at a point, and predicates on
-- the elements of a list.
use Prim.Native.Nat.{ℕ, zero, suc, ◌+◌}
use mathlib.Core.Path.{◌≡◌, refl, ap, sym}
use mathlib.Core.Logic.{◌≢◌}
use mathlib.Core.List.{List, [], ◌∷◌, ◌++◌}
use mathlib.Core.Option.{Option, none, some}
use native.Mathlib.Omega.{arith}
use c4os.Common.Tests.{◌==◌, if◌then◌else◌}

module _ {ℓ} {A : Type ℓ} where
  abbrev pub length : List A → ℕ
  length [] = 0
  length (x ∷ xs) = suc (length xs)

  abbrev pub get_elem? : List A → ℕ → Option A
  get_elem? [] i = none
  get_elem? (x ∷ xs) zero = some x
  get_elem? (x ∷ xs) (suc i) = get_elem? xs i

  abbrev pub get_or : List A → ℕ → A → A
  get_or [] i d = d
  get_or (x ∷ xs) zero d = x
  get_or (x ∷ xs) (suc i) d = get_or xs i d

  -- A write out of bounds changes nothing.
  abbrev pub set : List A → ℕ → A → List A
  set [] i v = []
  set (x ∷ xs) zero v = v ∷ xs
  set (x ∷ xs) (suc i) v = x ∷ set xs i v

  abbrev pub replicate : ℕ → A → List A
  replicate zero a = []
  replicate (suc n) a = a ∷ replicate n a

  pub length-append : (xs ys : List A) → length (xs ++ ys) ≡ length xs + length ys
  length-append [] ys = omega arith
  length-append (x ∷ xs) ys = omega (arith, length-append xs ys)

  pub length-set : (xs : List A) (i : ℕ) (v : A) → length (set xs i v) ≡ length xs
  length-set [] i v = refl
  length-set (x ∷ xs) zero v = refl
  length-set (x ∷ xs) (suc i) v = ap suc (length-set xs i v)

  -- A field or a cell of memory given anew at one address.
  abbrev pub update : (ℕ → A) → ℕ → A → ℕ → A
  update f a v b = if b == a then v else f b

-- `a` is none of the elements.
abbrev pub NotIn : ℕ → List ℕ → Type 0
NotIn a [] = Unit {0}
NotIn a (x ∷ xs) = (a ≢ x) × NotIn a xs

abbrev pub Distinct : List ℕ → Type 0
Distinct [] = Unit {0}
Distinct (x ∷ xs) = NotIn x xs × Distinct xs

abbrev pub Apart : List ℕ → List ℕ → Type 0
Apart [] ys = Unit {0}
Apart (x ∷ xs) ys = NotIn x ys × Apart xs ys

pub NotIn-append : (a : ℕ) (xs ys : List ℕ) → NotIn a xs → NotIn a ys → NotIn a (xs ++ ys)
NotIn-append a [] ys h k = k
NotIn-append a (x ∷ xs) ys h k = (h.0, NotIn-append a xs ys h.1 k)

pub NotIn-of_append : (a : ℕ) (xs ys : List ℕ) → NotIn a (xs ++ ys) → NotIn a xs × NotIn a ys
NotIn-of_append a [] ys h = (tt, h)
NotIn-of_append a (x ∷ xs) ys h = let (p, q) = NotIn-of_append a xs ys h.1 in ((h.0, p), q)

pub Apart-nil : (xs : List ℕ) → Apart xs []
Apart-nil [] = tt
Apart-nil (x ∷ xs) = (tt, Apart-nil xs)

Apart-cons : (y : ℕ) (xs ys : List ℕ) → NotIn y xs → Apart xs ys → Apart xs (y ∷ ys)
Apart-cons y [] ys h k = tt
Apart-cons y (x ∷ xs) ys h k = ((λ e. h.0 (sym e), k.0), Apart-cons y xs ys h.1 k.1)

pub Apart-symm : (xs ys : List ℕ) → Apart xs ys → Apart ys xs
Apart-symm [] ys h = Apart-nil ys
Apart-symm (x ∷ xs) ys h = Apart-cons x ys xs h.0 (Apart-symm xs ys h.1)

pub Distinct-of_append :
    (xs ys : List ℕ) → Distinct (xs ++ ys) → Distinct xs × Distinct ys × Apart xs ys
Distinct-of_append [] ys h = (tt, h, tt)
Distinct-of_append (x ∷ xs) ys h =
    let (p, q) = NotIn-of_append x xs ys h.0 in
    let (a, b, c) = Distinct-of_append xs ys h.1 in ((p, a), b, (q, c))

pub Distinct-append :
    (xs ys : List ℕ) → Distinct xs → Distinct ys → Apart xs ys → Distinct (xs ++ ys)
Distinct-append [] ys h k a = k
Distinct-append (x ∷ xs) ys h k a = (NotIn-append x xs ys h.0 a.0, Distinct-append xs ys h.1 k a.1)

-- The same elements, begun at another one.
pub Distinct-rotate : (xs ys : List ℕ) → Distinct (xs ++ ys) → Distinct (ys ++ xs)
Distinct-rotate xs ys h =
    let (a, b, c) = Distinct-of_append xs ys h in Distinct-append ys xs b a (Apart-symm xs ys c)

pub NotIn-rotate : (a : ℕ) (xs ys : List ℕ) → NotIn a (xs ++ ys) → NotIn a (ys ++ xs)
NotIn-rotate a xs ys h = let (p, q) = NotIn-of_append a xs ys h in NotIn-append a ys xs q p

pub Distinct-snoc : (a : ℕ) (xs : List ℕ) → NotIn a xs → Distinct xs → Distinct (xs ++ a ∷ [])
Distinct-snoc a xs n d =
    Distinct-append xs (a ∷ []) d (tt, tt) (Apart-cons a xs [] n (Apart-nil xs))

Apart-of_cons : (y : ℕ) (xs ys : List ℕ) → Apart xs (y ∷ ys) → Apart xs ys
Apart-of_cons y [] ys h = tt
Apart-of_cons y (x ∷ xs) ys h = (h.0.1, Apart-of_cons y xs ys h.1)

-- An element taken out of a list of distinct ones.
pub Distinct-remove :
    (xs : List ℕ) (y : ℕ) (ys : List ℕ) → Distinct (xs ++ y ∷ ys) → Distinct (xs ++ ys)
Distinct-remove xs y ys d =
    let (a, b, c) = Distinct-of_append xs (y ∷ ys) d in
    Distinct-append xs ys a b.1 (Apart-of_cons y xs ys c)

pub NotIn-remove :
    (a : ℕ) (xs : List ℕ) (y : ℕ) (ys : List ℕ) → NotIn a (xs ++ y ∷ ys) → NotIn a (xs ++ ys)
NotIn-remove a xs y ys n =
    let (p, q) = NotIn-of_append a xs (y ∷ ys) n in NotIn-append a xs ys p q.1

abbrev pub All {ℓ} : {A : Type ℓ} → (A → Type 0) → List A → Type 0
All P [] = Unit {0}
All P (x ∷ xs) = P x × All P xs

pub All-of_append {ℓ} :
    {A : Type ℓ} (P : A → Type 0) (xs ys : List A) → All P (xs ++ ys) → All P xs × All P ys
All-of_append P [] ys h = (tt, h)
All-of_append P (x ∷ xs) ys h = let (a, b) = All-of_append P xs ys h.1 in ((h.0, a), b)

pub All-append {ℓ} :
    {A : Type ℓ} (P : A → Type 0) (xs ys : List A) → All P xs → All P ys → All P (xs ++ ys)
All-append P [] ys h k = k
All-append P (x ∷ xs) ys h k = (h.0, All-append P xs ys h.1 k)

pub Apart-head : (y : ℕ) (xs ys : List ℕ) → Apart xs (y ∷ ys) → NotIn y xs
Apart-head y [] ys h = tt
Apart-head y (x ∷ xs) ys h = ((λ e. h.0.0 (sym e)), Apart-head y xs ys h.1)
