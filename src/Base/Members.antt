-- ===== src/Base/Members.antt =====
-- Lists whose entries satisfy a predicate, and lists with no entry twice.
use Prim.Native.Nat.{ℕ}
use mathlib.Core.Path.{sym}
use mathlib.Core.Logic.{◌≢◌}
use mathlib.Core.List.{List, [], ◌∷◌, ◌++◌}

module _ {ℓ κ} {A : Type ℓ} where
  abbrev pub All : (A → Type κ) → List A → Type κ
  All P [] = Unit
  All P (x ∷ xs) = P x × All P xs

  pub All-append : (P : A → Type κ) (xs ys : List A) → All P xs → All P ys → All P (xs ++ ys)
  All-append P [] ys a b = b
  All-append P (x ∷ xs) ys (h, a) b = (h, All-append P xs ys a b)

  pub All-split : (P : A → Type κ) (xs ys : List A) → All P (xs ++ ys) → All P xs × All P ys
  All-split P [] ys a = (tt, a)
  All-split P (x ∷ xs) ys (h, a) = let (b, c) = All-split P xs ys a in ((h, b), c)

-- No entry of the list is `a`.
abbrev pub Fresh : ℕ → List ℕ → Type 0
Fresh a xs = All (λ x. a ≢ x) xs

abbrev pub Distinct : List ℕ → Type 0
Distinct [] = Unit
Distinct (x ∷ xs) = Fresh x xs × Distinct xs

-- No entry of one list is in the other.
abbrev pub Apart : List ℕ → List ℕ → Type 0
Apart xs ys = All (λ x. Fresh x ys) xs

Apart-cons : (x : ℕ) (ys xs : List ℕ) → Fresh x ys → Apart ys xs → Apart ys (x ∷ xs)
Apart-cons x [] xs f a = tt
Apart-cons x (y ∷ ys) xs (ne, f) (h, a) = ((λ e. ne (sym e), h), Apart-cons x ys xs f a)

Apart-nil : (ys : List ℕ) → Apart ys []
Apart-nil [] = tt
Apart-nil (y ∷ ys) = (tt, Apart-nil ys)

pub Apart-comm : (xs ys : List ℕ) → Apart xs ys → Apart ys xs
Apart-comm [] ys a = Apart-nil ys
Apart-comm (x ∷ xs) ys (f, a) = Apart-cons x ys xs f (Apart-comm xs ys a)

pub Distinct-append :
    (xs ys : List ℕ) → Distinct xs → Distinct ys → Apart xs ys → Distinct (xs ++ ys)
Distinct-append [] ys d e a = e
Distinct-append (x ∷ xs) ys (f, d) e (g, a) =
    (All-append (λ y. x ≢ y) xs ys f g, Distinct-append xs ys d e a)

pub Distinct-split :
    (xs ys : List ℕ) → Distinct (xs ++ ys) → Distinct xs × Distinct ys × Apart xs ys
Distinct-split [] ys d = (tt, d, tt)
Distinct-split (x ∷ xs) ys (f, d) =
    let (g, h) = All-split (λ y. x ≢ y) xs ys f in
    let (dx, dy, a) = Distinct-split xs ys d in ((g, dx), dy, (h, a))

-- The two parts of a list may change places.
pub Distinct-swap : (xs ys : List ℕ) → Distinct (xs ++ ys) → Distinct (ys ++ xs)
Distinct-swap xs ys d =
    let (dx, dy, a) = Distinct-split xs ys d in Distinct-append ys xs dy dx (Apart-comm xs ys a)

pub All-swap {ℓ κ} :
    {A : Type ℓ} (P : A → Type κ) (xs ys : List A) → All P (xs ++ ys) → All P (ys ++ xs)
All-swap P xs ys a = let (b, c) = All-split P xs ys a in All-append P ys xs c b
