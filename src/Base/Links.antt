-- ===== src/Base/Links.antt =====
-- Chains of addresses: `next` leads from each to the one behind it.
use Prim.Native.Nat.{ℕ}
use mathlib.Core.Path.{◌≡◌, refl, sym, subst, ◌∙◌}
use mathlib.Core.Logic.{◌≢◌}
use mathlib.Core.List.{List, [], ◌∷◌, ◌++◌}
use gat_os_v.Base.Members.{All, Fresh, Distinct}
use gat_os_v.Base.Store.{update, update_self, update_ne}

-- From `p` the links lead through the addresses `xs` to `q`.
abbrev pub Links : (ℕ → ℕ) → ℕ → List ℕ → ℕ → Type 0
Links next p [] q = p ≡ q
Links next p (x ∷ xs) q = (p ≡ x) × Links next (next x) xs q

module _ (next : ℕ → ℕ) where
  pub Links-append :
      (p q r : ℕ) (xs ys : List ℕ)
      → Links next p xs q
      → Links next q ys r
      → Links next p (xs ++ ys) r
  Links-append p q r [] ys e l = rw e l
  Links-append p q r (x ∷ xs) ys (e, k) l = (e, Links-append (next x) q r xs ys k l)

  pub Links-split :
      (p r : ℕ) (xs : List ℕ) (y : ℕ) (ys : List ℕ)
      → Links next p (xs ++ y ∷ ys) r
      → Links next p xs y × Links next y (y ∷ ys) r
  Links-split p r [] y ys (e, l) = (e, (refl, l))
  Links-split p r (x ∷ xs) y ys (e, l) =
      let (front, back) = Links-split (next x) r xs y ys l in ((e, front), back)

-- Links that do not pass `a` do not see a write there.
pub Links-cong :
    (f g : ℕ → ℕ) (p q : ℕ) (xs : List ℕ)
    → All (λ x. g x ≡ f x) xs
    → Links f p xs q
    → Links g p xs q
Links-cong f g p q [] h l = l
Links-cong f g p q (x ∷ xs) (e, h) (eq, l) =
    (eq, subst (λ t. Links g t xs q) (sym e) (Links-cong f g (f x) q xs h l))

-- A ring may be read from any of its slots.
pub Links-rotate :
    (next : ℕ → ℕ) (p : ℕ) (before : List ℕ) (a : ℕ) (after : List ℕ)
    → Links next p (before ++ a ∷ after) p
    → Links next a (a ∷ after ++ before) a
Links-rotate next p before a after l =
    let (front, back) = Links-split next p p before a after l in
    Links-append next a p a (a ∷ after) before back front

-- The last address of a chain, `d` where there is none.
abbrev pub last_of : ℕ → List ℕ → ℕ
last_of d [] = d
last_of d (x ∷ xs) = last_of x xs

pub Fresh-last_of : (a x : ℕ) (xs : List ℕ) → a ≢ x → Fresh a xs → a ≢ last_of x xs
Fresh-last_of a x [] ne f = ne
Fresh-last_of a x (y ∷ ys) ne f = Fresh-last_of a y ys f.0 f.1

pub last_of-append : (d a : ℕ) (xs : List ℕ) → last_of d (xs ++ a ∷ []) ≡ a
last_of-append d a [] = refl
last_of-append d a (x ∷ xs) = last_of-append x a xs

-- The chain from `x` on with `a` hung on behind its last address.
pub Links-snoc :
    (f : ℕ → ℕ) (a q p x : ℕ) (xs : List ℕ)
    → Distinct (x ∷ xs)
    → Fresh a (x ∷ xs)
    → Links f p (x ∷ xs) q
    → Links (update (update f a q) (last_of x xs) a) p ((x ∷ xs) ++ a ∷ []) q
Links-snoc f a q p x [] d fa (e, l) = (
  e,
  (
    update_self (update f a q) x a,
    update_ne (update f a q) x a a (λ z. fa.0 (sym z)) ∙ update_self f a q,
  ),
)
Links-snoc f a q p x (y ∷ ys) d fa (e, l) = (
  e,
  subst (λ t. Links (update (update f a q) (last_of y ys) a) t ((y ∷ ys) ++ a ∷ []) q)
      (sym (
        update_ne (update f a q) (last_of y ys) x a (λ z. Fresh-last_of x y ys d.0.0 d.0.1 (sym z))
        ∙ update_ne f a x q fa.0))
      (Links-snoc f a q (f x) y ys d.1 fa.1 l),
)
