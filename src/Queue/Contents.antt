-- ===== src/Queue/Contents.antt =====
-- The elements of a queue, oldest first, and the nodes that hold them.
use gat_os_v.Base.{
  ℕ, ◌≡◌, ◌≢◌, ap, ◌∙◌, refl, List, [], ◌∷◌, ◌++◌, map, Fresh, Distinct, update, update_ne,
  update_self,
}
use gat_os_v.Base.Links.{Links, last_of}
use gat_os_v.Queue.{null, Heap}

-- At `q` lies a queue with the nodes `ns`, which hold `xs`.
pub record IsQueue (q : ℕ) (ns xs : List ℕ) (h : Heap) : Type 0 where
  pub used : q ≢ null
  pub links : Links h.next (h.first q) ns null
  pub last_node : h.last q ≡ last_of null ns
  pub elems : map h.elem ns ≡ xs
  pub distinct : Distinct ns
  pub nodes : Fresh null ns

pub map-update : (f : ℕ → ℕ) (a v : ℕ) (ns : List ℕ) → Fresh a ns → map (update f a v) ns ≡ map f ns
map-update f a v [] fresh = refl
map-update f a v (x ∷ xs) (ne, fresh) =
    ap (λ y. y ∷ map (update f a v) xs) (update_ne f a x v ne)
    ∙ ap (◌∷◌ (f x)) (map-update f a v xs fresh)

pub map-snoc :
    (f : ℕ → ℕ) (a v : ℕ) (ns : List ℕ)
    → Fresh a ns
    → map (update f a v) (ns ++ a ∷ []) ≡ map f ns ++ v ∷ []
map-snoc f a v [] fresh = ap (λ y. y ∷ []) (update_self f a v)
map-snoc f a v (x ∷ xs) (ne, fresh) =
    ap (λ y. y ∷ map (update f a v) (xs ++ a ∷ [])) (update_ne f a x v ne)
    ∙ ap (◌∷◌ (f x)) (map-snoc f a v xs fresh)
