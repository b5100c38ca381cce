-- ===== src/Queue/Order.antt =====
-- First in, first out.
use gat_os_v.Base.{
  update_ne, drop, get_or, ℕ, zero, suc, ◌≡◌, ◌≢◌, true, false, arith, sym, ap, ◌∙◌, subst, refl,
  List, [], ◌∷◌, ◌++◌, Fresh, Distinct, Distinct-append, Apart-comm, update, update_self, ◌==◌,
  length, ne→==-false, All-append, Bool-cases, inl, inr,
}
use mathlib.Core.List.{append-nil, append_assoc, nil≢cons}
use gat_os_v.Base.Links.{Links, Links-snoc, last_of-append}
use gat_os_v.Queue.{
  null, Heap, create_queue, is_empty, enqueue, unlink_first, dequeue, empty_loop, destroy_queue,
}
use gat_os_v.Queue.Contents.{IsQueue, map-snoc}

pub is_empty-nil : (q : ℕ) (xs : List ℕ) (h : Heap) → IsQueue q [] xs h → is_empty q h ≡ true
unfolding is_empty
is_empty-nil q xs h v = let e : h.first q ≡ null = v.links in ground (arith, e)

is_empty-cons :
    (q n : ℕ) (ns xs : List ℕ) (h : Heap) → IsQueue q (n ∷ ns) xs h → is_empty q h ≡ false
unfolding is_empty
is_empty-cons q n ns xs h v =
    let e : h.first q ≡ n = (v.links).0 in
    let ne : null ≢ n = v.nodes.0 in
    rw (ne→==-false q null v.used, ne→==-false (h.first q) null (λ z. ne (sym z ∙ e)))

-- `create_queue` with a page makes a queue without elements.
pub create_queue-IsQueue : (q : ℕ) (h : Heap) → q ≢ null → IsQueue q [] [] (create_queue q h)
unfolding create_queue
create_queue-IsQueue q h used = rw (ne→==-false q null used) (record {
  used = used;
  links = update_self h.first q null;
  last_node = update_self h.last q null;
  elems = refl;
  distinct = tt;
  nodes = tt;
})

snoc-Distinct : (a : ℕ) (ns : List ℕ) → Distinct ns → Fresh a ns → Distinct (ns ++ a ∷ [])
snoc-Distinct a ns d f = Distinct-append ns (a ∷ []) d (tt, tt) (Apart-comm (a ∷ []) ns (f, tt))

-- `enqueue` with a page for the node puts the element behind the others.
pub enqueue_lem :
    (q elem a : ℕ) (ns xs : List ℕ) (h : Heap)
    → IsQueue q ns xs h
    → a ≢ null
    → Fresh a ns
    → IsQueue q (ns ++ a ∷ []) (xs ++ elem ∷ []) (enqueue q elem a h)
unfolding enqueue
enqueue_lem q elem a [] xs h v used fresh =
    let vacant : (h.first q == null) ≡ true =
      let e : h.first q ≡ null = v.links in ground (arith, e) in
    rw (ne→==-false q null v.used, vacant)
      (record {
        used = v.used;
        links = (update_self h.first q a, update_self h.next a null);
        last_node = update_self h.last q a;
        elems = ap (λ x. x ∷ []) (update_self h.elem a elem) ∙ ap (λ ys. ys ++ elem ∷ []) v.elems;
        distinct = (tt, tt);
        nodes = ((λ z. used (sym z)), tt);
      })
enqueue_lem q elem a (n ∷ ns) xs h v used fresh =
    let some : (h.first q == null) ≡ false =
      ne→==-false (h.first q) null (λ z. v.nodes.0 (sym z ∙ (v.links).0)) in
    rw (ne→==-false q null v.used, some)
      (record {
        used = v.used;
        links =
            subst
              (λ t. Links (update (update h.next a null) t a) (h.first q) ((n ∷ ns) ++ a ∷ []) null)
              (sym v.last_node)
              (Links-snoc h.next a null (h.first q) n ns v.distinct fresh v.links);
        last_node = update_self h.last q a ∙ sym (last_of-append null a (n ∷ ns));
        elems = map-snoc h.elem a elem (n ∷ ns) fresh ∙ ap (λ ys. ys ++ elem ∷ []) v.elems;
        distinct = snoc-Distinct a (n ∷ ns) v.distinct fresh;
        nodes = All-append (λ x. null ≢ x) (n ∷ ns) (a ∷ []) v.nodes ((λ z. used (sym z)), tt);
      })

-- The chain behind the first node.
first_after :
    (q n : ℕ) (h : Heap) → h.first q ≡ n → update h.first q (h.next (h.first q)) q ≡ h.next n
first_after q n h e = update_self h.first q (h.next (h.first q)) ∙ ap h.next e

unlink_first-IsQueue :
    (q n x : ℕ) (ns xs : List ℕ) (h : Heap)
    → IsQueue q (n ∷ ns) (x ∷ xs) h
    → IsQueue q ns xs (unlink_first q h)
unfolding unlink_first
unlink_first-IsQueue q n x [] xs h v =
    let (first, behind) = v.links in
    let here = first_after q n h first in
    let vacant : (update h.first q (h.next (h.first q)) q == null) ≡ true =
      ground (arith, here, behind) in
    rw vacant (record {
      used = v.used;
      links = here ∙ behind;
      last_node = update_self h.last q null;
      elems = ap (drop 1) v.elems;
      distinct = tt;
      nodes = tt;
    })
unlink_first-IsQueue q n x (m ∷ ns) xs h v =
    let (first, (next, behind)) = v.links in
    let here = first_after q n h first ∙ next in
    let more : (update h.first q (h.next (h.first q)) q == null) ≡ false =
      ne→==-false _ null (λ z. v.nodes.1.0 (sym z ∙ here)) in
    rw more (record {
      used = v.used;
      links = (here, behind);
      last_node = v.last_node;
      elems = ap (drop 1) v.elems;
      distinct = v.distinct.1;
      nodes = v.nodes.1;
    })

unlink_first-freed :
    (q n x : ℕ) (ns xs : List ℕ) (h : Heap)
    → IsQueue q (n ∷ ns) (x ∷ xs) h
    → (unlink_first q h).freed ≡ h.freed ++ n ∷ []
unfolding unlink_first
unlink_first-freed q n x ns xs h v =
    let same = ap (λ a. h.freed ++ a ∷ []) (v.links).0 in
    elim (Bool-cases (update h.first q (h.next (h.first q)) q == null)) [
      | inl e ↦ rw e same
      | inr e ↦ rw e same
    ]

-- `dequeue` gives the oldest element and takes exactly it out; the page of its node is given back.
pub dequeue_lem :
    (q n x : ℕ) (ns xs : List ℕ) (h : Heap)
    → IsQueue q (n ∷ ns) (x ∷ xs) h
    → let (elem, h') = dequeue q h in
      (elem ≡ x) × IsQueue q ns xs h' × (h'.freed ≡ h.freed ++ n ∷ [])
unfolding dequeue
dequeue_lem q n x ns xs h v = rw (is_empty-cons q n ns (x ∷ xs) h v) (
  ap h.elem (v.links).0 ∙ ap (λ l. get_or l 0 0) v.elems,
  unlink_first-IsQueue q n x ns xs h v,
  unlink_first-freed q n x ns xs h v,
)

-- `dequeue` of a queue without elements returns NULL and changes nothing.
pub dequeue_none : (q : ℕ) (h : Heap) → IsQueue q [] [] h → dequeue q h ≡ (null, h)
unfolding dequeue
dequeue_none q h v = rw (is_empty-nil q [] h v) refl

empty_loop-freed :
    (q : ℕ) (ns xs : List ℕ) (h : Heap)
    → IsQueue q ns xs h
    → (empty_loop (length ns) q h).freed ≡ h.freed ++ ns
unfolding empty_loop
empty_loop-freed q [] xs h v = sym (append-nil h.freed)
empty_loop-freed q (n ∷ ns) [] h v = absurd (nil≢cons (sym v.elems))
empty_loop-freed q (n ∷ ns) (x ∷ xs) h v = rw (is_empty-cons q n ns (x ∷ xs) h v) (
    empty_loop-freed q ns xs (unlink_first q h) (unlink_first-IsQueue q n x ns xs h v)
    ∙ ap (λ l. l ++ ns) (unlink_first-freed q n x ns xs h v)
    ∙ append_assoc h.freed (n ∷ []) ns)

-- `destroy_queue` ends within as many rounds as there are elements, and gives back every page of the
-- queue once: those of the nodes, oldest first, and its own.
destroy_queue_lem :
    (q : ℕ) (ns xs : List ℕ) (h : Heap)
    → IsQueue q ns xs h
    → (destroy_queue (length ns) q h).freed ≡ (h.freed ++ ns) ++ q ∷ []
unfolding destroy_queue
destroy_queue_lem q ns xs h v = ap (λ l. l ++ q ∷ []) (empty_loop-freed q ns xs h v)

-- The same, whichever node it is that holds the oldest element.
pub dequeue_front :
    (q x : ℕ) (ns xs : List ℕ) (h : Heap)
    → IsQueue q ns (x ∷ xs) h
    → ((dequeue q h).0 ≡ x) × ((rest : List ℕ) × IsQueue q rest xs (dequeue q h).1)
dequeue_front q x [] xs h v = absurd (nil≢cons v.elems)
dequeue_front q x (n ∷ ns) xs h v =
    let (elem, rest, freed) = dequeue_lem q n x ns xs h v in (elem, (ns, rest))

-- A queue without elements has no nodes.
pub IsQueue-nil : (q : ℕ) (ns : List ℕ) (h : Heap) → IsQueue q ns [] h → IsQueue q [] [] h
IsQueue-nil q [] h v = v
IsQueue-nil q (n ∷ ns) h v = absurd (nil≢cons (sym v.elems))

empty_loop-none : (fuel q : ℕ) (h : Heap) → IsQueue q [] [] h → empty_loop fuel q h ≡ h
unfolding empty_loop
empty_loop-none zero q h v = refl
empty_loop-none (suc fuel) q h v = rw (is_empty-nil q [] h v) refl

-- `destroy_queue` of a queue without elements gives back its own page only.
pub destroy_queue_none :
    (fuel q : ℕ) (h : Heap) → IsQueue q [] [] h → (destroy_queue fuel q h).freed ≡ h.freed ++ q ∷ []
unfolding destroy_queue
destroy_queue_none fuel q h v = ap (λ (g : Heap). g.freed ++ q ∷ []) (empty_loop-none fuel q h v)

-- What `destroy_queue` and `mutex_close` see of the queue in each round.
pub dequeue_round :
    (q n x : ℕ) (ns xs : List ℕ) (h : Heap)
    → IsQueue q (n ∷ ns) (x ∷ xs) h
    → (is_empty q h ≡ false)
      × ((dequeue q h).0 ≡ x)
      × IsQueue q ns xs (dequeue q h).1
      × ((dequeue q h).1.freed ≡ h.freed ++ n ∷ [])
dequeue_round q n x ns xs h v =
    let (elem, rest, freed) = dequeue_lem q n x ns xs h v in
    (is_empty-cons q n ns (x ∷ xs) h v, elem, rest, freed)

unlink_first-other :
    (q j : ℕ) (h : Heap)
    → q ≢ j
    → ((unlink_first q h).first j ≡ h.first j) × ((unlink_first q h).last j ≡ h.last j)
unfolding unlink_first
unlink_first-other q j h ne =
    let first = update_ne h.first q j (h.next (h.first q)) ne in
    elim (Bool-cases (update h.first q (h.next (h.first q)) q == null)) [
      | inl e ↦ rw e (first, update_ne h.last q j null ne)
      | inr e ↦ rw e (first, refl)
    ]

-- `dequeue` leaves another queue without elements so.
pub dequeue-nil_other :
    (q j : ℕ) (h : Heap) → q ≢ j → IsQueue j [] [] h → IsQueue j [] [] (dequeue q h).1
unfolding dequeue
dequeue-nil_other q j h ne v = elim (Bool-cases (is_empty q h)) [
  | inl e ↦ rw e v
  | inr e ↦
      let (first, last) = unlink_first-other q j h ne in
      rw e (record {
        used = v.used;
        links = first ∙ v.links;
        last_node = last ∙ v.last_node;
        elems = refl;
        distinct = tt;
        nodes = tt;
      })
]

-- A queue with an element is not empty.
pub is_empty-front :
    (q x : ℕ) (ns xs : List ℕ) (h : Heap) → IsQueue q ns (x ∷ xs) h → is_empty q h ≡ false
is_empty-front q x [] xs h v = absurd (nil≢cons v.elems)
is_empty-front q x (n ∷ ns) xs h v = is_empty-cons q n ns (x ∷ xs) h v
