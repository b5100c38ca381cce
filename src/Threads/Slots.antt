-- ===== src/Threads/Slots.antt =====
-- The places for threads of a process.
use gat_os_v.Base.{
  ℕ, zero, suc, ◌+◌, ◌-◌, ◌*◌, ◌≤◌, ◌<◌, ◌≡◌, ◌≢◌, ◌⊎◌, inl, inr, arith, refl, ap, ◌∙◌, Option,
  none, some, [], ◌∷◌, ◌++◌, Bool-cases, ◌==◌, update, update_self, ℤ, pos, negsuc, ne→==-false,
  fun_ext,
}
use gat_os_v.Process.{Thread}
use gat_os_v.Threads.{
  null, page_size, frame_size, StackFrame, Threads, fill_stack_frame, spot_loop, find_next_spot,
  fill_spot, create_thread, free_thread_pages, terminate_thread,
}

-- What the search among the places from `lo` to `hi` finds.
pub data Spot (lo hi : ℕ) (t : ℕ → ℕ) : Option ℕ × (ℕ → ℕ) → Type 0 where
  no_spot : ((j : ℕ) → lo ≤ j → j < hi → t j ≢ null) → Spot lo hi t (none, t)
  spot :
      (i : ℕ)
      → lo ≤ i
      → i < hi
      → t i ≡ null
      → ((j : ℕ) → lo ≤ j → j < i → t j ≢ null)
      → Spot lo hi t (some i, update t i 1)

earlier : (i j : ℕ) (t : ℕ → ℕ) → t i ≢ null → i ≤ j → (i + 1 ≤ j → t j ≢ null) → t j ≢ null
earlier i j t ne le rest e = elim (split i j le) [
  | inl same ↦ ne (ap t same ∙ e)
  | inr less ↦ rest less e
]
  where
    split : (i j : ℕ) → i ≤ j → (i ≡ j) ⊎ (i + 1 ≤ j)
    split i j le = grind arith

later :
    (i hi : ℕ) (t : ℕ → ℕ) (out : Option ℕ × (ℕ → ℕ))
    → t i ≢ null
    → Spot (i + 1) hi t out
    → Spot i hi t out
later i hi t out ne (no_spot all) = no_spot (λ j a b. earlier i j t ne a (λ less. all j less b))
later i hi t out ne (spot k lo lt e before) =
    spot k (omega (arith, lo)) lt e (λ j a b. earlier i j t ne a (λ less. before j less b))

spot_loop-Spot :
    (rounds i hi : ℕ) (t : ℕ → ℕ) → i + rounds ≡ hi → Spot i hi t (spot_loop rounds i t)
unfolding spot_loop
spot_loop-Spot zero i hi t e = no_spot (λ j a b. absurd (omega (arith, a, b, e)))
spot_loop-Spot (suc rounds) i hi t e = elim (Bool-cases (t i == null)) [
  | inl vacant ↦
      let here : t i ≡ null = ground (arith, vacant) in
      rw vacant
        (spot i (omega arith) (omega (arith, e)) here (λ j a b. absurd (omega (arith, a, b))))
  | inr used ↦
      let ne : t i ≢ null = λ z. ground (arith, used, z) in
      rw used (later i hi t _ ne (spot_loop-Spot rounds (i + 1) hi t (omega (arith, e))))
]

-- The structure of a new thread.
abbrev pub new_thread : ℕ → ℕ → ℕ → Thread
new_thread page1 page2 entry_point = record {
  user_stack = page1 + 2 * page_size - 2 * frame_size;
  kernel_stack = page2 + 2 * page_size;
  entry_point = entry_point;
}

-- A thread at `t` in the place `i`, with its stacks at the ends of their pages.
pub record Created (i t page1 page2 entry_point : ℕ) (p p' : Threads) : Type 0 where
  pub first : (i < 3) × (p.thread i ≡ null) × ((j : ℕ) → j < i → p.thread j ≢ null)
  pub places : p'.thread ≡ update p.thread i t
  pub counted : p'.number_of_threads ≡ p.number_of_threads + 1
  pub structure : p'.threads ≡ update p.threads t (new_thread page1 page2 entry_point)
  pub kept : (p'.freed ≡ p.freed) × (p'.active_thread ≡ p.active_thread)

-- How `createThread` ends.
abbrev pub Ended : ℕ → ℕ → ℕ → ℕ → Threads → ℤ × Threads → Type 0
Ended t page1 page2 entry_point p (result, p') =
    ((i : ℕ) × (result ≡ pos 0) × Created i t page1 page2 entry_point p p')
    ⊎ (((j : ℕ) → j < 3 → p.thread j ≢ null)
        × (result ≡ negsuc 0)
        × (p'.thread ≡ p.thread)
        × (p'.number_of_threads ≡ p.number_of_threads)
        × (p'.threads ≡ p.threads))

fill_spot-Ended :
    (t page1 page2 entry_point : ℕ) (p : Threads) (frames : ℕ → StackFrame)
    (out : Option ℕ × (ℕ → ℕ))
    → Spot 0 3 p.thread out
    → Ended t page1 page2 entry_point p
        (fill_spot out t (new_thread page1 page2 entry_point) (record p { frames = frames }))
unfolding fill_spot
fill_spot-Ended t page1 page2 entry_point p frames _ (no_spot all) =
    inr ((λ j lt. all j (omega arith) lt), refl, refl, refl, refl)
fill_spot-Ended t page1 page2 entry_point p frames _ (spot i lo lt e before) = inl (
  i,
  refl,
  record {
    first = (lt, e, λ j less. before j (omega arith) less);
    places = fun_ext (λ j. ground arith);
    counted = refl;
    structure = refl;
    kept = (refl, refl);
  },
)

-- `createThread` puts the thread into the first of the places 0 to 2 that is NULL, counts it, and
-- points its stacks into and behind their pages; when none of the three is NULL, it returns -1 and
-- changes no thread.
pub create_thread_lem :
    (call_process entry_point args t page1 page2 : ℕ) (p : Threads)
    → Ended t page1 page2 entry_point p
        (create_thread call_process entry_point args t page1 page2 p)
unfolding create_thread fill_stack_frame find_next_spot
create_thread_lem call_process entry_point args t page1 page2 p =
    fill_spot-Ended t page1 page2 entry_point p _ (find_next_spot p.thread 3)
      (spot_loop-Spot 3 0 3 p.thread refl)

-- `terminateThread` of a thread that `createThread` has put into a place other than 0 leaves the
-- places and their number as before it. Of the addresses that it gives back only that of the
-- structure is a page that the thread got: the others lie inside the page of the user stack, and
-- behind that of the kernel stack.
terminate_thread_lem :
    (i t page1 page2 entry_point : ℕ) (p p' : Threads)
    → i ≢ 0
    → Created i t page1 page2 entry_point p p'
    → (p'' : Threads) × (terminate_thread (record p' { active_thread = i }) ≡ some p'')
      × (p''.thread ≡ p.thread)
      × (p''.number_of_threads ≡ p.number_of_threads)
      × (p''.freed
          ≡ ((p.freed ++ (page1 + 2 * page_size - 2 * frame_size) ∷ [])
              ++ (page2 + 2 * page_size) ∷ [])
            ++ t ∷ [])
unfolding terminate_thread free_thread_pages
terminate_thread_lem i t page1 page2 entry_point p p' ne c =
    let here : p'.thread i ≡ t = ap (λ (f : ℕ → ℕ). f i) c.places ∙ update_self p.thread i t in
    let new =
      ap (λ a. p'.threads a) here
      ∙ ap (λ (f : ℕ → Thread). f t) c.structure
      ∙ update_self p.threads t _ in
    let ended : Threads =
      record (free_thread_pages (p'.thread i) (record p' { active_thread = i })) {
        thread = update p'.thread i null;
        number_of_threads = p'.number_of_threads - 1;
      } in
    (
      ended,
      rw (ne→==-false i 0 ne) refl,
      ap (λ f. update f i null) c.places ∙ fun_ext (λ j. ground (arith, c.first.1)),
      omega (arith, c.counted),
      rw (new, c.kept.0, here) refl,
    )
