-- ===== src/Scheduler/Edit.antt =====
-- `addProcess` and `createProcess` on the ring.
use gat_os_v.Base.{
  ℕ, ◌+◌, ◌≡◌, ◌≢◌, arith, refl, sym, subst, ap, ◌∙◌, List, [], ◌∷◌, All, Fresh, ne→==-false, ◌==◌,
  if◌then◌else◌,
}
use gat_os_v.Process.{Process, Thread, ready}
use gat_os_v.Scheduler.{
  null, Scheduler, next_of, process_at, pid_at, state_at, add_process, get_process, create_process,
}
use gat_os_v.Base.Links.{Links, Links-cong}
use gat_os_v.Scheduler.Ring.{IsRing}

module _ (a : ℕ) (p : Process) (s : Scheduler) where
  next-add_process :
      (j : ℕ)
      → s.current ≢ null
      → a ≢ s.current
      → next_of (add_process a p s) j
        ≡ (if a == j then next_of s s.current else if s.current == j then a else next_of s j)
  unfolding add_process
  next-add_process j used ne = ground arith

  process-add_process :
      (j : ℕ) → process_at (add_process a p s) j ≡ (if a == j then p else process_at s j)
  unfolding add_process
  process-add_process j = ground arith

  current-add_process : s.current ≢ null → (add_process a p s).current ≡ s.current
  unfolding add_process
  current-add_process used = ground arith

  cardinal-add_process : (add_process a p s).cardinal_processes ≡ s.cardinal_processes
  unfolding add_process
  cardinal-add_process = ground arith

  next_pid-add_process : (add_process a p s).next_pid ≡ s.next_pid
  unfolding add_process
  next_pid-add_process = ground arith

  -- The new slot comes right after the current one.
  Links-add_process :
      (c : ℕ) (rest : List ℕ)
      → null ≢ c
      → a ≢ c
      → Fresh a rest
      → Fresh c rest
      → Links (next_of s) s.current (c ∷ rest) s.current
      → Links (next_of (add_process a p s)) s.current (c ∷ a ∷ rest) s.current
  Links-add_process c rest cn ac fa fc (e, l) =
      let used : s.current ≢ null = λ z. cn (sym z ∙ e) in
      let ne : a ≢ s.current = λ z. ac (z ∙ e) in
      (
        e,
        (
          at_current used ne,
          Links-cong (next_of s) (next_of (add_process a p s)) _ _ rest
              (unchanged rest used ne fa fc)
              (subst (λ t. Links (next_of s) t rest s.current)
                (ap (next_of s) (sym e) ∙ sym (at_new used ne)) l),
        ),
      )
    where
      at_current : s.current ≢ null → a ≢ s.current → next_of (add_process a p s) c ≡ a
      at_current used ne = next-add_process c used ne ∙ ground arith

      at_new :
          s.current ≢ null → a ≢ s.current → next_of (add_process a p s) a ≡ next_of s s.current
      at_new used ne = next-add_process a used ne ∙ ground arith

      unchanged :
          (xs : List ℕ)
          → s.current ≢ null
          → a ≢ s.current
          → Fresh a xs
          → Fresh c xs
          → All (λ x. next_of (add_process a p s) x ≡ next_of s x) xs
      unchanged [] used ne f g = tt
      unchanged (x ∷ xs) used ne f g = (
        next-add_process x used ne
            ∙ rw (ne→==-false a x f.0, ne→==-false s.current x (λ z. g.0 (sym e ∙ z))),
        unchanged xs used ne f.1 g.1,
      )

-- `createProcess` with a slot at a new address other than NULL puts a READY process with the next
-- pid, which it returns, into the ring right after the running one, and leaves the other processes
-- alone.
create_process_lem :
    (a : ℕ) (t : Thread) (s : Scheduler) (c : ℕ) (rest : List ℕ)
    → IsRing s (c ∷ rest)
    → null ≢ a
    → Fresh a (c ∷ rest)
    → let (pid, s') = create_process a t s in
      IsRing s' (c ∷ a ∷ rest)
      × (pid ≡ s.next_pid)
      × (s'.next_pid ≡ s.next_pid + 1)
      × (pid_at s' a ≡ pid)
      × (state_at s' a ≡ ready)
      × ((j : ℕ) → a ≢ j → process_at s' j ≡ process_at s j)
unfolding create_process
create_process_lem a t s c rest r ua fresh =
    let (p, s1) = get_process t s in
    let used : s.current ≢ null = λ z. r.used.0 (sym z ∙ (r.links).0) in
    (
      record {
        links =
            subst (λ q. Links (next_of (add_process a p s1)) q (c ∷ a ∷ rest) q)
              (sym (current-add_process a p s1 used))
              (Links-add_process a p s1 c rest r.used.0 fresh.0 fresh.1 r.distinct.0 r.links);
        count = omega (arith, r.count, cardinal-add_process a p s1);
        distinct = ((λ z. fresh.0 (sym z), r.distinct.0), (fresh.1, r.distinct.1));
        used = (r.used.0, (ua, r.used.1));
      },
      refl,
      next_pid-add_process a p s1,
      ap (λ (q : Process). q.pid) (process-add_process a p s1 a) ∙ ground arith,
      ap (λ (q : Process). q.state) (process-add_process a p s1 a) ∙ ground arith,
      λ j ne. process-add_process a p s1 j ∙ rw (ne→==-false a j ne),
    )
