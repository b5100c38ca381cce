-- ===== src/Scheduler/Remove.antt =====
-- `removeProcess` on the ring.
use gat_os_v.Base.{
  ℕ, zero, suc, ◌+◌, ◌-◌, ◌<◌, ◌≡◌, ◌≢◌, inl, inr, some, arith, sym, subst, ap, fun_ext, ◌∙◌, List,
  [], ◌∷◌, ◌++◌, All, All-split, All-append, Fresh, Distinct, length, length-append, Bool-cases,
  ne→==-false, ◌==◌, update, update_self, update_ne,
}
use gat_os_v.Scheduler.{
  null, Scheduler, next_of, process_at, pid_at, set_next, remove_loop, unlink_found, remove_process,
}
use gat_os_v.Base.Links.{Links, Links-cong}
use gat_os_v.Scheduler.Ring.{IsRing}

-- The slot before the one that is taken out.
last_of : ℕ → List ℕ → ℕ
last_of prev [] = prev
last_of prev (x ∷ xs) = last_of x xs

-- The search walks past the slots of the ring with other pids.
remove_loop_lem :
    (s : Scheduler) (pid n prev p i : ℕ) (pre : List ℕ) (x : ℕ) (post : List ℕ) (q : ℕ)
    → Links (next_of s) p (pre ++ x ∷ post) q
    → All (λ y. pid_at s y ≢ pid) pre
    → pid_at s x ≡ pid
    → length pre < n
    → remove_loop n pid prev p i s ≡ (last_of prev pre, x, i + length pre)
unfolding remove_loop last_of
remove_loop_lem s pid zero prev p i pre x post q l others e lt = absurd (omega arith)
remove_loop_lem s pid (suc n) prev p i [] x post q l others e lt = rw (l.0, e) (ground arith)
remove_loop_lem s pid (suc n) prev p i (y ∷ pre) x post q l others e lt =
    rw (l.0, ne→==-false (pid_at s y) pid others.0)
      (remove_loop_lem s pid n y (next_of s y) (i + 1) pre x post q l.1 others.1 e (omega arith)
        ∙ ground arith)

Fresh-last : (a y : ℕ) (pre zs : List ℕ) → Fresh a (y ∷ pre ++ zs) → last_of y pre ≢ a
unfolding last_of
Fresh-last a y [] zs f e = f.0 (sym e)
Fresh-last a y (x ∷ pre) zs f e = Fresh-last a x pre zs f.1 e

update-Fresh : (f : ℕ → ℕ) (a v : ℕ) (xs : List ℕ) → Fresh a xs → All (λ x. update f a v x ≡ f x) xs
update-Fresh f a v [] h = tt
update-Fresh f a v (x ∷ xs) (ne, h) = (update_ne f a x v ne, update-Fresh f a v xs h)

-- To let the slot before `x` point behind it takes `x` out of the chain.
Links-unlink :
    (f : ℕ → ℕ) (prev x : ℕ) (pre post : List ℕ) (q : ℕ)
    → Links f (f prev) (pre ++ x ∷ post) q
    → Distinct (prev ∷ pre ++ x ∷ post)
    → let g = update f (last_of prev pre) (f x) in Links g (g prev) (pre ++ post) q
unfolding last_of
Links-unlink f prev x [] post q (e, l) (fresh, d) =
    subst (λ t. Links (update f prev (f x)) t post q) (sym (update_self f prev (f x)))
      (Links-cong f (update f prev (f x)) (f x) q post (update-Fresh f prev (f x) post fresh.1) l)
Links-unlink f prev x (y ∷ pre) post q (e, l) (fresh, d) = (
  update_ne f (last_of y pre) prev (f x) (Fresh-last prev y pre (x ∷ post) fresh) ∙ e,
  Links-unlink f y x pre post q l d,
)

next-set_next : (a n : ℕ) (s : Scheduler) → next_of (set_next a n s) ≡ update (next_of s) a n
next-set_next a n s = fun_ext λ j. ground arith

process-set_next :
    (a n : ℕ) (s : Scheduler) (j : ℕ) → process_at (set_next a n s) j ≡ process_at s j
process-set_next a n s j = ground arith

drop_one :
    (P : ℕ → Type 0) (pre : List ℕ) (x : ℕ) (post : List ℕ)
    → All P (pre ++ x ∷ post)
    → All P (pre ++ post)
drop_one P pre x post a = let (b, c) = All-split P pre (x ∷ post) a in All-append P pre post b c.1

Distinct-drop :
    (pre : List ℕ) (x : ℕ) (post : List ℕ) → Distinct (pre ++ x ∷ post) → Distinct (pre ++ post)
Distinct-drop [] x post d = d.1
Distinct-drop (y ∷ pre) x post (f, d) =
    (drop_one (λ z. y ≢ z) pre x post f, Distinct-drop pre x post d)

-- The ring without `x`, as `removeProcess` leaves it.
without : (s : Scheduler) (c : ℕ) (pre : List ℕ) (x : ℕ) → Scheduler
without s c pre x = record (set_next (last_of c pre) (next_of s x) s) {
  cardinal_processes = s.cardinal_processes - 1;
}

without-IsRing :
    (s : Scheduler) (c : ℕ) (pre : List ℕ) (x : ℕ) (post : List ℕ)
    → IsRing s (c ∷ pre ++ x ∷ post)
    → IsRing (without s c pre x) (c ∷ pre ++ post)
unfolding without
without-IsRing s c pre x post r = record {
  links = (
    (r.links).0,
    subst (λ g. Links g (g c) (pre ++ post) s.current)
        (sym (next-set_next (last_of c pre) (next_of s x) s))
        (Links-unlink (next_of s) c x pre post s.current (r.links).1 r.distinct),
  );
  count = omega (arith, r.count, length-append pre (x ∷ post), length-append pre post);
  distinct = (drop_one (λ z. c ≢ z) pre x post r.distinct.0, Distinct-drop pre x post r.distinct.1);
  used = (r.used.0, drop_one (λ z. null ≢ z) pre x post r.used.1);
}

process-pid : (s : Scheduler) (a n j : ℕ) → pid_at (set_next a n s) j ≡ pid_at s j
process-pid s a n j = ground arith

unlink_found_lem :
    (rsp prev x i : ℕ) (s : Scheduler)
    → i ≢ s.cardinal_processes
    → pid_at s x ≢ pid_at s s.current
    → unlink_found rsp prev x i s
      ≡ some
          (record (set_next prev (next_of s x) s) { cardinal_processes = s.cardinal_processes - 1 })
unfolding unlink_found
unlink_found_lem rsp prev x i s ne other = rw (
  ne→==-false i s.cardinal_processes ne,
  ne→==-false (pid_at (set_next prev (next_of s x) s) x)
      (pid_at (set_next prev (next_of s x) s) s.current)
      (λ z. other (
        sym (process-pid s prev (next_of s x) x) ∙ z ∙ process-pid s prev (next_of s x) s.current)),
)

-- The guards of `removeProcess` that such a call passes.
remove_guards :
    (rsp pid : ℕ) (s : Scheduler)
    → pid ≢ 0
    → s.current ≢ null
    → pid_at s s.current ≢ pid
    → remove_process rsp pid s ≡ (
        let found = remove_loop s.cardinal_processes pid s.current (next_of s s.current) 0 s in
        unlink_found rsp found.0 found.1 found.2 s)
unfolding remove_process
remove_guards rsp pid s nz used ncur =
    rw
      (
        ne→==-false pid 0 nz,
        ne→==-false s.current null used,
        ne→==-false (pid_at s s.current) pid ncur,
      )
      (elim (Bool-cases (pid_at s s.current == pid_at s (next_of s s.current))) [
        | inl e ↦ rw e
        | inr e ↦ rw e
      ])

-- `removeProcess` of a process of the ring that is not the running one and has not the pid 0 takes
-- the first slot with that pid out of the ring, which keeps its order, and touches no process.
pub remove_process_lem :
    (rsp pid : ℕ) (s : Scheduler) (c : ℕ) (pre : List ℕ) (x : ℕ) (post : List ℕ)
    → IsRing s (c ∷ pre ++ x ∷ post)
    → pid ≢ 0
    → pid_at s c ≢ pid
    → All (λ y. pid_at s y ≢ pid) pre
    → pid_at s x ≡ pid
    → (s' : Scheduler) × (remove_process rsp pid s ≡ some s')
      × IsRing s' (c ∷ pre ++ post)
      × ((j : ℕ) → process_at s' j ≡ process_at s j)
unfolding remove_process without unlink_found
remove_process_lem rsp pid s c pre x post r nz ncur others e =
    let at : s.current ≡ c = (r.links).0 in
    let search =
      remove_loop_lem s pid s.cardinal_processes s.current (next_of s s.current) 0 pre x post
        s.current
        (subst (λ t. Links (next_of s) (next_of s t) (pre ++ x ∷ post) s.current) (sym at)
          (r.links).1)
        others e (omega (arith, r.count, length-append pre (x ∷ post))) in
    (
      without s c pre x,
      remove_guards rsp pid s nz (λ z. r.used.0 (sym z ∙ at))
            (λ z. ncur (ap (pid_at s) (sym at) ∙ z))
          ∙ ap (λ (f : ℕ × ℕ × ℕ). unlink_found rsp f.0 f.1 f.2 s) search
          ∙ unlink_found_lem rsp (last_of s.current pre) x (0 + length pre) s
              (λ z. absurd (omega (arith, z, r.count, length-append pre (x ∷ post))))
              (λ z. ncur (ap (pid_at s) (sym at) ∙ sym z ∙ e))
          ∙ ap (λ t. some (without s t pre x)) at,
      without-IsRing s c pre x post r,
      λ j. process-set_next (last_of c pre) (next_of s x) s j,
    )
