-- ===== src/Semaphore/Creation.antt =====
-- `semCreate` of a name that is in use.
use gat_os_v.Base.{ℕ, ◌≡◌, ◌<◌, inl, inr, true, refl, ap, none, some, List, update, ℤ, Option-cases}
use gat_os_v.Process.{blocked, Pid, Processes}
use gat_os_v.Outcome.{goes_on, after_yield}
use gat_os_v.Mutex.{Mutex, Table, is_valid_mutex, lock_mutex, max_blocked_queue_size}
use gat_os_v.Mutex.Kept.{kept, kept-IsConsistent, kept-held, kept-room, is_valid_mutex-kept}
use gat_os_v.Mutex.HandOver.{IsConsistent, lock_mutex_free, lock_mutex_held}
use gat_os_v.Semaphore.{
  Semaphores, max_semaphores, sem_index_from, create_unless, sem_create_locked, sem_create,
}

module _ (P : Processes) (stray : Pid) (outside : ℕ) (at_null : List ℕ) (k : ℕ) where
  open P use {State, current_pid, change_state, yield_process}

  sem_create-known :
      (j : ℕ) (name : List ℕ) (start : ℤ) (sems : Semaphores) (t : Table) (s : State)
      → is_valid_mutex k t ≡ true
      → IsConsistent (t k)
      → (t k).mutex ≡ 0
      → sem_index_from at_null name max_semaphores 0 sems ≡ some j
      → sem_create P stray outside at_null k name start (sems, (t, s))
        ≡ goes_on (none, (sems, (kept k t, s)))
  unfolding sem_create sem_create_locked create_unless
  sem_create-known j name start sems t s valid c free known =
      let in_use : sem_create_locked P stray outside at_null k name start (sems, (kept k t, s))
          ≡ goes_on (none, (sems, (kept k t, s))) =
        ap (λ found. create_unless P found stray outside at_null k name start (sems, (kept k t, s)))
          known in
      rw (lock_mutex_free P stray k t s valid c free) in_use

  sem_create-waits :
      (name : List ℕ) (start : ℤ) (sems : Semaphores) (t : Table) (s s1 : State) (m : Mutex)
      → lock_mutex P stray k (t, s) ≡ after_yield (yield_process s1) (λ s'. (update t k m, s'))
      → sem_create P stray outside at_null k name start (sems, (t, s))
        ≡ after_yield (yield_process s1) (λ s'. (none, (sems, (update t k m, s'))))
  unfolding sem_create
  sem_create-waits name start sems t s s1 m e = elim (Option-cases (yield_process s1)) [
    | inl nobody ↦ rw (e, nobody) refl
    | inr (s2, chosen) ↦ rw (e, chosen) refl
  ]

  -- `semCreate` of a name in use, where its mutex is valid, consistent and free, returns ERROR and
  -- keeps the mutex: whoever calls `semCreate` next, with whatever name, is blocked on it.
  pub sem_create_stuck :
      (j p : ℕ) (name name' : List ℕ) (start start' : ℤ) (sems : Semaphores) (t : Table)
      (s s' : State)
      → is_valid_mutex k t ≡ true
      → IsConsistent (t k)
      → (t k).mutex ≡ 0
      → sem_index_from at_null name max_semaphores 0 sems ≡ some j
      → current_pid s' ≡ some p
      → (sem_create P stray outside at_null k name start (sems, (t, s))
          ≡ goes_on (none, (sems, (kept k t, s))))
        × (m : Mutex) × (sem_create P stray outside at_null k name' start' (sems, (kept k t, s'))
            ≡ after_yield
                (yield_process (change_state (some p) blocked s'))
                (λ s2. (none, (sems, (update (kept k t) k m, s2)))))
  sem_create_stuck j p name name' start start' sems t s s' valid c free known caller =
      let c1 = kept-IsConsistent k t c in
      let held : (kept k t k).mutex ≡ 1 = kept-held k t in
      let room : (kept k t k).cardinal_blocked < max_blocked_queue_size = kept-room k t c free in
      let (m, waits, _, _, _) =
        lock_mutex_held P stray k p (kept k t) s' (is_valid_mutex-kept k t valid) c1 held room
          caller in
      (
        sem_create-known j name start sems t s valid c free known,
        m,
        sem_create-waits name' start' sems (kept k t) s' _ m waits,
      )
