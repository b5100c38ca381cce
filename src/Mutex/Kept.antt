-- ===== src/Mutex/Kept.antt =====
-- A mutex that `lockMutex` has taken and that is not given back.
use gat_os_v.Base.{
  ℕ, ◌<◌, ◌≡◌, ltb, true, false, arith, refl, sym, ap, ◌∙◌, subst, update, update_self, leb,
  if◌then◌else◌,
}
use gat_os_v.Mutex.{max_mutexes, max_blocked_queue_size, Mutex, Table, is_valid_mutex, free_mutex}
use gat_os_v.Process.{Processes}
use gat_os_v.Mutex.HandOver.{IsConsistent}

module _ (k : ℕ) where
  abbrev pub kept : Table → Table
  kept t = update t k (record (t k) { mutex = 1 })

  pub kept-IsConsistent : (t : Table) → IsConsistent (t k) → IsConsistent (kept t k)
  kept-IsConsistent t c =
      subst IsConsistent (sym (update_self t k (record (t k) { mutex = 1 })))
        (record { places = c.places; counted = c.counted; held = λ _. refl; flag = omega arith })

  pub is_valid_mutex-kept :
      (t : Table) → is_valid_mutex k t ≡ true → is_valid_mutex k (kept t) ≡ true
  unfolding is_valid_mutex
  is_valid_mutex-kept t valid =
      ap (λ (m : Mutex). if leb max_mutexes k then false else m.used) (update_self t k _) ∙ valid

  pub kept-held : (t : Table) → (kept t k).mutex ≡ 1
  kept-held t = ap (λ (m : Mutex). m.mutex) (update_self t k _)

  few_wait :
      (t : Table)
      → IsConsistent (t k)
      → (t k).mutex ≡ 0
      → (t k).cardinal_blocked < max_blocked_queue_size
  few_wait t c free = ground (arith, c.held)

  pub kept-room :
      (t : Table)
      → IsConsistent (t k)
      → (t k).mutex ≡ 0
      → (kept t k).cardinal_blocked < max_blocked_queue_size
  kept-room t c free =
      subst (λ (m : Mutex). m.cardinal_blocked < max_blocked_queue_size)
        (sym (update_self t k (record (t k) { mutex = 1 }))) (few_wait t c free)

module _ (P : Processes) (k : ℕ) where
  open P use {State}

  -- `freeMutex` of a mutex that was taken when nobody waited for it.
  pub free_mutex-kept :
      (t : Table) (s : State)
      → is_valid_mutex k t ≡ true
      → IsConsistent (t k)
      → (t k).mutex ≡ 0
      → (t' : Table) × (free_mutex P k (kept k t, s) ≡ (t', s)) × ((t' k).mutex ≡ 0)
  unfolding free_mutex
  free_mutex-kept t s valid c free =
      let m : Mutex = record (kept k t k) { mutex = 0 } in
      let alone : (kept k t k).cardinal_blocked ≡ 0 =
        ap (λ (x : Mutex). x.cardinal_blocked) (update_self t k _) ∙ ground (arith, c.held) in
      let nobody : ltb 0 (kept k t k).cardinal_blocked ≡ false = ground (arith, alone) in
      (
        update (kept k t) k m,
        rw (is_valid_mutex-kept k t valid, nobody) refl,
        ap (λ (x : Mutex). x.mutex) (update_self (kept k t) k m),
      )
