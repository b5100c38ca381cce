-- ===== src/Mutex/Names.antt =====
-- `getMutex`: mutexes by name.
use gat_os_v.Base.{
  ℕ, zero, suc, ◌+◌, ◌≤◌, ◌<◌, ◌≡◌, ◌≢◌, ◌⊎◌, inl, inr, Bool, true, ◌&&◌, Option, none, some, arith,
  refl, sym, subst, ap, ◌∙◌, List, Bool-cases, update, update_self, update_ne,
}
use gat_os_v.Process.{Pid}
use gat_os_v.Strings.{IsBytes, strcmp_zero}
use gat_os_v.Mutex.{
  Mutex, Table, max_mutexes, has_name, index_from, get_index, unused_from, get_free_spot,
  create_mutex, get_mutex_locked,
}

-- The test of `getIndex`.
abbrev Matches : List ℕ → List ℕ → Mutex → Type 0
Matches at_null name m = (has_name at_null m.name name && m.used) ≡ true

module _ (at_null name : List ℕ) where
  index_from-none :
      (n i k : ℕ) (t : Table)
      → index_from at_null name n i t ≡ none
      → i ≤ k
      → k < i + n
      → ¬ Matches at_null name (t k)
  unfolding index_from
  index_from-none zero i k t e lo hi m = absurd (omega arith)
  index_from-none (suc n) i k t e lo hi m =
      elim (Bool-cases (has_name at_null (t i).name name && (t i).used)) [
        | inl here ↦ absurd (cc (rw here at e))
        | inr not_here ↦ elim (split i k lo) [
          | inl same ↦ cc (not_here, m, same)
          | inr later ↦ index_from-none n (i + 1) k t (rw not_here at e) later (omega arith) m
        ]
      ]
    where
      split : (i k : ℕ) → i ≤ k → (i ≡ k) ⊎ (i + 1 ≤ k)
      split i k lo = grind arith

      test : ℕ → Bool
      test j = has_name at_null (t j).name name && (t j).used

  index_from-some :
      (n i k : ℕ) (t : Table)
      → i ≤ k
      → k < i + n
      → ((j : ℕ) → i ≤ j → j < k → ¬ Matches at_null name (t j))
      → Matches at_null name (t k)
      → index_from at_null name n i t ≡ some k
  unfolding index_from
  index_from-some zero i k t lo hi before m = absurd (omega arith)
  index_from-some (suc n) i k t lo hi before m = elim (split i k lo) [
    | inl same ↦ rw (ap test same ∙ m) (ap some same)
    | inr later ↦ elim (Bool-cases (has_name at_null (t i).name name && (t i).used)) [
      | inl here ↦ absurd (before i (omega arith) (omega arith) here)
      | inr not_here ↦
          rw not_here (
            index_from-some n (i + 1) k t later (omega arith) (λ j a b. before j (omega arith) b) m)
    ]
  ]
    where
      split : (i k : ℕ) → i ≤ k → (i ≡ k) ⊎ (i + 1 ≤ k)
      split i k lo = grind arith

      test : ℕ → Bool
      test j = has_name at_null (t j).name name && (t j).used

unused_from-bound : (n i k : ℕ) (t : Table) → unused_from n i t ≡ some k → (i ≤ k) × (k < i + n)
unfolding unused_from
unused_from-bound zero i k t e = cc
unused_from-bound (suc n) i k t e = elim (Bool-cases (t i).used) [
  | inl used ↦
      let (lo, hi) = unused_from-bound n (i + 1) k t (rw used at e) in (omega arith, omega arith)
  | inr free ↦
      let same : some i ≡ some k = rw free at e in let eq : i ≡ k = cc in (omega arith, omega arith)
]

module _ (at_null name : List ℕ) where
  known :
      (pid : Pid) (t : Table) (i : ℕ)
      → get_index at_null name t ≡ some i
      → get_mutex_locked at_null pid name t ≡ (some i, t)
  unfolding get_mutex_locked
  known pid t i e = rw (e, get_mutex_locked)

  full_table :
      (pid : Pid) (t : Table)
      → get_index at_null name t ≡ none
      → get_free_spot t ≡ none
      → get_mutex_locked at_null pid name t ≡ (none, t)
  unfolding get_mutex_locked create_mutex
  full_table pid t e f = rw (e, f, get_mutex_locked, create_mutex)

  -- The mutex that `createMutex` makes.
  abbrev created : Pid → Table → ℕ → Mutex
  created pid t i = record (t i) { used = true; name = some name; pid_creator = pid }

  fresh :
      (pid : Pid) (t : Table) (i : ℕ)
      → get_index at_null name t ≡ none
      → get_free_spot t ≡ some i
      → get_mutex_locked at_null pid name t ≡ (some i, update t i (created pid t i))
  unfolding get_mutex_locked create_mutex
  fresh pid t i e f = rw (e, f, get_mutex_locked, create_mutex)

  index-created :
      (pid : Pid) (t : Table) (i : ℕ)
      → IsBytes name
      → get_index at_null name t ≡ none
      → get_free_spot t ≡ some i
      → get_index at_null name (update t i (created pid t i)) ≡ some i
  unfolding get_index get_free_spot
  index-created pid t i bytes e f =
      let hi : i < max_mutexes = omega (arith, (unused_from-bound max_mutexes 0 i t f).1) in
      index_from-some at_null name max_mutexes 0 i (update t i (created pid t i)) (omega arith)
        (omega (arith, hi))
        (λ j lo earlier m. index_from-none at_null name max_mutexes 0 j t e lo (omega (arith, hi)) (
          ap (λ x. has_name at_null x.name name && x.used)
            (sym (update_ne t i j (created pid t i) (λ d. omega (arith, d))))
          ∙ m))
        (ap (λ x. has_name at_null x.name name && x.used) (update_self t i (created pid t i))
          ∙ rw ((strcmp_zero name name bytes bytes).1 refl))

-- For a name that is a string of bytes: once `getMutex`, between its lock and its release of the
-- administration mutex, has found or made an index for the name, it gives the same index for that
-- name again, to whatever process, and changes no mutex.
pub get_mutex_again :
    (at_null name : List ℕ) (pid pid' : Pid) (t : Table)
    → IsBytes name
    → let (found, t1) = get_mutex_locked at_null pid name t in
      found ≢ none → get_mutex_locked at_null pid' name t1 ≡ (found, t1)
get_mutex_again at_null name pid pid' t bytes = go (get_index at_null name t) refl
  where
    Again : Option ℕ × Table → Type 0
    Again out = out.0 ≢ none → get_mutex_locked at_null pid' name out.1 ≡ out

    create :
        (r : Option ℕ)
        → get_index at_null name t ≡ none
        → get_free_spot t ≡ r
        → Again (get_mutex_locked at_null pid name t)
    create none e f = subst Again (sym (full_table at_null name pid t e f)) (λ ne. absurd (ne refl))
    create (some i) e f =
        subst Again (sym (fresh at_null name pid t i e f))
          (λ _. known at_null name pid' _ i (index-created at_null name pid t i bytes e f))

    go : (r : Option ℕ) → get_index at_null name t ≡ r → Again (get_mutex_locked at_null pid name t)
    go none e = create (get_free_spot t) e refl
    go (some i) e =
        subst Again (sym (known at_null name pid t i e)) (λ _. known at_null name pid' t i e)
