-- ===== src/Mutex/Waiting.antt =====
-- The queue of a mutex or a semaphore, and its counter.
use gat_os_v.Base.{
  ℕ, suc, ◌+◌, ◌≤◌, ◌<◌, ◌≡◌, none, some, arith, refl, ap, ◌∙◌, List, [], ◌∷◌, length, set,
  length-set, ◌==◌, if◌then◌else◌,
}
use gat_os_v.Process.{Pid}
use gat_os_v.Mutex.{add_waiting, take_waiting, free_spot_from}

-- How many processes wait in the queue.
unfoldable pub waiting : List Pid → ℕ
waiting [] = 0
waiting (none ∷ ps) = waiting ps
waiting (some p ∷ ps) = waiting ps + 1

-- `p` waits in the queue, once or more.
unfoldable pub times : ℕ → List Pid → ℕ
times p [] = 0
times p (none ∷ ps) = times p ps
times p (some q ∷ ps) = times p ps + (if p == q then 1 else 0)

pub waiting-le : (ps : List Pid) → waiting ps ≤ length ps
unfolding waiting
waiting-le [] = omega arith
waiting-le (none ∷ ps) = omega (arith, waiting-le ps)
waiting-le (some p ∷ ps) = omega (arith, waiting-le ps)

-- A queue with room has a free place, and a write there adds one process.
free_spot_from_lem :
    (i : ℕ) (ps : List Pid) (p : ℕ)
    → waiting ps < length ps
    → (k : ℕ) × (free_spot_from i ps ≡ some (i + k))
      × (waiting (set ps k (some p)) ≡ waiting ps + 1)
      × ((q : ℕ) → times q (set ps k (some p)) ≡ times q ps + (if q == p then 1 else 0))
unfolding free_spot_from waiting times
free_spot_from_lem i [] p room = absurd (omega arith)
free_spot_from_lem i (none ∷ ps) p room = (0, ap some (omega arith), refl, λ q. refl)
free_spot_from_lem i (some x ∷ ps) p room =
    let (k, e, w, t) = free_spot_from_lem (i + 1) ps p (omega arith) in
    (suc k, e ∙ ap some (omega arith), omega (arith, w), λ q. ground (arith, t q))

-- What `addToBlocked` does to a queue with room.
pub record Added (p : ℕ) (ps : List Pid) (n : ℕ) (out : List Pid × ℕ) : Type 0 where
  pub counted : out.1 ≡ n + 1
  pub more : waiting out.0 ≡ waiting ps + 1
  pub same_length : length out.0 ≡ length ps
  pub entries : (q : ℕ) → times q out.0 ≡ times q ps + (if q == p then 1 else 0)

-- A write to a queue with a free place puts the pid there once, counts one more, and keeps the
-- other entries.
pub add_waiting_lem :
    (p : ℕ) (ps : List Pid) (n : ℕ)
    → waiting ps < length ps
    → Added p ps n (add_waiting (some p) ps n)
unfolding add_waiting
add_waiting_lem p ps n room =
    let (k, e, w, t) = free_spot_from_lem 0 ps p room in
    let at : free_spot_from 0 ps ≡ some k = e ∙ ap some (omega arith) in
    rw (at, add_waiting)
      (record { counted = refl; more = w; same_length = length-set ps k (some p); entries = t })

-- What `unblockProcess` does to a queue in which somebody waits.
pub record Taken (ps : List Pid) (out : Pid × List Pid) : Type 0 where
  pub pid : ℕ
  pub found : out.0 ≡ some pid
  pub less : waiting out.1 + 1 ≡ waiting ps
  pub same_length : length out.1 ≡ length ps
  pub entries : (q : ℕ) → times q out.1 + (if q == pid then 1 else 0) ≡ times q ps

-- From a queue in which somebody waits exactly one pid is taken, and the other entries stay.
pub take_waiting_lem : (ps : List Pid) → 0 < waiting ps → Taken ps (take_waiting ps)
unfolding take_waiting waiting times
take_waiting_lem [] some_wait = absurd (omega arith)
take_waiting_lem (none ∷ ps) some_wait =
    let r = take_waiting_lem ps some_wait in
    record {
      pid = r.pid;
      found = r.found;
      less = r.less;
      same_length = omega (arith, r.same_length);
      entries = r.entries;
    }
take_waiting_lem (some p ∷ ps) some_wait = record {
  pid = p;
  found = refl;
  less = refl;
  same_length = refl;
  entries = λ q. refl;
}
