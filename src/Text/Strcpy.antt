-- ===== src/Text/Strcpy.antt =====
-- `strcpy`: a string in memory with its 0, and its copy.
use gat_os_v.Base.{
  ℕ, zero, suc, ◌+◌, ◌<◌, ◌≡◌, ◌≢◌, true, false, arith, refl, sym, ap, ◌∙◌, ◌==◌, update,
  ne→==-false,
}
use gat_os_v.Copy.{Bytes}
use gat_os_v.Copy.Regions.{copied, Disjoint, copied-source, copied-grow, copied-none}
use gat_os_v.Text.{copy_loop, strcpy}

-- A string of `n` bytes lies at `a`: none of them is 0, and a 0 follows.
pub record IsString (m : Bytes) (a n : ℕ) : Type 0 where
  pub bytes : (j : ℕ) → j < n → m (a + j) ≢ 0
  pub ended : m (a + n) ≡ 0

copy_loop-step :
    (rounds to from i : ℕ) (m : Bytes)
    → (m (from + i) == 0) ≡ false
    → copy_loop (suc rounds) to from i m
      ≡ copy_loop rounds to from (i + 1) (update m (to + i) (m (from + i)))
unfolding copy_loop
copy_loop-step rounds to from i m e = rw e

copy_loop-stop :
    (rounds to from i : ℕ) (m : Bytes)
    → (m (from + i) == 0) ≡ true
    → copy_loop (suc rounds) to from i m ≡ (i, m)
unfolding copy_loop
copy_loop-stop rounds to from i m e = rw e

copy_loop-copied :
    (rounds to from i n : ℕ) (m : Bytes)
    → IsString m from n
    → Disjoint to from (n + 1)
    → i + rounds ≡ n
    → copy_loop (suc rounds) to from i (copied to from i m) ≡ (n, copied to from n m)
copy_loop-copied zero to from i n m s apart e =
    let here : i ≡ n = omega (arith, e) in
    let stop : (copied to from i m (from + i) == 0) ≡ true = ground (
      arith,
      copied-source to from i (n + 1) i m (omega arith) (omega arith) apart,
      ap (λ j. m (from + j)) here,
      s.ended,
    ) in
    copy_loop-stop 0 to from i (copied to from i m) stop ∙ ap (λ j. (j, copied to from j m)) here
copy_loop-copied (suc rounds) to from i n m s apart e =
    let read = copied-source to from i (n + 1) i m (omega arith) (omega arith) apart in
    let goes_on : (copied to from i m (from + i) == 0) ≡ false =
      ne→==-false (copied to from i m (from + i)) 0 (λ z. s.bytes i (omega arith) (sym read ∙ z)) in
    copy_loop-step (suc rounds) to from i (copied to from i m) goes_on
    ∙ ap (copy_loop (suc rounds) to from (i + 1))
        (copied-grow to from i (to + i) (copied to from i m (from + i)) m refl read)
    ∙ copy_loop-copied rounds to from (i + 1) n m s apart (omega (arith, e))

-- `strcpy` of a string to a place that has no byte in common with it copies the string and its 0,
-- writes nothing else, and returns the number of its bytes.
strcpy_lem :
    (to from n : ℕ) (m : Bytes)
    → IsString m from n
    → Disjoint to from (n + 1)
    → strcpy (suc n) to from m ≡ (n, copied to from (n + 1) m)
unfolding strcpy
strcpy_lem to from n m s apart =
    let copied_all : copy_loop (suc n) to from 0 m ≡ (n, copied to from n m) =
      ap (copy_loop (suc n) to from 0) (sym (copied-none to from m))
      ∙ copy_loop-copied n to from 0 n m s apart (omega arith) in
    ap (λ out. (out.0, update out.1 (to + out.0) 0)) copied_all
    ∙ ap (λ f. (n, f)) (copied-grow to from n (to + n) 0 m refl (sym s.ended))
