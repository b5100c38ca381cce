-- ===== src/Buddy/Blocks.antt =====
-- The pages of a block: their leaves and their addresses.
use native.Mathlib.Nat.{mul-div_cancel_left, mul-le-mul_right}
use gat_os_v.Base.{ℕ, ◌+◌, ◌-◌, ◌*◌, ◌/◌, ◌^◌, ◌≤◌, ◌<◌, ◌≡◌, arith, pow-pos, pow-mul, ap, ◌∙◌}
use gat_os_v.Buddy.{page_size, memory, base_memory, heap_size}
use gat_os_v.Buddy.Pages.{Under, above-block}
use gat_os_v.Buddy.Layout.{layout}

-- The blocks at depth `d` are `2 ^ (10 - d)` pages.
pub block_pages : (d : ℕ) → d ≤ 10 → 2 ^ d * 2 ^ (10 - d) ≡ 1024
block_pages d le = pow-mul d (10 - d) ∙ ap (◌^◌ 2) (rest d le)
  where
    rest : (d : ℕ) → d ≤ 10 → d + (10 - d) ≡ 10
    rest d le = omega arith

pub block_size : (d : ℕ) → d ≤ 10 → memory / 2 ^ d ≡ page_size * 2 ^ (10 - d)
block_size d le =
    ap (λ t. t / 2 ^ d) (factor (2 ^ d) (2 ^ (10 - d)) (block_pages d le))
    ∙ mul-div_cancel_left (page_size * 2 ^ (10 - d)) (pow-pos d)
  where
    factor : (a q : ℕ) → a * q ≡ 1024 → memory ≡ a * (page_size * q)
    factor a q h = omega arith

-- The leaf of the `k`-th page of a block.
abbrev pub page_node : ℕ → ℕ → ℕ → ℕ
page_node d e k = (2 ^ d + e) * 2 ^ (10 - d) + k

block_bound : (a q e k : ℕ) → a * q ≡ 1024 → e < a → k < q → (a + e) * q + k ≤ heap_size
block_bound a q e k h small lt = omega (arith, mul-le-mul_right q small)

pub page_node-le : (d e k : ℕ) → d ≤ 10 → e < 2 ^ d → k < 2 ^ (10 - d) → page_node d e k ≤ heap_size
page_node-le d e k le small lt = block_bound (2 ^ d) (2 ^ (10 - d)) e k (block_pages d le) small lt

pub page_address :
    (d e k : ℕ)
    → d ≤ 10
    → layout d e + k * page_size + 1024 * page_size ≡ base_memory + page_node d e k * page_size
page_address d e k le =
    ap (λ t. base_memory + t * e + k * page_size + 1024 * page_size) (block_size d le)
    ∙ gather (2 ^ d) (2 ^ (10 - d)) (block_pages d le)
  where
    gather :
        (a q : ℕ)
        → a * q ≡ 1024
        → base_memory + page_size * q * e + k * page_size + 1024 * page_size
          ≡ base_memory + ((a + e) * q + k) * page_size
    gather a q h = omega arith

pub page_node-Under : (d e k : ℕ) → k < 2 ^ (10 - d) → Under (page_node d e k) (2 ^ d + e)
page_node-Under d e k lt = record {
  steps = 10 - d;
  reaches = above-block (10 - d) (2 ^ d + e) k lt;
}
