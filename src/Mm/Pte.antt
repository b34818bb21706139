-- ===== src/Mm/Pte.antt =====
-- Page table entries and virtual addresses, the Sv39 macros of kernel/include/riscv.h. A mask of low
-- bits is a remainder, and a test of one flag is a test of that bit.
pub mod Laws
use re_xvapor.Base.{ℕ, ◌+◌, ◌*◌, ◌/◌, ◌%◌, ◌^◌, Bool, bit_or}
use re_xvapor.Base.Bits.{bit}

abbrev pub pte_v : ℕ
pte_v = 1

abbrev pub pte_r : ℕ
pte_r = 2

abbrev pub pte_w : ℕ
pte_w = 4

abbrev pub pte_x : ℕ
pte_x = 8

abbrev pub pte_u : ℕ
pte_u = 16

-- pte & PTE_V, and so on.
abbrev pub is_valid : ℕ → Bool
is_valid pte = bit pte 0

abbrev pub is_user : ℕ → Bool
is_user pte = bit pte 4

unfoldable pub pa_to_pte : ℕ → ℕ
pa_to_pte pa = pa / 2 ^ 12 * 2 ^ 10

unfoldable pub pte_to_pa : ℕ → ℕ
pte_to_pa pte = pte / 2 ^ 10 * 2 ^ 12 % 2 ^ 64

unfoldable pub pte_flags : ℕ → ℕ
pte_flags pte = pte % 2 ^ 10

-- va >> PXSHIFT(level)
unfoldable pub vpn : ℕ → ℕ → ℕ
vpn level va = va / 2 ^ (12 + 9 * level)

unfoldable pub px : ℕ → ℕ → ℕ
unfolding vpn
px level va = vpn level va % 2 ^ 9

abbrev pub maxva : ℕ
maxva = 2 ^ 38

-- PGROUNDDOWN
abbrev pub pg_round_down : ℕ → ℕ
pg_round_down a = a / 4096 * 4096

-- PA2PTE(pa) | perm | PTE_V
unfoldable pub leaf_pte : ℕ → ℕ → ℕ
unfolding pa_to_pte
leaf_pte pa perm = bit_or (bit_or (pa_to_pte pa) perm) pte_v

-- PA2PTE(pa) | PTE_V
unfoldable pub table_pte : ℕ → ℕ
unfolding pa_to_pte
table_pte pa = bit_or (pa_to_pte pa) pte_v
