-- ===== src/Bech32/Step.antt =====
-- One round of the loop of `bytes_to_bech32`, as arithmetic.
use pttp.Prelude.{ℕ, zero, suc, ◌+◌, ◌-◌, ◌*◌, ◌/◌, ◌%◌, ◌^◌, ◌≤◌, ◌<◌, ◌≡◌, arith}

-- The bits of byte `x` from `j` on stand in `n`; above `x` stands the number `t`.
-- The round's five bits, what it carries and what is left, where the byte lasts for the round.
pub same_byte :
    (j x t : ℕ)
    → j < 3
    → x < 256
    → (x / 2 ^ j % 32 ≡ (x + t * 256) / 2 ^ j % 32)
      × (x / 2 ^ j / 32 ≡ x / 2 ^ (j + 5))
      × ((x + t * 256) / 2 ^ j / 32 ≡ (x + t * 256) / 2 ^ (j + 5))
same_byte zero x t h hx = omega arith
same_byte (suc zero) x t h hx = omega arith
same_byte (suc (suc zero)) x t h hx = omega arith
same_byte (suc (suc (suc j))) x t h hx = absurd (omega arith)

-- The same where the round goes on into the next byte, which is `t % 256`.
pub next_byte :
    (j x t : ℕ)
    → 3 ≤ j
    → j < 8
    → x < 256
    → ((x / 2 ^ j + t % 256 * 2 ^ (8 - j)) % 32 ≡ (x + t * 256) / 2 ^ j % 32)
      × ((x / 2 ^ j + t % 256 * 2 ^ (8 - j)) / 32 ≡ t % 256 / 2 ^ (j - 3))
      × ((x + t * 256) / 2 ^ j / 32 ≡ t / 2 ^ (j - 3))
next_byte zero x t h h' hx = absurd (omega arith)
next_byte (suc zero) x t h h' hx = absurd (omega arith)
next_byte (suc (suc zero)) x t h h' hx = absurd (omega arith)
next_byte (suc (suc (suc zero))) x t h h' hx = omega arith
next_byte (suc (suc (suc (suc zero)))) x t h h' hx = omega arith
next_byte (suc (suc (suc (suc (suc zero))))) x t h h' hx = omega arith
next_byte (suc (suc (suc (suc (suc (suc zero)))))) x t h h' hx = omega arith
next_byte (suc (suc (suc (suc (suc (suc (suc zero))))))) x t h h' hx = omega arith
next_byte (suc (suc (suc (suc (suc (suc (suc (suc j)))))))) x t h h' hx = absurd (omega arith)
