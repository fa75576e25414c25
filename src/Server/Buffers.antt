-- ===== src/Server/Buffers.antt =====
-- gnet.go: what Run makes of the capacities of the buffers.
use wsgnet.Prelude.{false, false, non_positive, ℕ, ◌+◌, ◌^◌, ◌≤◌, ◌<◌, ◌≡◌, true, ℤ, pos_part}
use wsgnet.Options.{Options}

-- The capacity that is given where one is asked for: 64 KB where none is, 1024 up to that, and above it
-- the least power of two that is not below what is asked for.
abbrev pub Serves : ℤ → ℕ → Type 0
Serves asked given =
    (non_positive asked ≡ true → given ≡ 65536)
    × (non_positive asked ≡ false → pos_part asked ≤ 1024 → given ≡ 1024)
    × (1024 < pos_part asked
        → (k : ℕ) × (given ≡ 2 ^ (k + 1)) × (2 ^ k < pos_part asked) × (pos_part asked ≤ given))
