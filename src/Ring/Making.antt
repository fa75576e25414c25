-- ===== src/Ring/Making.antt =====
-- pkg/buffer/ring/ring_buffer.go: what New gives.
use wsgnet.Prelude.{ℕ, zero, suc, ◌≤◌, ◌^◌, ◌≡◌, refl, true, some, [], arith, length-tabulate}
use wsgnet.Toolkit.{ceil_to_power_of_two}
use wsgnet.Ring.Defs.{Ring, new, zeros}
use wsgnet.Ring.Contents.{IsValid, contents}
use wsgnet.Ring.Removal.{contents_empty}
use wsgnet.Ring.Capacity.{ceil-le}

made : ℕ → Ring
made m = record { buf = zeros m; size = m; r = 0; w = 0; is_empty = true }

made-IsValid : (m : ℕ) → IsValid (made m)
unfolding made
made-IsValid m = record {
  held = length-tabulate m (λ _. 0);
  r_in = omega arith;
  w_in = omega arith;
  empty_meets = λ _. refl;
  room = λ e. cc;
}

new-suc : (n m : ℕ) → ceil_to_power_of_two (suc n) ≡ some m → new (suc n) ≡ some (made m)
unfolding new made
new-suc n m e = ground (arith, e)

new_zero : new 0 ≡ some (made 0)
unfolding new made
new_zero = refl

-- New gives a well-formed buffer that holds nothing and has room for what was asked for at least,
-- and does not panic, for sizes up to 2 ^ 62.
pub new_lem :
    (n : ℕ)
    → n ≤ 2 ^ 62
    → (b : Ring) × (new n ≡ some b) × IsValid b × (contents b ≡ []) × (n ≤ b.size)
unfolding made
new_lem zero h = (made 0, new_zero, made-IsValid 0, contents_empty (made 0) refl, omega arith)
new_lem (suc n) h =
    let (m, eq, le) = ceil-le (suc n) h in
    (made m, new-suc n m eq, made-IsValid m, contents_empty (made m) refl, le)
