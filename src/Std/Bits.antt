-- ===== src/Std/Bits.antt =====
-- Shifts and joins of bytes, by evaluation over their range.
use Prim.Native.Nat.{bit_or}
use mathlib.Core.Path.{ap₂}
use lp_0008_logos_agent_modu.Base.{
  ℕ, zero, suc, ◌+◌, ◌*◌, ◌/◌, ◌%◌, ◌<◌, ◌≡◌, refl, ◌∙◌, Bool, true, ◌&&◌, arith, ◌==◌,
}

-- `(hi << 4) | lo` in a byte.
abbrev pub join_nibbles : ℕ → ℕ → ℕ
join_nibbles hi lo = bit_or ((hi * 16) % 256) lo

-- Whether all bytes below a bound are joined from their nibbles.
nibbles_agree : ℕ → Bool
nibbles_agree zero = true
nibbles_agree (suc b) = (b == join_nibbles (b / 16) (b % 16)) && nibbles_agree b

nibbles_agree_lem :
    (bound b : ℕ) → b < bound → nibbles_agree bound ≡ true → join_nibbles (b / 16) (b % 16) ≡ b
unfolding nibbles_agree
nibbles_agree_lem (suc bound) b below agree = ground (arith, nibbles_agree_lem bound b)
nibbles_agree_lem zero b below agree = absurd (omega arith)

bytes_agree : nibbles_agree 256 ≡ true
unfolding nibbles_agree
bytes_agree = refl

-- A byte is joined from its two nibbles.
pub join_nibbles_lem : (x : ℕ) → x < 256 → join_nibbles (x / 16) (x % 16) ≡ x
join_nibbles_lem x small = nibbles_agree_lem 256 x small bytes_agree

pub join_nibbles_sum : (hi lo : ℕ) → hi < 16 → lo < 16 → join_nibbles hi lo ≡ hi * 16 + lo
join_nibbles_sum hi lo h k =
    ap₂ join_nibbles (omega arith) (omega arith) ∙ join_nibbles_lem (hi * 16 + lo) (omega arith)
