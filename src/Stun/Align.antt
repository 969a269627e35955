-- ===== src/Stun/Align.antt =====
-- `align` and `padding` of p2p/go-stun/stun/utils.go.
pub mod Laws
use Prim.Native.Nat.{bit_and}
use go_util.Prelude.{ℕ, ◌+◌, ◌-◌, length, replicate}
use go_util.Wire.Slices.{u16, Slice, append}

-- (n + 3) & 0xfffc on uint16.
unfoldable pub align : ℕ → ℕ
align n = bit_and (u16 (n + 3)) 0xfffc

-- align(length) - length is a uint16 too, so it wraps when `align` does.
unfoldable pub pad_length : ℕ → ℕ
pad_length n = u16 (align n + 65536 - n)

unfoldable pub padding : Slice → Slice
padding bytes = append bytes (replicate (pad_length (u16 (length bytes.content))) 0)
