-- ===== src/Stun/Attribute/Cuts.antt =====
-- Reading a 16-bit number out of a slice.
use go_util.Prelude.{ℕ, ◌+◌, ◌≡◌, ap, List, ◌++◌, length, ok, arith}
use go_util.Wire.Slices.{IsU16, Slice, array, put_uint16, reslice_at}
use go_util.Stun.Attribute.{uint16_at}

-- A 16-bit number written at the start of what follows `front` is read back there.
pub uint16_at_front :
    (s : Slice) (lo hi n : ℕ) (front back : List ℕ)
    → array s ≡ front ++ (put_uint16 n ++ back)
    → lo ≡ length front
    → hi ≡ lo + 2
    → IsU16 n
    → uint16_at s lo hi ≡ ok n
unfolding uint16_at
uint16_at_front s lo hi n front back e el eh h =
    rw (reslice_at s lo hi front (put_uint16 n) back e el eh) (ap ok (omega arith))
