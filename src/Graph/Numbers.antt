-- ===== src/Graph/Numbers.antt =====
-- Go's int64 as a bit pattern: the signed order, and the conversion of a float64.
use moos_kernel.Prelude.{◌+◌, ◌-◌, ◌*◌, ◌/◌, ◌%◌, ◌^◌, ℕ, Bool, ltb, leb, if◌then◌else◌}
use moos_kernel.Graph.{Int64}

-- The place of a bit pattern in the signed order.
abbrev pub rank : Int64 → ℕ
rank a = (a + 2 ^ 63) % 2 ^ 64

-- `a > b` on int64
abbrev pub int64_gt : Int64 → Int64 → Bool
int64_gt a b = ltb (rank b) (rank a)

-- `a >= b` on int64
abbrev pub int64_ge : Int64 → Int64 → Bool
int64_ge a b = leb (rank b) (rank a)

-- `int64(x)` on a float64: it is cut to its whole part, and one out of range is what amd64 gives.
unfoldable pub float_to_int64 : ℕ → Int64
float_to_int64 bits =
    let exponent = bits / 2 ^ 52 % 2 ^ 11 in
    let mantissa = 2 ^ 52 + bits % 2 ^ 52 in
    let whole =
      if leb 1075 exponent
      then mantissa * 2 ^ (exponent - 1075)
      else mantissa / 2 ^ (1075 - exponent) in
    if ltb exponent 1023
    then 0
    else if leb 1086 exponent
    then 2 ^ 63
    else if leb (2 ^ 63) bits
    then (2 ^ 64 - whole) % 2 ^ 64
    else whole
