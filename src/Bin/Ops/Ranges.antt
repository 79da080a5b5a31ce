-- ===== src/Bin/Ops/Ranges.antt =====
-- aicl/bin/ops.py: the codes that are assigned, against the ranges that the file names.
use aicl.Common.{Bool, List, [], arith, false, leb, ℕ, ◌&&◌, ◌||◌, ◌∷◌, ◌≡◌}
use aicl.Bin.Ops.{is_assigned, is_listed}

-- Eight ranges: the codes from the first number up to the second.
abbrev pub assigned_ranges : List (ℕ × ℕ)
assigned_ranges =
    (0x00, 0x0A)
    ∷ (0x10, 0x13)
    ∷ (0x20, 0x24)
    ∷ (0x30, 0x32)
    ∷ (0x40, 0x46)
    ∷ (0x50, 0x52)
    ∷ (0x60, 0x62)
    ∷ (0xF0, 0xFF)
    ∷ []

abbrev pub within : ℕ → List (ℕ × ℕ) → Bool
within c [] = false
within c ((a, b) ∷ ranges) = (leb a c && leb c b) || within c ranges

-- An opcode is assigned exactly if it lies in a range.
pub is_assigned-ranges : (c : ℕ) → is_assigned c ≡ within c assigned_ranges
unfolding is_assigned is_listed
is_assigned-ranges c = ground arith
