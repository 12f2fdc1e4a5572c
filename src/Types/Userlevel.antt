-- ===== src/Types/Userlevel.antt =====
-- `userlevel_t` of include/decof/userlevel.h.
use de_co_f.Base.{ℕ, ◌-◌, ◌^◌}

-- An enumeration over `int`, whose values here are the numbers from 0; the smaller the number, the
-- more its client may do.
abbrev pub minimum : ℕ
minimum = 0

abbrev pub internal : ℕ
internal = minimum

abbrev pub service : ℕ
service = 1

abbrev pub maintenance : ℕ
maintenance = 2

abbrev pub normal : ℕ
normal = 3

abbrev pub readonly : ℕ
readonly = 4

abbrev pub maximum : ℕ
maximum = readonly

-- numeric_limits<int>::max()
abbrev pub forbidden : ℕ
forbidden = 2 ^ 31 - 1
