-- ===== src/Doom/Fixed/Tests.antt =====
-- 3.5 / -1.25 and 1.0 / 3.0 in 16.16.
use rv_o.Base.{◌≡◌, refl, some}
use rv_o.Doom.Fixed.{abs_int, divide_magnitudes, fixed_div}

quotients :
    (fixed_div 0x38000 0xFFFEC000 ≡ some 0xFFFD3334) × (fixed_div 0x10000 0x30000 ≡ some 0x5555)
unfolding fixed_div abs_int divide_magnitudes
quotients = (refl, refl)
