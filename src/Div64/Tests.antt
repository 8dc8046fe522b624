-- ===== src/Div64/Tests.antt =====
-- A run of src/kernel/lib/div64.c, and the theorem at it.
use lux_kernel.Base.{◌/◌, ◌%◌, ◌≡◌, refl, arith, if◌then◌else◌, ◌==◌}
use lux_kernel.Div64
use lux_kernel.Div64.{udivmoddi4, div_loop, div_step}

divides_large : udivmoddi4 18446744073709551615 18446744073709551557 ≡ (1, 58)
unfolding udivmoddi4 div_loop div_step
divides_large = refl

udivmoddi4-div_example :
    udivmoddi4 1000000007 10 ≡ (if 10 == 0 then (0, 0) else (1000000007 / 10, 1000000007 % 10))
udivmoddi4-div_example = Div64.udivmoddi4-div 1000000007 10 (omega arith)
