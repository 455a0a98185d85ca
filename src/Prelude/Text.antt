-- ===== src/Prelude/Text.antt =====
-- What the source uses of Rust's text: UTF-8 validity, and decimal numbers.
use shotover_proxy.Prelude.Tests.{ltb, leb, ◌==◌, if◌then◌else◌, Bytes}
use Prim.Native.Nat.{ℕ, zero, suc, ◌+◌, ◌-◌, ◌/◌, ◌%◌, ◌^◌}
use mathlib.Core.Bool.{Bool, true, false, ◌&&◌}
use mathlib.Core.List.{[], ◌∷◌, ◌++◌}
use mathlib.Core.Option.{Option, none, some}

-- How many bytes of a character are still to come, and the bounds of the next one.
abbrev Pending : Type 0
Pending = ℕ × ℕ × ℕ

abbrev lead : ℕ → Option Pending
lead b =
    if ltb b 0x80
    then some (0, 0, 0)
    else if leb 0xc2 b && leb b 0xdf
    then some (1, 0x80, 0xbf)
    else if b == 0xe0
    then some (2, 0xa0, 0xbf)
    else if b == 0xed
    then some (2, 0x80, 0x9f)
    else if leb 0xe1 b && leb b 0xef
    then some (2, 0x80, 0xbf)
    else if b == 0xf0
    then some (3, 0x90, 0xbf)
    else if leb 0xf1 b && leb b 0xf3
    then some (3, 0x80, 0xbf)
    else if b == 0xf4
    then some (3, 0x80, 0x8f)
    else none

abbrev utf8_step : Option Pending → ℕ → Option Pending
utf8_step none b = none
utf8_step (some (zero, lo, hi)) b = lead b
utf8_step (some (suc n, lo, hi)) b = if leb lo b && leb b hi then some (n, 0x80, 0xbf) else none

unfoldable pub utf8_run : Option Pending → Bytes → Bool
utf8_run none [] = false
utf8_run (some (zero, lo, hi)) [] = true
utf8_run (some (suc n, lo, hi)) [] = false
utf8_run state (b ∷ bs) = utf8_run (utf8_step state b) bs

-- `std::str::from_utf8(bytes).is_ok()`
unfoldable pub is_utf8 : Bytes → Bool
unfolding utf8_run
is_utf8 bs = utf8_run (some (0, 0, 0)) bs

-- The decimal digits of a number below 10 ^ fuel.
unfoldable pub digits : ℕ → ℕ → Bytes
digits zero n = []
digits (suc f) n =
    let rest = digits f (n / 10) ++ (b'0' + n % 10) ∷ [] in
    if ltb n 10 then (b'0' + n) ∷ [] else rest

-- `Display` of an `i64`, given as its pattern of 64 bits. 20 digits are enough for 64 bits.
unfoldable pub show_i64 : ℕ → Bytes
unfolding digits
show_i64 i = if ltb i (2 ^ 63) then digits 20 i else b'-' ∷ digits 20 (2 ^ 64 - i)
