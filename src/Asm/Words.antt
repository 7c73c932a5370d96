-- ===== src/Asm/Words.antt =====
-- Instruction words.
use backup_gatech.Common.{
  ℕ, ◌+◌, ◌-◌, ◌*◌, ◌/◌, ◌%◌, ◌^◌, ◌<◌, ◌≡◌, true, if◌then◌else◌, ltb, arith,
}
use backup_gatech.Asm.{check_offset, construct_I}

-- The 32 bits of the number that 20 bits stand for.
abbrev pub sign_extend : ℕ → ℕ
sign_extend field = if ltb field (2 ^ 19) then field else field + (2 ^ 32 - 2 ^ 20)

sign_extend-low :
    (offset : ℕ)
    → offset < 2 ^ 32
    → check_offset offset ≡ true
    → sign_extend (offset % 2 ^ 20) ≡ offset
sign_extend-low offset lo ok = ground arith

-- With an opcode and registers below 16 and an offset that check_offset accepts, every field of a
-- word of format I can be read back, the offset with its sign.
pub construct_I-fields :
    (op a b offset : ℕ)
    → op < 16
    → a < 16
    → b < 16
    → offset < 2 ^ 32
    → check_offset offset ≡ true
    → (construct_I op a b offset / 2 ^ 28 ≡ op)
      × (construct_I op a b offset / 2 ^ 24 % 16 ≡ b)
      × (construct_I op a b offset / 2 ^ 20 % 16 ≡ a)
      × (sign_extend (construct_I op a b offset % 2 ^ 20) ≡ offset)
unfolding construct_I
construct_I-fields op a b offset lop la lb lo ok =
    let low : (op * 2 ^ 28 + a * 2 ^ 20 + b * 2 ^ 24 + offset % 2 ^ 20) % 2 ^ 20 ≡ offset % 2 ^ 20 =
      omega arith in
    (omega arith, omega arith, omega arith, rw low (sign_extend-low offset lo ok))
