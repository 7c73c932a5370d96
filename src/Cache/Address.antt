-- ===== src/Cache/Address.antt =====
-- How an address splits into tag, index and offset.
use backup_gatech.Common.{
  ℕ, zero, suc, ◌+◌, ◌-◌, ◌*◌, ◌/◌, ◌%◌, ◌^◌, ◌<◌, ◌≤◌, ◌≡◌, arith, sym, ◌∙◌, ap, ◌==◌, Bool-cases,
  inl, inr,
}
use native.Mathlib.Nat.{
  pow-suc, one-le-pow, mul_comm, mod-eq-sub-mul-div, mul-div-mul_right, div-lt_iff_lt-mul,
  div-div-eq-div-mul, mul-add-div, mul-div_cancel, mul-sub, mod-lt, mod-eq_of_lt,
  mul-add-mod_self_left, div-add-mod,
}
use backup_gatech.Cache.{Config, configure, get_tag, get_index}

pub pow-add : (a b : ℕ) → 2 ^ (a + b) ≡ 2 ^ a * 2 ^ b
pow-add zero b = let e : zero + b ≡ b = omega arith in rw e (omega arith)
pow-add (suc a) b =
    let e : 2 ^ suc (a + b) ≡ 2 ^ (a + b) * 2 = pow-suc 2 (a + b) in
    let e' : 2 ^ suc a ≡ 2 ^ a * 2 = pow-suc 2 a in
    let same : suc a + b ≡ suc (a + b) = omega arith in rw (same, e, pow-add a b, e') (grind arith)

pub pow-pos : (a : ℕ) → 0 < 2 ^ a
pow-pos a = one-le-pow a 2 (omega arith)

mul-sub_right : (a p m q : ℕ) → a * p - m * p * q ≡ (a - m * q) * p
mul-sub_right a p m q = omega (arith, mul_comm (a - m * q) p ∙ mul-sub p a (m * q))

-- Shifting up and masking, then shifting down, is taking the remainder.
mul-mod-div : (a p m : ℕ) → 0 < p → 0 < m → a * p % (m * p) / p ≡ a % m
mul-mod-div a p m h k =
    let whole : a * p % (m * p) ≡ a * p - m * p * (a / m) =
      mod-eq-sub-mul-div (a * p) (m * p) ∙ ap (λ q. a * p - m * p * q) (mul-div-mul_right a m h) in
    let part : a % m ≡ a - m * (a / m) = mod-eq-sub-mul-div a m in
    let scaled : a * p - m * p * (a / m) ≡ (a - m * (a / m)) * p = mul-sub_right a p m (a / m) in
    rw (whole, scaled, part) (mul-div_cancel (a - m * (a / m)) h)

mul-pos : (a b : ℕ) → 0 < a → 0 < b → 0 < a * b
mul-pos a b h k = grind arith

-- The middle digit of a number.
mod-div : (a i o : ℕ) → 0 < i → 0 < o → a % (i * o) / o ≡ a / o % i
mod-div a i o hi ho =
    let q = a / (i * o) in
    let r = a % (i * o) in
    let split : o * (i * q) + r ≡ a = omega (arith, div-add-mod a (i * o)) in
    let upper : a / o ≡ i * q + r / o = ap (λ n. n / o) (sym split) ∙ mul-add-div ho (i * q) r in
    let small : r / o < i = (div-lt_iff_lt-mul ho).1 (mod-lt a (mul-pos i o hi ho)) in
    rw upper (sym (mul-add-mod_self_left i q (r / o) ∙ mod-eq_of_lt small))

-- The sizes of the three fields make up the 64 bits of an address.
pub record IsConfig (g : Config) : Type 0 where
  pub fields : g.tag_size + (g.index_size + g.offset_size) ≡ 64

-- C, S and B make a cache when B + S is at most C and C - S is at most 64.
pub configure-IsConfig : (c s b : ℕ) → b + s ≤ c → c ≤ s + 64 → IsConfig (configure c s b)
unfolding configure
configure-IsConfig c s b h k = omega arith

one_line : (i o addr : ℕ) → i ≡ 0 → o ≡ 0 → 0 ≡ addr % (2 ^ i * 2 ^ o) / 2 ^ o
one_line i o addr hi ho = rw (hi, ho) (omega arith)

word_split : (t i o : ℕ) → t + (i + o) ≡ 64 → 2 ^ 64 ≡ 2 ^ i * 2 ^ o * 2 ^ t
word_split t i o h =
    let e : 64 ≡ i + o + t = omega arith in
    ap (λ n. 2 ^ n) e ∙ pow-add (i + o) t ∙ ap (λ n. n * 2 ^ t) (pow-add i o)

get_index-mod :
    (g : Config) (addr : ℕ)
    → IsConfig g
    → get_index g addr ≡ addr % (2 ^ g.index_size * 2 ^ g.offset_size) / 2 ^ g.offset_size
unfolding get_index
get_index-mod g addr v = elim (Bool-cases (g.tag_size == 64)) [
  | inl e ↦ rw e (one_line g.index_size g.offset_size addr (ground arith) (ground arith))
  | inr e ↦ rw e (
      let word : 2 ^ 64 ≡ 2 ^ g.index_size * 2 ^ g.offset_size * 2 ^ g.tag_size =
        word_split g.tag_size g.index_size g.offset_size v.fields in
      ap (λ n. n / 2 ^ g.offset_size)
        (ap (λ m. addr * 2 ^ g.tag_size % m / 2 ^ g.tag_size) word
          ∙ mul-mod-div addr (2 ^ g.tag_size) (2 ^ g.index_size * 2 ^ g.offset_size)
              (pow-pos g.tag_size) (mul-pos _ _ (pow-pos g.index_size) (pow-pos g.offset_size))))
]

-- When the three fields make up the 64 bits, the index names one of the 2 ^ index_size lines, and
-- tag, index and offset together give the address back.
pub address_split :
    (g : Config) (addr : ℕ)
    → IsConfig g
    → (get_index g addr < 2 ^ g.index_size)
      × ((get_tag g addr * 2 ^ g.index_size + get_index g addr) * 2 ^ g.offset_size
            + addr % 2 ^ g.offset_size
          ≡ addr)
unfolding get_tag
address_split g addr v =
    let i = 2 ^ g.index_size in
    let o = 2 ^ g.offset_size in
    let block = addr / o in
    let index : get_index g addr ≡ block % i =
      get_index-mod g addr v ∙ mod-div addr i o (pow-pos g.index_size) (pow-pos g.offset_size) in
    let tag : addr / 2 ^ (g.index_size + g.offset_size) ≡ block / i =
      ap (λ n. addr / n) (pow-add g.index_size g.offset_size ∙ mul_comm i o)
      ∙ sym (div-div-eq-div-mul addr o i) in
    (
      rw index (mod-lt block (pow-pos g.index_size)),
      rw (index, tag, mul_comm (block / i) i, div-add-mod block i, mul_comm block o)
          (div-add-mod addr o),
    )
