-- ===== src/Fs/Bytes.antt =====
-- The bytes of a block, four to a word, the lowest first.
use backup_gatech.Common.{
  ℕ, zero, suc, ◌+◌, ◌*◌, ◌/◌, ◌%◌, ◌^◌, ◌<◌, ◌≡◌, List, [], ◌∷◌, false, ◌&&◌, if◌then◌else◌, ◌==◌,
  length, arith, refl, ◌∙◌, Bool-cases, inl, inr,
}
use backup_gatech.Fs.{Disk}

-- Byte `r` of a word.
abbrev pub byte_of : (r w : ℕ) → ℕ
byte_of r w = w / 256 ^ r % 256

abbrev pub with_byte : (r v w : ℕ) → ℕ
with_byte r v w = w % 256 ^ r + v * 256 ^ r + w / 256 ^ suc r * 256 ^ suc r

pub byte_at : (b i : ℕ) → Disk → ℕ
byte_at b i d = byte_of (i % 4) (d.words b (i / 4))

pub put_byte : (b i v : ℕ) → Disk → Disk
put_byte b i v d = record d {
  words = λ c w. if (c == b) && w == i / 4 then with_byte (i % 4) v (d.words c w) else d.words c w;
}

unfoldable pub bytes_from : (n b i : ℕ) → Disk → List ℕ
unfolding byte_at
bytes_from zero b i d = []
bytes_from (suc n) b i d = byte_at b i d ∷ bytes_from n b (suc i) d

pub put_bytes : (b i : ℕ) → List ℕ → Disk → Disk
put_bytes b i [] d = d
put_bytes b i (v ∷ vs) d = put_bytes b (suc i) vs (put_byte b i v d)

abbrev pub AreBytes : List ℕ → Type 0
AreBytes [] = Unit {0}
AreBytes (v ∷ vs) = (v < 256) × AreBytes vs

byte_of-with_byte :
    (r k v w : ℕ)
    → r < 4
    → k < 4
    → v < 256
    → byte_of k (with_byte r v w) ≡ (if k == r then v else byte_of k w)
byte_of-with_byte zero zero v w hr hk h = omega arith
byte_of-with_byte zero (suc zero) v w hr hk h = omega arith
byte_of-with_byte zero (suc (suc zero)) v w hr hk h = omega arith
byte_of-with_byte zero (suc (suc (suc zero))) v w hr hk h = omega arith
byte_of-with_byte (suc zero) zero v w hr hk h = omega arith
byte_of-with_byte (suc zero) (suc zero) v w hr hk h = omega arith
byte_of-with_byte (suc zero) (suc (suc zero)) v w hr hk h = omega arith
byte_of-with_byte (suc zero) (suc (suc (suc zero))) v w hr hk h = omega arith
byte_of-with_byte (suc (suc zero)) zero v w hr hk h = omega arith
byte_of-with_byte (suc (suc zero)) (suc zero) v w hr hk h = omega arith
byte_of-with_byte (suc (suc zero)) (suc (suc zero)) v w hr hk h = omega arith
byte_of-with_byte (suc (suc zero)) (suc (suc (suc zero))) v w hr hk h = omega arith
byte_of-with_byte (suc (suc (suc zero))) zero v w hr hk h = omega arith
byte_of-with_byte (suc (suc (suc zero))) (suc zero) v w hr hk h = omega arith
byte_of-with_byte (suc (suc (suc zero))) (suc (suc zero)) v w hr hk h = omega arith
byte_of-with_byte (suc (suc (suc zero))) (suc (suc (suc zero))) v w hr hk h = omega arith
byte_of-with_byte (suc (suc (suc (suc r)))) k v w hr hk h = absurd (omega arith)
byte_of-with_byte r (suc (suc (suc (suc k)))) v w hr hk h = absurd (omega arith)

pub byte_at-put_byte :
    (b c i j v : ℕ) (d : Disk)
    → v < 256
    → byte_at b i (put_byte c j v d) ≡ (if (b == c) && i == j then v else byte_at b i d)
unfolding byte_at put_byte
byte_at-put_byte b c i j v d h = elim (Bool-cases ((b == c) && i / 4 == j / 4)) [
  | inl same ↦ rw same (
      byte_of-with_byte (j % 4) (i % 4) v (d.words b (i / 4)) (omega arith) (omega arith) h
      ∙ ground (arith, same))
  | inr other ↦ rw other (ground (arith, other))
]

-- Bytes of another block, and those before the first that is written.
pub byte_at-put_bytes_before :
    (b i j : ℕ) (vs : List ℕ) (d : Disk)
    → AreBytes vs
    → i < j
    → byte_at b i (put_bytes b j vs d) ≡ byte_at b i d
unfolding put_bytes
byte_at-put_bytes_before b i j [] d h l = refl
byte_at-put_bytes_before b i j (v ∷ vs) d h l =
    let other : (i == j) ≡ false = ground (arith, l) in
    byte_at-put_bytes_before b i (suc j) vs (put_byte b j v d) h.1 (omega (arith, l))
    ∙ byte_at-put_byte b b i j v d h.0
    ∙ ground (arith, other)

pub put_bytes-other_block :
    (b c w i : ℕ) (vs : List ℕ) (d : Disk)
    → (c == b) ≡ false
    → (put_bytes b i vs d).words c w ≡ d.words c w
unfolding put_bytes put_byte
put_bytes-other_block b c w i [] d ne = refl
put_bytes-other_block b c w i (v ∷ vs) d ne =
    put_bytes-other_block b c w (suc i) vs (put_byte b i v d) ne ∙ rw ne refl

pub put_bytes-size :
    (b i : ℕ) (vs : List ℕ) (d : Disk) → ((put_bytes b i vs d).s_nblocks ≡ d.s_nblocks)
unfolding put_bytes put_byte
put_bytes-size b i [] d = refl
put_bytes-size b i (v ∷ vs) d = put_bytes-size b (suc i) vs (put_byte b i v d)

-- What was written is read.
pub bytes_from-put_bytes :
    (b i : ℕ) (vs : List ℕ) (d : Disk)
    → AreBytes vs
    → bytes_from (length vs) b i (put_bytes b i vs d) ≡ vs
unfolding bytes_from put_bytes
bytes_from-put_bytes b i [] d h = refl
bytes_from-put_bytes b i (v ∷ vs) d h =
    let here : byte_at b i (put_bytes b (suc i) vs (put_byte b i v d)) ≡ v =
      byte_at-put_bytes_before b i (suc i) vs (put_byte b i v d) h.1 (omega arith)
      ∙ byte_at-put_byte b b i i v d h.0
      ∙ ground arith in
    rw (here, bytes_from-put_bytes b (suc i) vs (put_byte b i v d) h.1) refl

pub bytes_from_frame :
    (n b i : ℕ) (d e : Disk)
    → ((j : ℕ) → e.words b j ≡ d.words b j)
    → bytes_from n b i e ≡ bytes_from n b i d
unfolding bytes_from byte_at
bytes_from_frame zero b i d e h = refl
bytes_from_frame (suc n) b i d e h = rw (h (i / 4), bytes_from_frame n b (suc i) d e h) refl
