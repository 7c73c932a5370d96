-- ===== src/Cache/Lines.antt =====
-- One line of the cache: hits, the victim, and the tags that it holds.
use backup_gatech.Common.{
  ℕ, zero, suc, ◌+◌, ◌<◌, ◌≤◌, ◌≡◌, ◌≢◌, Option, none, some, List, [], ◌∷◌, Bool, true, false,
  arith, refl, ap, ◌∙◌, inl, inr, ltb, length, get_or, Bool-cases,
}
use mathlib.Core.Option
use native.Mathlib.Nat.{add-zero}
use backup_gatech.Cache.{
  Block, empty_block, first_index, holds, get_hit_block, get_empty_block, lru_from, get_lru_block,
}

-- What the two searches return.
abbrev pub Finds : (Block → Bool) → List Block → Option ℕ → Type 0
Finds p line none = (j : ℕ) → j < length line → p (get_or line j empty_block) ≡ false
Finds p line (some i) =
    (i < length line)
    × (p (get_or line i empty_block) ≡ true)
    × ((j : ℕ) → j < i → p (get_or line j empty_block) ≡ false)

Finds-suc :
    (p : Block → Bool) (b : Block) (bs : List Block) (o : Option ℕ)
    → p b ≡ false
    → Finds p bs o
    → Finds p (b ∷ bs) (Option.map suc o)
Finds-suc p b bs none h f = before
  where
    before : (j : ℕ) → j < suc (length bs) → p (get_or (b ∷ bs) j empty_block) ≡ false
    before zero l = h
    before (suc j) l = f j (omega arith)
Finds-suc p b bs (some i) h f = (omega arith, f.1, before)
  where
    before : (j : ℕ) → j < suc i → p (get_or (b ∷ bs) j empty_block) ≡ false
    before zero l = h
    before (suc j) l = f.2 j (omega arith)

pub first_index-Finds : (p : Block → Bool) (line : List Block) → Finds p line (first_index p line)
unfolding first_index
first_index-Finds p [] = λ j l. absurd (omega arith)
first_index-Finds p (b ∷ bs) = elim (Bool-cases (p b)) [
  | inl h ↦ rw (h, first_index) (omega arith, h, λ j l. absurd (omega arith))
  | inr h ↦ rw (h, first_index) (Finds-suc p b bs (first_index p bs) h (first_index-Finds p bs))
]

-- `lru_from` returns a block that is no younger than any block that it has seen.
lru_from_lem :
    (all bs : List Block) (i best m : ℕ)
    → ((j : ℕ) → get_or all (i + j) empty_block ≡ get_or bs j empty_block)
    → length all ≡ i + length bs
    → best < i
    → (get_or all best empty_block).timestamp ≡ m
    → ((j : ℕ) → j < i → m ≤ (get_or all j empty_block).timestamp)
    → (lru_from bs i best m < length all)
      × ((j : ℕ)
          → j < length all
          → (get_or all (lru_from bs i best m) empty_block).timestamp
            ≤ (get_or all j empty_block).timestamp)
unfolding lru_from
lru_from_lem all [] i best m tail len b e low = (omega arith, λ j l. rw e (low j (omega arith)))
lru_from_lem all (x ∷ bs) i best m tail len b e low =
    let here : get_or all i empty_block ≡ x = rw (add-zero i) at (tail 0) in
    let tail' : (j : ℕ) → get_or all (suc i + j) empty_block ≡ get_or bs j empty_block =
      λ j. ap (λ k. get_or all k empty_block) (omega arith) ∙ tail (suc j) in
    elim (Bool-cases (ltb x.timestamp m)) [
      | inl h ↦ rw h (
          lru_from_lem all bs (suc i) i x.timestamp tail' (omega arith) (omega arith) (rw here refl)
            (λ j l. ground (arith, here, low j)))
      | inr h ↦ rw h (
          lru_from_lem all bs (suc i) best m tail' (omega arith) (omega arith) e
            (λ j l. ground (arith, here, low j)))
    ]

-- On a line with at least one block, `get_lru_block` returns a block of the line whose timestamp
-- is the smallest of the line.
pub get_lru_block_lem :
    (line : List Block)
    → 0 < length line
    → (get_lru_block line < length line)
      × ((j : ℕ)
          → j < length line
          → (get_or line (get_lru_block line) empty_block).timestamp
            ≤ (get_or line j empty_block).timestamp)
unfolding get_lru_block
get_lru_block_lem [] h = absurd (omega arith)
get_lru_block_lem (b ∷ bs) h =
    lru_from_lem (b ∷ bs) bs 1 0 b.timestamp (λ j. ground arith) (omega arith) (omega arith) refl
      (λ j l. ground arith)

-- The block that an access puts the data in: the hit, else an empty block, else the oldest one.
unfoldable pub place : List Block → ℕ → ℕ
place line tag = elim (get_hit_block line tag) [
  | some i ↦ i
  | none ↦ elim (get_empty_block line) [ some i ↦ i | none ↦ get_lru_block line ]
]

-- No two valid blocks of a line hold the same tag.
abbrev pub TagsDiffer : List Block → Type 0
TagsDiffer line =
    (i j tag : ℕ)
    → holds tag (get_or line i empty_block) ≡ true
    → holds tag (get_or line j empty_block) ≡ true
    → i ≡ j

-- What an access to a line must do to its blocks.
pub record Accessed (line : List Block) (op tag t i : ℕ) (line' : List Block) : Type 0 where
  pub inside : i < length line
  pub length_kept : length line' ≡ length line
  pub hit_next : holds tag (get_or line' i empty_block) ≡ true
  pub stamped : (get_or line' i empty_block).timestamp ≡ t
  pub others_kept : (j : ℕ) → j ≢ i → get_or line' j empty_block ≡ get_or line j empty_block
  pub alone : (j : ℕ) → j ≢ i → holds tag (get_or line j empty_block) ≡ false
