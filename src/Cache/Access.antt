-- ===== src/Cache/Access.antt =====
-- A whole access: where the data goes, and the next access to it.
use backup_gatech.Common.{
  ◌⊎◌, ℕ, ◌<◌, ◌≡◌, ◌≢◌, none, some, List, [], true, false, ◌&&◌, not, ◌∙◌, arith, refl, ap, sym,
  inl, inr, if◌then◌else◌, ◌==◌, ltb, length, get_or, set, length-set, get_or-set, get_or-out,
  Option-cases, Bool-cases, dec_lt, ℕ_discrete,
}
use backup_gatech.Cache.{
  Block, Stats, Config, Cache, empty_block, holds, get_hit_block, get_empty_block, first_index,
  get_lru_block, load_into_block, touch, count_access, access_line, write_op, get_index, get_tag,
  cache_access,
}
use mathlib.Core.Path.{subst}
use backup_gatech.Cache.Lines.{
  Finds, first_index-Finds, get_lru_block_lem, TagsDiffer, Accessed, place,
}

set-Accessed :
    (line : List Block) (op tag t i : ℕ) (b : Block)
    → i < length line
    → holds tag b ≡ true
    → b.timestamp ≡ t
    → ((j : ℕ) → j ≢ i → holds tag (get_or line j empty_block) ≡ false)
    → Accessed line op tag t i (set line i b)
set-Accessed line op tag t i b inside hit stamp alone =
    let self : get_or (set line i b) i empty_block ≡ b =
      ground (arith, get_or-set line i i b empty_block) in
    record {
      inside = inside;
      length_kept = length-set line i b;
      hit_next = rw self hit;
      stamped = rw self stamp;
      others_kept = λ j n. ground (arith, get_or-set line i j b empty_block);
      alone = alone;
    }

-- A line where the search for `tag` fails holds it nowhere.
holds_none :
    (line : List Block) (tag : ℕ)
    → Finds (holds tag) line none
    → (j : ℕ) → holds tag (get_or line j empty_block) ≡ false
holds_none line tag f j = elim (dec_lt j (length line)) [
  | yes l ↦ f j l
  | no l ↦ rw (get_or-out line j empty_block (omega arith)) refl
]

hit-Accessed :
    (line : List Block) (op tag t i : ℕ)
    → TagsDiffer line
    → Finds (holds tag) line (some i)
    → Accessed line op tag t i (set line i (touch (get_or line i empty_block) op t))
unfolding touch
hit-Accessed line op tag t i d f = set-Accessed line op tag t i _ f.0 f.1 refl (λ j n.
    elim (Bool-cases (holds tag (get_or line j empty_block))) [
      | inl h ↦ absurd (n (d j i tag h f.1))
      | inr h ↦ h
    ])

load-Accessed :
    (line : List Block) (op tag t i : ℕ)
    → i < length line
    → Finds (holds tag) line none
    → Accessed line op tag t i (set line i (load_into_block tag (op == write_op) t))
unfolding load_into_block
load-Accessed line op tag t i l f =
    set-Accessed line op tag t i _ l (ground arith) refl (λ j n. holds_none line tag f j)

-- An access to a line leaves the data at `place`, as the youngest block, and nothing else changes.
pub access_line-Accessed :
    (op tag t : ℕ) (line : List Block) (st : Stats)
    → 0 < length line
    → TagsDiffer line
    → Accessed line op tag t (place line tag) (access_line op tag t line st).0
unfolding access_line place get_hit_block get_empty_block
access_line-Accessed op tag t line st pos d = elim (Option-cases (first_index (holds tag) line)) [
  | inr (i, e) ↦
      rw (e, access_line, place)
        (hit-Accessed line op tag t i d
          (subst (Finds (holds tag) line) e (first_index-Finds (holds tag) line)))
  | inl e ↦
      let absent : Finds (holds tag) line none =
        subst (Finds (holds tag) line) e (first_index-Finds (holds tag) line) in
      elim (Option-cases (first_index (λ b. not b.valid) line)) [
        | inr (i, e') ↦
            let found : Finds (λ b. not b.valid) line (some i) =
              subst (Finds (λ b. not b.valid) line) e'
                (first_index-Finds (λ b. not b.valid) line) in
            rw (e, access_line, place, e') (load-Accessed line op tag t i found.0 absent)
        | inl e' ↦
            rw (e, access_line, place, e')
              (load-Accessed line op tag t (get_lru_block line) (get_lru_block_lem line pos).0
                absent)
      ]
]

same_tag : (b : Block) (g h : ℕ) → holds g b ≡ true → holds h b ≡ true → g ≡ h
same_tag b g h p q = ground arith

-- Two blocks that hold one tag are no new block and an old one.
not_both :
    {line line' : List Block} {op tag t i : ℕ} (a : Accessed line op tag t i line') (k g : ℕ)
    → k ≢ i
    → holds g (get_or line' i empty_block) ≡ true
    → holds g (get_or line' k empty_block) ≡ true
    → ⊥
not_both {line} {line'} {tag = tag} {i = i} a k g n hi hk =
    let same : g ≡ tag = same_tag (get_or line' i empty_block) g tag hi a.hit_next in
    let old : holds tag (get_or line k empty_block) ≡ true = rw (← same, ← a.others_kept k n) hk in
    let new = a.alone k n in cc

-- The tags of a line stay different.
pub Accessed-TagsDiffer :
    {line line' : List Block} {op tag t i : ℕ}
    → TagsDiffer line
    → Accessed line op tag t i line'
    → TagsDiffer line'
Accessed-TagsDiffer {line} {line'} {op} {tag} {t} {i} d a j k g hj hk = elim (ℕ_discrete j i) [
  | yes e ↦ elim (ℕ_discrete k i) [
    | yes e' ↦ e ∙ sym e'
    | no n ↦ absurd (not_both a k g n (rw e at hj) hk)
  ]
  | no n ↦ elim (ℕ_discrete k i) [
    | yes e ↦ absurd (not_both a j g n (rw e at hk) hj)
    | no n' ↦ d j k g (rw (← a.others_kept j n) hj) (rw (← a.others_kept k n') hk)
  ]
]

-- The next search for the tag finds the block.
pub Accessed-hit :
    {line line' : List Block} {op tag t i : ℕ}
    → Accessed line op tag t i line'
    → get_hit_block line' tag ≡ some i
unfolding get_hit_block
Accessed-hit {line} {line'} {op} {tag} {t} {i} a =
    elim (Option-cases (first_index (holds tag) line')) [
      | inl e ↦
          let none_holds : Finds (holds tag) line' none =
            subst (Finds (holds tag) line') e (first_index-Finds (holds tag) line') in
          let no_hit = holds_none line' tag none_holds i in let hit = a.hit_next in absurd (cc)
      | inr (j, e) ↦
          let found : Finds (holds tag) line' (some j) =
            subst (Finds (holds tag) line') e (first_index-Finds (holds tag) line') in
          elim (ℕ_discrete j i) [
            | yes same ↦ e ∙ ap some same
            | no n ↦ absurd (not_both a j tag n a.hit_next found.1)
          ]
    ]

-- The shape of the cache: every line has a block, and holds no tag twice.
pub record IsValid (c : Cache) : Type 0 where
  pub filled : (i : ℕ) → i < length c.lines → 0 < length (get_or c.lines i [])
  pub differ : (i : ℕ) → TagsDiffer (get_or c.lines i [])

-- The line of an address after `cache_access`.
cache_access-line :
    (g : Config) (op addr : ℕ) (c : Cache) (i : ℕ)
    → get_or (cache_access g op addr c).lines i [] ≡ (
        if (get_index g addr == i) && ltb (get_index g addr) (length c.lines)
        then (access_line op
            (get_tag g addr)
            c.time
            (get_or c.lines (get_index g addr) [])
            (count_access op c.stats)).0
        else get_or c.lines i [])
unfolding cache_access
cache_access-line g op addr c i = get_or-set c.lines (get_index g addr) i _ []

length-cache_access :
    (g : Config) (op addr : ℕ) (c : Cache)
    → length (cache_access g op addr c).lines ≡ length c.lines
unfolding cache_access
length-cache_access g op addr c = length-set c.lines (get_index g addr) _

access_line-hit :
    (op tag t i : ℕ) (line : List Block) (st : Stats)
    → get_hit_block line tag ≡ some i
    → (access_line op tag t line st).1 ≡ st
unfolding access_line
access_line-hit op tag t i line st e = rw (e, access_line)

-- The line that an access changes.
module _ (g : Config) (op addr : ℕ) (c : Cache) (l : get_index g addr < length c.lines)
    (v : IsValid c) where
  abbrev old_line : List Block
  old_line = get_or c.lines (get_index g addr) []

  new_line : List Block
  new_line = (access_line op (get_tag g addr) c.time old_line (count_access op c.stats)).0

  new_line-Accessed :
      Accessed old_line op (get_tag g addr) c.time (place old_line (get_tag g addr)) new_line
  unfolding new_line
  new_line-Accessed =
      access_line-Accessed op (get_tag g addr) c.time old_line (count_access op c.stats)
        (v.filled (get_index g addr) l) (v.differ (get_index g addr))

  line_cases :
      (i : ℕ)
      → (get_or (cache_access g op addr c).lines i [] ≡ new_line)
        ⊎ (get_or (cache_access g op addr c).lines i [] ≡ get_or c.lines i [])
  unfolding new_line
  line_cases i =
      elim (Bool-cases ((get_index g addr == i) && ltb (get_index g addr) (length c.lines))) [
        | inl e ↦ inl (cache_access-line g op addr c i ∙ rw e refl)
        | inr e ↦ inr (cache_access-line g op addr c i ∙ rw e refl)
      ]

-- If the index of the address is in range, `cache_access` keeps the cache valid.
pub cache_access-IsValid :
    (g : Config) (op addr : ℕ) (c : Cache)
    → get_index g addr < length c.lines
    → IsValid c
    → IsValid (cache_access g op addr c)
cache_access-IsValid g op addr c l v =
    let a = new_line-Accessed g op addr c l v in
    record {
      filled = λ i m. elim (line_cases g op addr c l v i) [
        | inl e ↦ rw e (omega (arith, a.inside, a.length_kept))
        | inr e ↦ rw e (v.filled i (omega (arith, length-cache_access g op addr c)))
      ];
      differ = λ i. elim (line_cases g op addr c l v i) [
        | inl e ↦ rw e (Accessed-TagsDiffer (v.differ (get_index g addr)) a)
        | inr e ↦ rw e (v.differ i)
      ];
    }

-- In a valid cache with a line for the index of the address, after an access a second access to
-- any address with the same index and tag is a hit: it counts no miss and no write-back,
-- whichever the two operations are.
pub cache_access-cache_access :
    (g : Config) (op op' addr addr' : ℕ) (c : Cache)
    → get_index g addr < length c.lines
    → IsValid c
    → get_index g addr' ≡ get_index g addr
    → get_tag g addr' ≡ get_tag g addr
    → let c' = cache_access g op addr c in
      (cache_access g op' addr' c').stats ≡ count_access op' c'.stats
unfolding cache_access new_line
cache_access-cache_access g op op' addr addr' c l v i t =
    let found = Accessed-hit (new_line-Accessed g op addr c l v) in
    let line = new_line g op addr c l v in
    let here : get_or (set c.lines (get_index g addr) line) (get_index g addr) [] ≡ line =
      ground (arith, get_or-set c.lines (get_index g addr) (get_index g addr) line []) in
    rw (i, t, here) (access_line-hit op' (get_tag g addr) _ _ line _ found)
