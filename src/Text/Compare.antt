-- ===== src/Text/Compare.antt =====
-- Comparisons and searches.
use backup_gatech.Common.{
  ℕ, zero, suc, ◌≡◌, ◌↔◌, some, List, [], ◌∷◌, arith, refl, sym, ap, ◌∙◌, if◌then◌else◌, ◌==◌, take,
}
use backup_gatech.Text.{Diff, same, less, more, byte_diff, strcmp, strncmp}
use backup_gatech.Text.Copies.{IsText, stored}

-- The first place where two texts differ decides, the end of a text counting as the byte 0.
pub text_diff : (s t : List ℕ) → Diff
text_diff [] [] = same
text_diff [] (b ∷ t) = less b
text_diff (a ∷ s) [] = more a
text_diff (a ∷ s) (b ∷ t) = if a == b then text_diff s t else byte_diff a b

-- strcmp of two texts in memory ends, and compares them in the order of their bytes.
pub strcmp-stored :
    (s t r q : List ℕ)
    → IsText s
    → IsText t
    → strcmp (stored s r) (stored t q) ≡ some (text_diff s t)
unfolding strcmp text_diff
strcmp-stored [] [] r q hs ht = refl
strcmp-stored [] (b ∷ t) r q hs ht = ground arith
strcmp-stored (a ∷ s) [] r q hs ht = ground arith
strcmp-stored (a ∷ s) (b ∷ t) r q hs ht = ground (arith, strcmp-stored s t r q hs.1 ht.1)

text_diff_self : (s : List ℕ) → text_diff s s ≡ same
unfolding text_diff
text_diff_self [] = refl
text_diff_self (a ∷ s) = ground (arith, text_diff_self s)

diff-same : (s t : List ℕ) → text_diff s t ≡ same → s ≡ t
unfolding text_diff
diff-same [] [] e = refl
diff-same [] (b ∷ t) e = absurd (cc)
diff-same (a ∷ s) [] e = absurd (cc)
diff-same (a ∷ s) (b ∷ t) e = ground (arith, diff-same s t)

some-diff : {a b : Diff} → some a ≡ some b → a ≡ b
some-diff e = cc

-- The result is 0 exactly for equal texts.
pub strcmp-same_iff :
    (s t r q : List ℕ)
    → IsText s
    → IsText t
    → (strcmp (stored s r) (stored t q) ≡ some same) ↔ (s ≡ t)
strcmp-same_iff s t r q hs ht = (
  λ e. diff-same s t (some-diff (sym (strcmp-stored s t r q hs ht) ∙ e)),
  λ e. strcmp-stored s t r q hs ht ∙ ap some (rw e (text_diff_self t)),
)

-- strncmp looks at `n` bytes at most.
pub strncmp-stored :
    (s t r q : List ℕ) (n : ℕ)
    → IsText s
    → IsText t
    → strncmp (stored s r) (stored t q) n ≡ some (text_diff (take n s) (take n t))
unfolding strncmp text_diff
strncmp-stored s t r q zero hs ht = refl
strncmp-stored [] [] r q (suc n) hs ht = refl
strncmp-stored [] (b ∷ t) r q (suc n) hs ht = ground arith
strncmp-stored (a ∷ s) [] r q (suc n) hs ht = ground arith
strncmp-stored (a ∷ s) (b ∷ t) r q (suc n) hs ht =
    ground (arith, strncmp-stored s t r q n hs.1 ht.1)
