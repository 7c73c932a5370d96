-- ===== src/Fs/Serv/Ids.antt =====
-- The ids of open files.
use backup_gatech.Common.{
  ℕ, zero, suc, ◌+◌, ◌%◌, ◌^◌, ◌<◌, ◌≤◌, ◌≡◌, ◌≢◌, Option, none, some, List, Bool, true, false,
  ◌||◌, ◌⊎◌, if◌then◌else◌, ◌==◌, leb, take, arith, refl, sym, ◌∙◌, Bool-cases, inl, inr,
}
use mathlib.Core.Path.{subst}
use backup_gatech.Fs.{Disk, Error, no_mem}
use backup_gatech.Fs.Files.{FilePointer, IsOutcome, panics, gives, outcome_of}
use backup_gatech.Fs.Serv.{
  Server, maxopen, Reply, sends, refuses, take_entry, with_page, alloc_from, openfile_alloc,
  openfile_lookup, open_file, fill_open, serve_open,
}

-- The id of an entry tells its index.
abbrev pub IsIndexed : Server → Type 0
IsIndexed s = (j : ℕ) → j < maxopen → (s.opentab j).o_fileid % maxopen ≡ j

-- Entry `i` of `s`, which no client had, has its next id in `s'`; the other entries are as before.
pub record IsTaken (s s' : Server) (i : ℕ) : Type 0 where
  pub index : i < maxopen
  pub unused : s.refs i ≤ 1
  pub fileid : (s'.opentab i).o_fileid ≡ ((s.opentab i).o_fileid + maxopen) % 2 ^ 32
  pub others : (j : ℕ) → (j == i) ≡ false → s'.opentab j ≡ s.opentab j

taken :
    (i : ℕ) (s : Server) (refs' : ℕ → ℕ)
    → i < maxopen
    → s.refs i ≤ 1
    → IsTaken s (take_entry i (record s { refs = refs' })) i
unfolding take_entry
taken i s refs' small unused = record {
  index = small;
  unused = unused;
  fileid = ground arith;
  others = λ j ne. rw ne refl;
}

same_reply : (s t s' : Server) (i j : ℕ) → sends i t ≡ sends j s' → IsTaken s t i → IsTaken s s' j
same_reply s t s' i j e h =
    let ei : i ≡ j = cc e in
    let es : t ≡ s' = cc e in subst (λ k. IsTaken s s' k) ei (subst (λ x. IsTaken s x i) es h)

alloc_from-IsTaken :
    (k i : ℕ) (nm : Bool) (s s' : Server) (j : ℕ)
    → i + k ≤ maxopen
    → alloc_from k i nm s ≡ sends j s'
    → IsTaken s s' j
unfolding alloc_from
alloc_from-IsTaken zero i nm s s' j l e = absurd (cc)
alloc_from-IsTaken (suc k) i nm s s' j l e = elim (Bool-cases (s.refs i == 0)) [
  | inl free ↦ elim (Bool-cases nm) [
    | inl full ↦
        let computes : alloc_from (suc k) i nm s ≡ refuses no_mem s =
          rw (alloc_from, free, full) refl in
        absurd (cc (computes, e))
    | inr room ↦
        let computes : alloc_from (suc k) i nm s ≡ sends i (take_entry i (with_page i s)) =
          rw (alloc_from, free, room) refl in
        same_reply s _ s' i j (sym computes ∙ e)
          (taken i s _ (omega (arith, l)) (ground (arith, free)))
  ]
  | inr used ↦ elim (Bool-cases (s.refs i == 1)) [
    | inl ours ↦
        let computes : alloc_from (suc k) i nm s ≡ sends i (take_entry i s) =
          rw (alloc_from, used, ours) refl in
        same_reply s _ s' i j (sym computes ∙ e)
          (taken i s s.refs (omega (arith, l)) (ground (arith, ours)))
    | inr theirs ↦
        let computes : alloc_from (suc k) i nm s ≡ alloc_from k (suc i) nm s =
          rw (alloc_from, used, theirs) refl in
        alloc_from-IsTaken k (suc i) nm s s' j (omega (arith, l)) (sym computes ∙ e)
  ]
]

fill_open-IsTaken :
    (s t : Server) (i : ℕ) (f : FilePointer) (omode : ℕ)
    → IsTaken s t i
    → IsTaken s (fill_open i f omode t) i
unfolding fill_open
fill_open-IsTaken s t i f omode h = record {
  index = h.index;
  unused = h.unused;
  fileid = ground (arith, h.fileid);
  others = λ j ne. rw ne (h.others j ne);
}

-- What an open does: the entry is `i`, its id and no older one finds it when a client has its page.
pub record Opened (s s' : Server) (i : ℕ) : Type 0 where
  pub entry : IsTaken s s' i
  pub indexed : IsIndexed s'
  pub found :
      (t : Server)
      → t.opentab ≡ s'.opentab
      → 1 < t.refs i
      → openfile_lookup (s'.opentab i).o_fileid t ≡ some i
  pub stale :
      (t : Server) → t.opentab ≡ s'.opentab → openfile_lookup (s.opentab i).o_fileid t ≡ none

taken-IsIndexed : (s s' : Server) (i : ℕ) → IsIndexed s → IsTaken s s' i → IsIndexed s'
taken-IsIndexed s s' i h t j l = elim (Bool-cases (j == i)) [
  | inl same ↦ let e : j ≡ i = ground (arith, same) in rw e (omega (arith, t.fileid, h i t.index))
  | inr other ↦ rw (t.others j other) (h j l)
]

taken-found :
    (s s' t : Server) (i : ℕ)
    → IsIndexed s'
    → i < maxopen
    → t.opentab ≡ s'.opentab
    → 1 < t.refs i
    → openfile_lookup (s'.opentab i).o_fileid t ≡ some i
unfolding openfile_lookup
taken-found s s' t i h l same mapped =
    let known : leb (t.refs i) 1 ≡ false = ground (arith, mapped) in
    let itself : ((s'.opentab i).o_fileid == (s'.opentab i).o_fileid) ≡ true = ground arith in
    rw (openfile_lookup, h i l, same, known, itself) refl

ne-== : (a b : ℕ) → a ≢ b → (a == b) ≡ false
ne-== a b h = ground (arith, h)

refused : (b : Bool) (o : Option ℕ) → (if b || true then none else o) ≡ none
refused true o = refl
refused false o = refl

taken-stale :
    (s s' t : Server) (i : ℕ)
    → IsIndexed s
    → IsTaken s s' i
    → t.opentab ≡ s'.opentab
    → openfile_lookup (s.opentab i).o_fileid t ≡ none
unfolding openfile_lookup
taken-stale s s' t i h k same =
    let differs : ((s'.opentab i).o_fileid == (s.opentab i).o_fileid) ≡ false =
      ne-== _ _ (λ e. absurd (omega (arith, k.fileid, e))) in
    rw (openfile_lookup, h i k.index, same, differs) (refused (leb (t.refs i) 1) (some i))

with_disk : (s t : Server) (j : ℕ) (d : Disk) → IsTaken s t j → IsTaken s (record t { disk = d }) j
with_disk s t j d h = record {
  index = h.index;
  unused = h.unused;
  fileid = h.fileid;
  others = h.others;
}

taken-Opened : (s s' : Server) (i : ℕ) → IsIndexed s → IsTaken s s' i → Opened s s' i
taken-Opened s s' i h took =
    let now = taken-IsIndexed s s' i h took in
    record {
      entry = took;
      indexed = now;
      found = λ t. taken-found s s' t i now took.index;
      stale = λ t. taken-stale s s' t i h took;
    }

reply_of :
    (r : Reply ℕ)
    → ((a : ℕ) × (s : Server) × (r ≡ sends a s)) ⊎ ((e : Error) × (s : Server) × (r ≡ refuses e s))
reply_of (sends a s) = inl (a, s, refl)
reply_of (refuses e s) = inr (e, s, refl)

-- When the ids of the table tell their indices, an open that succeeds takes an entry that no
-- client had, and leaves the others; the ids still tell their indices. From then on, while the
-- table stays as it is, the new id finds that entry once a client has the page, and the id that
-- the entry had before finds nothing.
pub serve_open-Opened :
    (nm : Bool) (path : List ℕ) (omode : ℕ) (s s' : Server) (i : ℕ)
    → IsIndexed s
    → serve_open nm path omode s ≡ some (sends i s')
    → Opened s s' i
unfolding serve_open openfile_alloc
serve_open-Opened nm path omode s s' i h e = elim (reply_of (openfile_alloc nm s)) [
  | inr (x, t, a) ↦
      let computes : serve_open nm path omode s ≡ some (refuses x t) = rw (serve_open, a) refl in
      absurd (cc (computes, e))
  | inl (j, t, a) ↦
      let took = alloc_from-IsTaken maxopen 0 nm s t j (omega arith) a in
      elim (outcome_of (open_file (take 1023 path) omode t.disk)) [
        | panics o ↦
            let computes : serve_open nm path omode s ≡ none = rw (serve_open, a, o) refl in
            absurd (cc (computes, e))
        | IsOutcome.refuses x d o ↦
            let computes : serve_open nm path omode s ≡ some (refuses x (record t { disk = d })) =
              rw (serve_open, a, o) refl in
            absurd (cc (computes, e))
        | gives f d o ↦
            let computes : serve_open nm path omode s
                ≡ some (sends j (fill_open j f omode (record t { disk = d }))) =
              rw (serve_open, a, o) refl in
            taken-Opened s s' i h (
              same_reply s _ s' j i (cc (computes, e))
                (fill_open-IsTaken s (record t { disk = d }) j f omode (with_disk s t j d took)))
      ]
]
