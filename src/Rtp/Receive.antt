-- ===== src/Rtp/Receive.antt =====
-- One round of the receiver.
use backup_gatech.Common.{
  ℕ, ◌+◌, ◌*◌, ◌<◌, ◌≤◌, ◌≡◌, ◌⊎◌, inl, inr, Option, some, List, ◌++◌, true, false, arith, refl, ap,
  ◌∙◌, ◌==◌, ltb, leb, length, take, drop, replicate, length-append, length-take, length-drop,
  length-replicate, Bool-cases, take-append_length, take-append_le, take-take_le,
}
use mathlib.Core.List.{append_assoc}
use backup_gatech.Rtp.{
  Packet, PacketType, ack, nack, Receiver, realloc, memcpy_at, grow, is_last, receive_packet,
  checksum,
}

-- A packet whose checksum is that of its payload, which has the length that it says.
pub record IsGood (p : Packet) : Type 0 where
  pub summed : p.checksum_field ≡ checksum p.payload p.payload_length
  pub sized : p.payload_length ≤ length p.payload

abbrev pub chunk : Packet → List ℕ
chunk p = take p.payload_length p.payload

-- The receiver's buffer starts with the bytes received so far.
pub record Holds (r : Receiver) (bytes : List ℕ) : Type 0 where
  pub counted : r.message_length ≡ length bytes
  pub stored : take (length bytes) r.message_buffer ≡ bytes
  pub room : length bytes ≤ length r.message_buffer

-- The buffer is as long as the receiver takes it to be.
abbrev pub IsAllocated : Receiver → Type 0
IsAllocated r = r.message_buffer_length ≤ length r.message_buffer

-- A packet with a wrong checksum is answered by NACK, and changes nothing.
pub receive_packet-nack :
    (junk : ℕ) (p : Packet) (r : Receiver)
    → (p.checksum_field == checksum p.payload p.payload_length) ≡ false
    → receive_packet junk p r ≡ some (r, nack)
unfolding receive_packet
receive_packet-nack junk p r h = rw h refl

length-realloc : (junk : ℕ) (b : List ℕ) (n : ℕ) → length (realloc junk b n) ≡ n
length-realloc junk b n = omega (
  arith,
  length-take n (b ++ replicate n junk),
  length-append b (replicate n junk),
  length-replicate n junk,
)

pub take-realloc :
    (junk k n : ℕ) (b : List ℕ) → k ≤ n → k ≤ length b → take k (realloc junk b n) ≡ take k b
take-realloc junk k n b h l =
    take-take_le k n (b ++ replicate n junk) h ∙ take-append_le k b (replicate n junk) l

-- The buffer after `grow`: it holds the same bytes and has room for `n` more.
record Grown (r : Receiver) (bytes : List ℕ) (n : ℕ) (r' : Receiver) : Type 0 where
  total : r'.message_length ≡ length bytes + n
  kept : take (length bytes) r'.message_buffer ≡ bytes
  fits : length bytes + n ≤ length r'.message_buffer
  allocated : IsAllocated r'

grow-Grown :
    (junk : ℕ) (r : Receiver) (bytes : List ℕ) (n : ℕ)
    → Holds r bytes
    → IsAllocated r ⊎ (r.message_buffer_length < r.message_length + n)
    → Grown r bytes n (grow junk r n)
unfolding grow
grow-Grown junk r bytes n h a =
    elim (Bool-cases (ltb r.message_buffer_length (r.message_length + n))) [
      | inl e ↦
          let size = r.message_buffer_length * 2 + (r.message_length + n) in
          let len = length-realloc junk r.message_buffer size in
          rw e record {
            total = omega (arith, h.counted);
            kept =
                take-realloc junk (length bytes) size r.message_buffer (omega (arith, h.counted))
                  h.room
                ∙ h.stored;
            fits = omega (arith, len, h.counted);
            allocated = omega (arith, len);
          }
      | inr e ↦ rw e record {
        total = omega (arith, h.counted);
        kept = h.stored;
        fits = ground (arith, h.counted);
        allocated = ground arith;
      }
    ]

memcpy_at-fits :
    (buffer : List ℕ) (off : ℕ) (bytes : List ℕ)
    → off + length bytes ≤ length buffer
    → memcpy_at buffer off bytes
      ≡ some (take off buffer ++ (bytes ++ drop (off + length bytes) buffer))
unfolding memcpy_at
memcpy_at-fits buffer off bytes h =
    let e : leb (off + length bytes) (length buffer) ≡ true = ground arith in rw e refl

memcpy_after :
    (b bytes copied : List ℕ) (off n : ℕ)
    → off ≡ length bytes
    → take (length bytes) b ≡ bytes
    → length copied ≡ n
    → length bytes + n ≤ length b
    → memcpy_at b off copied ≡ some (bytes ++ (copied ++ drop (length bytes + n) b))
memcpy_after b bytes copied off n o kept size fits =
    rw (o, memcpy_at-fits b (length bytes) copied (omega arith), size)
      (ap (λ front. some (front ++ (copied ++ drop (length bytes + n) b))) kept)

take_joined : (xs ys zs : List ℕ) → take (length xs + length ys) (xs ++ (ys ++ zs)) ≡ xs ++ ys
take_joined xs ys zs =
    rw (← length-append xs ys, ← append_assoc xs ys zs) (take-append_length (xs ++ ys) zs)

length-joined :
    (xs ys : List ℕ) (b : List ℕ) (n : ℕ)
    → n ≡ length xs + length ys
    → n ≤ length b
    → length (xs ++ (ys ++ drop n b)) ≡ length b
length-joined xs ys b n h l =
    omega (arith, length-append xs (ys ++ drop n b), length-append ys (drop n b), length-drop n b)

-- The state and answer after a good packet.
pub record Accepted (r : Receiver) (bytes : List ℕ) (p : Packet)
    (o : Option (Receiver × PacketType)) : Type 0 where
  pub after : Receiver
  pub ends : o ≡ some (after, ack)
  pub holds : Holds after (bytes ++ chunk p)
  pub allocated : IsAllocated after
  pub finished : after.done ≡ is_last p.kind

-- A good packet, at a receiver that holds `bytes` and whose buffer is allocated or grows for the
-- packet, is answered by ACK; the receiver then holds `bytes` and the packet's payload in an
-- allocated buffer, and is done exactly when the packet is marked the last.
pub receive_packet-Accepted :
    (junk : ℕ) (p : Packet) (r : Receiver) (bytes : List ℕ)
    → IsGood p
    → Holds r bytes
    → IsAllocated r ⊎ (r.message_buffer_length < r.message_length + p.payload_length)
    → Accepted r bytes p (receive_packet junk p r)
unfolding receive_packet
receive_packet-Accepted junk p r bytes g h a =
    let r' = grow junk r p.payload_length in
    let grown = grow-Grown junk r bytes p.payload_length h a in
    let size : length (chunk p) ≡ p.payload_length =
      omega (arith, length-take p.payload_length p.payload, g.sized) in
    let b = r'.message_buffer in
    let good : (p.checksum_field == checksum p.payload p.payload_length) ≡ true =
      ground (arith, g.summed) in
    let copied : memcpy_at b r.message_length (chunk p)
        ≡ some (bytes ++ (chunk p ++ drop (length bytes + p.payload_length) b)) =
      memcpy_after b bytes (chunk p) r.message_length p.payload_length h.counted grown.kept size
        grown.fits in
    let stored =
      length-joined bytes (chunk p) b (length bytes + p.payload_length) (omega (arith, size))
        grown.fits in
    record {
      after = record r' {
        message_buffer = bytes ++ (chunk p ++ drop (length bytes + p.payload_length) b);
        done = is_last p.kind;
      };
      ends = rw (good, copied) refl;
      holds = record {
        counted = omega (arith, grown.total, length-append bytes (chunk p), size);
        stored =
            rw (length-append bytes (chunk p))
              (take_joined bytes (chunk p) (drop (length bytes + p.payload_length) b));
        room = omega (arith, length-append bytes (chunk p), size, stored, grown.fits);
      };
      allocated = omega (arith, stored, grown.allocated);
      finished = refl;
    }
