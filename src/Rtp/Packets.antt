-- ===== src/Rtp/Packets.antt =====
-- What packetize makes of a buffer.
use backup_gatech.Common.{
  ℕ, zero, suc, ◌+◌, ◌-◌, ◌*◌, ◌%◌, ◌<◌, ◌≤◌, ◌≡◌, ◌≢◌, Option, some, List, [], ◌∷◌, ◌++◌, true,
  false, arith, refl, sym, ap, ◌∙◌, if◌then◌else◌, ◌==◌, length, take, drop, replicate,
  length-append, length-take, length-drop, take-append_le, take-take_le, take_all, drop-drop,
  take-append-drop, take-append-take, inl, inr, ◌⊎◌,
}
use mathlib.Core.List.{append_assoc, append-nil}
use backup_gatech.Rtp.{
  Packet, PacketType, data_packet, last_data, is_last, max_payload_length, checksum, fill_packet,
  num_packets, full_packets, last_packet, packetize,
}
use backup_gatech.Rtp.Receive.{IsGood, chunk}

-- Good packets, the last of them marked and no other.
abbrev pub IsStream : List Packet → Type 0
IsStream [] = ⊥
IsStream (p ∷ []) = IsGood p × (is_last p.kind ≡ true)
IsStream (p ∷ (q ∷ ps)) = IsGood p × (is_last p.kind ≡ false) × IsStream (q ∷ ps)

unfoldable pub payloads : List Packet → List ℕ
payloads [] = []
payloads (p ∷ ps) = chunk p ++ payloads ps

payloads-append : (ps qs : List Packet) → payloads (ps ++ qs) ≡ payloads ps ++ payloads qs
unfolding payloads
payloads-append [] qs = refl
payloads-append (p ∷ ps) qs =
    rw (payloads-append ps qs) (sym (append_assoc (chunk p) (payloads ps) (payloads qs)))

fill_packet-IsGood :
    (k : PacketType) (bytes : List ℕ) (n : ℕ)
    → n ≤ length bytes
    → IsGood (fill_packet k bytes n) × (chunk (fill_packet k bytes n) ≡ take n bytes)
unfolding fill_packet checksum
fill_packet-IsGood k bytes n h =
    let size : length (take n bytes) ≡ n = omega (arith, length-take n bytes) in
    let zeros = replicate (max_payload_length - n) 0 in
    let front : take n (take n bytes ++ zeros) ≡ take n bytes =
      take-append_le n (take n bytes) zeros (omega arith) ∙ take-take_le n n bytes (omega arith) in
    (
      record {
        summed = rw front refl;
        sized = omega (arith, size, length-append (take n bytes) zeros);
      },
      front,
    )

payloads-one : (p : Packet) → payloads (p ∷ []) ≡ chunk p
unfolding payloads
payloads-one p = append-nil (chunk p)

data-not_last :
    (bytes : List ℕ) → is_last (fill_packet data_packet bytes max_payload_length).kind ≡ false
unfolding fill_packet
data-not_last bytes = refl

last-last : (bytes : List ℕ) (n : ℕ) → is_last (fill_packet last_data bytes n).kind ≡ true
unfolding fill_packet
last-last bytes n = refl

IsStream-cons :
    (q : Packet) (ps : List Packet)
    → IsGood q
    → is_last q.kind ≡ false
    → IsStream ps
    → IsStream (q ∷ ps)
IsStream-cons q [] g l s = absurd s
IsStream-cons q (p ∷ ps) g l s = (g, l, s)

full_packets-payloads :
    (k i : ℕ) (buffer : List ℕ)
    → (i + k) * max_payload_length ≤ length buffer
    → payloads (full_packets k i buffer)
      ≡ take (k * max_payload_length) (drop (i * max_payload_length) buffer)
unfolding payloads full_packets
full_packets-payloads zero i buffer h = refl
full_packets-payloads (suc k) i buffer h =
    let rest = drop (i * max_payload_length) buffer in
    let size = length-drop (i * max_payload_length) buffer in
    let next : drop (suc i * max_payload_length) buffer ≡ drop max_payload_length rest =
      ap (λ n. drop n buffer) (omega arith)
      ∙ sym (drop-drop max_payload_length (i * max_payload_length) buffer) in
    rw
      (
        (fill_packet-IsGood data_packet rest max_payload_length (omega (arith, size))).1,
        full_packets-payloads k (suc i) buffer (omega arith),
        next,
        take-append-take max_payload_length (k * max_payload_length) rest,
      )
      (ap (λ n. take n rest) (omega arith))

full_packets-IsStream :
    (k i : ℕ) (buffer : List ℕ) (p : Packet)
    → (i + k) * max_payload_length ≤ length buffer
    → IsGood p
    → is_last p.kind ≡ true
    → IsStream (full_packets k i buffer ++ (p ∷ []))
unfolding full_packets
full_packets-IsStream zero i buffer p h g l = (g, l)
full_packets-IsStream (suc k) i buffer p h g l =
    let size = length-drop (i * max_payload_length) buffer in
    IsStream-cons _ (full_packets k (suc i) buffer ++ (p ∷ []))
      (fill_packet-IsGood data_packet (drop (i * max_payload_length) buffer) max_payload_length
        (omega (arith, size))).0
      (data-not_last (drop (i * max_payload_length) buffer))
      (full_packets-IsStream k (suc i) buffer p (omega arith) g l)

abbrev last_size : ℕ → ℕ
last_size n = if n % max_payload_length == 0 then max_payload_length else n % max_payload_length

num_packets_lem :
    (n : ℕ)
    → n ≢ 0
    → ((num_packets n - 1) * max_payload_length + last_size n ≡ n)
      × ((0 + (num_packets n - 1)) * max_payload_length ≤ n)
unfolding num_packets
num_packets_lem n h = ground arith

num_packets-pos : (n : ℕ) → n ≢ 0 → 0 < num_packets n
unfolding num_packets
num_packets-pos n h = ground arith

two_or_more : (n : ℕ) → 2 ≤ n → 2 ≤ last_size n ⊎ 0 < num_packets n - 1
unfolding num_packets
two_or_more n h = ground arith

last_packet_lem :
    (buffer : List ℕ)
    → length buffer ≢ 0
    → IsGood (last_packet buffer)
      × (is_last (last_packet buffer).kind ≡ true)
      × (chunk (last_packet buffer)
          ≡ drop ((num_packets (length buffer) - 1) * max_payload_length) buffer)
unfolding last_packet
last_packet_lem buffer h =
    let n = length buffer in
    let rest = drop ((num_packets n - 1) * max_payload_length) buffer in
    let size : length rest ≡ last_size n =
      omega (
        arith,
        length-drop ((num_packets n - 1) * max_payload_length) buffer,
        num_packets_lem n h,
      ) in
    let filled = fill_packet-IsGood last_data rest (last_size n) (omega (arith, size)) in
    (
      filled.0,
      last-last rest (last_size n),
      filled.1 ∙ take_all (last_size n) rest (omega (arith, size)),
    )

length-full_packets : (k i : ℕ) (buffer : List ℕ) → length (full_packets k i buffer) ≡ k
unfolding full_packets
length-full_packets zero i buffer = refl
length-full_packets (suc k) i buffer = ap suc (length-full_packets k (suc i) buffer)

abbrev pub first_length : List Packet → ℕ
first_length [] = 0
first_length (p ∷ ps) = p.payload_length

first_length-full :
    (k : ℕ) (buffer : List ℕ) (p : Packet)
    → 2 ≤ p.payload_length ⊎ 0 < k
    → 2 ≤ first_length (full_packets k 0 buffer ++ (p ∷ []))
unfolding full_packets fill_packet
first_length-full zero buffer p (inl h) = h
first_length-full zero buffer p (inr h) = absurd (omega arith)
first_length-full (suc k) buffer p h = omega arith

last_packet-size :
    (buffer : List ℕ) → (last_packet buffer).payload_length ≡ last_size (length buffer)
unfolding last_packet fill_packet
last_packet-size buffer = refl

-- What the packets of a buffer are.
pub record Packetized (buffer : List ℕ) (o : Option (List Packet)) : Type 0 where
  pub packets : List Packet
  pub ends : o ≡ some packets
  pub stream : IsStream packets
  pub joined : payloads packets ≡ buffer
  pub counted : length packets ≡ num_packets (length buffer)
  pub first : 2 ≤ length buffer → 2 ≤ first_length packets

-- A buffer that is not empty is cut into packets with right checksums, the last one marked and no
-- other, whose payloads joined give the buffer back; there are as many as num_packets says, and
-- the first carries two bytes at least if the buffer has two.
pub packetize_lem : (buffer : List ℕ) → length buffer ≢ 0 → Packetized buffer (packetize buffer)
unfolding packetize
packetize_lem buffer h =
    let n = length buffer in
    let m = num_packets n - 1 in
    let last = last_packet_lem buffer h in
    let fits = (num_packets_lem n h).1 in
    let e : (n == 0) ≡ false = ground arith in
    record {
      packets = full_packets m 0 buffer ++ (last_packet buffer ∷ []);
      ends = rw e refl;
      stream = full_packets-IsStream m 0 buffer (last_packet buffer) fits last.0 last.1;
      joined =
          rw
            (
              payloads-append (full_packets m 0 buffer) (last_packet buffer ∷ []),
              full_packets-payloads m 0 buffer fits,
            )
            (ap (λ zs. take (m * max_payload_length) buffer ++ zs)
                (payloads-one (last_packet buffer) ∙ last.2)
              ∙ take-append-drop (m * max_payload_length) buffer);
      counted = omega (
        arith,
        length-append (full_packets m 0 buffer) (last_packet buffer ∷ []),
        length-full_packets m 0 buffer,
        num_packets-pos n h,
      );
      first = λ two.
          first_length-full m buffer (last_packet buffer)
            (rw (last_packet-size buffer) (two_or_more n two));
    }
