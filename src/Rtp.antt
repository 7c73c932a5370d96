-- ===== src/Rtp.antt =====
-- The reliable transfer of a message in packets, cs_2200/networking/prj7/rtp.c: checksum,
-- packetize, and the loops of rtp_send_message and rtp_receive_message. A buffer of chars is the
-- list of its bytes. The sockets are not modelled: an attempt to send a packet reaches the
-- receiver as the network changed it, and the receiver's answer reaches the sender unchanged.
pub mod Packets
pub mod Receive
pub mod Transfer
mod Tests
use Prim.Native.Nat.{bit_xor}
use backup_gatech.Common.{
  ℕ, zero, suc, ◌+◌, ◌-◌, ◌*◌, ◌/◌, ◌%◌, ◌^◌, Option, none, some, List, [], ◌∷◌, ◌++◌, Bool, true,
  false, if◌then◌else◌, ◌==◌, ltb, leb, length, take, drop, replicate,
}
use mathlib.Core.Option

pub data PacketType : Type 0 where
  data_packet last_data ack nack term : PacketType

pub record Packet : Type 0 where
  pub kind : PacketType
  pub checksum_field : ℕ
  pub payload_length : ℕ
  pub payload : List ℕ

abbrev pub max_payload_length : ℕ
max_payload_length = 10

-- A char in an int: the bytes from 128 on are negative, as 32-bit patterns.
abbrev pub as_int : ℕ → ℕ
as_int b = if ltb b 128 then b else (b + (2 ^ 32 - 256))

pub checksum_loop : ℕ → List ℕ → ℕ
checksum_loop acc [] = acc
checksum_loop acc (b ∷ bs) = checksum_loop (bit_xor acc (as_int b)) bs

pub checksum : (buffer : List ℕ) → (count : ℕ) → ℕ
checksum buffer n = checksum_loop 0 (take n buffer)

-- A packet of `n` bytes from the start of `bytes`, in a payload cleared by calloc.
pub fill_packet : PacketType → List ℕ → ℕ → Packet
fill_packet k bytes n = record {
  kind = k;
  checksum_field = checksum bytes n;
  payload_length = n;
  payload = take n bytes ++ replicate (max_payload_length - n) 0;
}

pub num_packets : ℕ → ℕ
num_packets n =
    if n % max_payload_length == 0 then n / max_payload_length else (n / max_payload_length + 1)

-- `for (i = from; i < from + rounds; i++)`: all packets but the last.
pub full_packets : (rounds from : ℕ) → List ℕ → List Packet
full_packets zero i buffer = []
full_packets (suc k) i buffer =
    fill_packet data_packet (drop (i * max_payload_length) buffer) max_payload_length
    ∷ full_packets k (suc i) buffer

pub last_packet : List ℕ → Packet
unfolding num_packets
last_packet buffer =
    let n = length buffer in
    let rest = drop ((num_packets n - 1) * max_payload_length) buffer in
    fill_packet last_data rest
      (if n % max_payload_length == 0 then max_payload_length else n % max_payload_length)

-- The packets of a buffer; for an empty buffer the code writes before the start of its array,
-- `none`.
pub packetize : List ℕ → Option (List Packet)
packetize buffer =
    if length buffer == 0
    then none
    else some (full_packets (num_packets (length buffer) - 1) 0 buffer ++ (last_packet buffer ∷ []))

-- The receiver's buffer is what is allocated; NULL is the empty list.
pub record Receiver : Type 0 where
  pub message_buffer : List ℕ
  pub message_buffer_length : ℕ
  pub message_length : ℕ
  pub done : Bool

pub start : Receiver
start = record { message_buffer = []; message_buffer_length = 1; message_length = 0; done = false }

-- realloc: the bytes that it adds have any value, here `junk`.
abbrev pub realloc : ℕ → List ℕ → ℕ → List ℕ
realloc junk buffer n = take n (buffer ++ replicate n junk)

-- memcpy to an offset of a buffer; `none` for a write outside it.
pub memcpy_at : List ℕ → ℕ → List ℕ → Option (List ℕ)
memcpy_at buffer off bytes =
    if leb (off + length bytes) (length buffer)
    then some (take off buffer ++ (bytes ++ drop (off + length bytes) buffer))
    else none

-- The growth of the buffer, before the copy.
pub grow : ℕ → Receiver → ℕ → Receiver
grow junk r n =
    let total = r.message_length + n in
    if ltb r.message_buffer_length total
    then record r {
      message_buffer = realloc junk r.message_buffer (r.message_buffer_length * 2 + total);
      message_buffer_length = r.message_buffer_length * 2 + total;
      message_length = total;
    }
    else record r { message_length = total }

abbrev pub is_last : PacketType → Bool
is_last last_data = true
is_last _ = false

-- One round of the receiver: its new state and its answer; `none` is a write outside the buffer.
pub receive_packet : ℕ → Packet → Receiver → Option (Receiver × PacketType)
receive_packet junk p r =
    if p.checksum_field == checksum p.payload p.payload_length
    then Option.map
        (λ b. (
          record (grow junk r p.payload_length) { message_buffer = b; done = is_last p.kind },
          ack,
        ))
        (memcpy_at (grow junk r p.payload_length).message_buffer r.message_length
          (take p.payload_length p.payload))
    else some (r, nack)

-- The message at the end: its bytes and a final zero.
pub finish : ℕ → Receiver → List ℕ
finish junk r =
    take r.message_length (realloc junk r.message_buffer (r.message_length + 1)) ++ (0 ∷ [])

-- What the network does to an attempt: the packet arrives as it was sent, or as another one.
pub data Attempt : Type 0 where
  clean : Attempt
  corrupt : Packet → Attempt

abbrev pub deliver : Attempt → Packet → Packet
deliver clean p = p
deliver (corrupt q) p = q

-- Sender and receiver in turn. Each attempt takes one entry of the network's behaviour; a packet is
-- sent again until the answer is ACK. The result is the receiver's message; `none` when a write
-- faults, when the network gives out, or when the sender is through before the receiver is.
pub transfer : ℕ → List Attempt → List Packet → Receiver → Option (List ℕ)
transfer junk net [] r = if r.done then some (finish junk r) else none
transfer junk [] (p ∷ ps) r = none
transfer junk (a ∷ net) (p ∷ ps) r = elim (receive_packet junk (deliver a p) r) [
  | none ↦ none
  | some (r', answer) ↦ elim answer [
    | ack ↦ transfer junk net ps r'
    | _ ↦ transfer junk net (p ∷ ps) r'
  ]
]

-- rtp_send_message and rtp_receive_message at the two ends of the network.
pub send_message : ℕ → List Attempt → List ℕ → Option (List ℕ)
send_message junk net buffer = elim (packetize buffer) [
  | none ↦ none
  | some ps ↦ transfer junk net ps start
]
