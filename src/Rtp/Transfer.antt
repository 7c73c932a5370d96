-- ===== src/Rtp/Transfer.antt =====
-- The whole transfer over a network that corrupts packets.
use backup_gatech.Common.{
  ℕ, suc, ◌+◌, ◌<◌, ◌≤◌, ◌≡◌, ◌⊎◌, inl, inr, none, some, List, [], ◌∷◌, ◌++◌, true, false, arith,
  refl, sym, ap, ◌∙◌, if◌then◌else◌, ◌==◌, length, take,
}
use mathlib.Core.List.{append_assoc, append-nil}
use backup_gatech.Rtp.{
  Packet, ack, Receiver, start, receive_packet, finish, checksum, packetize, Attempt, clean,
  corrupt, transfer, realloc, send_message, num_packets, full_packets, last_packet, fill_packet,
  grow, memcpy_at,
}
use backup_gatech.Rtp.Receive.{
  chunk, Holds, IsAllocated, receive_packet-nack, receive_packet-Accepted, take-realloc,
}
use backup_gatech.Rtp.Packets.{IsStream, payloads, packetize_lem, first_length}

-- Every corruption shows in the checksum.
abbrev pub IsDetected : List Attempt → Type 0
IsDetected [] = Unit {0}
IsDetected (clean ∷ net) = IsDetected net
IsDetected (corrupt q ∷ net) =
    ((q.checksum_field == checksum q.payload q.payload_length) ≡ false) × IsDetected net

abbrev pub clean_count : List Attempt → ℕ
clean_count [] = 0
clean_count (clean ∷ net) = suc (clean_count net)
clean_count (corrupt q ∷ net) = clean_count net

-- The buffer has room for the next packet, or grows for it.
abbrev pub IsReady : Receiver → List Packet → Type 0
IsReady r [] = Unit {0}
IsReady r (p ∷ ps) = IsAllocated r ⊎ (r.message_buffer_length < r.message_length + p.payload_length)

finish-bytes :
    (junk : ℕ) (r : Receiver) (bytes : List ℕ) → Holds r bytes → finish junk r ≡ bytes ++ (0 ∷ [])
unfolding finish
finish-bytes junk r bytes h =
    ap (λ zs. zs ++ (0 ∷ []))
      (ap (λ n. take n (realloc junk r.message_buffer (r.message_length + 1))) h.counted
        ∙ take-realloc junk (length bytes) (r.message_length + 1) r.message_buffer
            (omega (arith, h.counted)) h.room
        ∙ h.stored)

transfer-cons :
    (junk : ℕ) (net : List Attempt) (p : Packet) (ps : List Packet) (r r' : Receiver)
    → receive_packet junk p r ≡ some (r', ack)
    → transfer junk (clean ∷ net) (p ∷ ps) r ≡ transfer junk net ps r'
unfolding transfer
transfer-cons junk net p ps r r' e = rw (e, transfer) refl

transfer-corrupt :
    (junk : ℕ) (net : List Attempt) (q p : Packet) (ps : List Packet) (r : Receiver)
    → (q.checksum_field == checksum q.payload q.payload_length) ≡ false
    → transfer junk (corrupt q ∷ net) (p ∷ ps) r ≡ transfer junk net (p ∷ ps) r
unfolding transfer
transfer-corrupt junk net q p ps r h = rw (receive_packet-nack junk q r h, transfer) refl

transfer-done :
    (junk : ℕ) (net : List Attempt) (r : Receiver) (bytes : List ℕ)
    → Holds r bytes
    → r.done ≡ true
    → transfer junk net [] r ≡ some (bytes ++ (0 ∷ []))
unfolding transfer
transfer-done junk net r bytes h d =
    ap (λ c. if c then some (finish junk r) else none) d ∙ ap some (finish-bytes junk r bytes h)

transfer-payloads :
    (junk : ℕ) (net : List Attempt) (ps : List Packet) (r : Receiver) (bytes : List ℕ)
    → IsStream ps
    → Holds r bytes
    → IsReady r ps
    → IsDetected net
    → length ps ≤ clean_count net
    → transfer junk net ps r ≡ some ((bytes ++ payloads ps) ++ (0 ∷ []))
unfolding payloads
transfer-payloads junk net [] r bytes s h a d c = absurd s
transfer-payloads junk [] (p ∷ ps) r bytes s h a d c = absurd (omega arith)
transfer-payloads junk (corrupt q ∷ net) (p ∷ ps) r bytes s h a d c =
    transfer-corrupt junk net q p ps r d.0 ∙ transfer-payloads junk net (p ∷ ps) r bytes s h a d.1 c
transfer-payloads junk (clean ∷ net) (p ∷ []) r bytes s h a d c =
    let got = receive_packet-Accepted junk p r bytes s.0 h a in
    transfer-cons junk net p [] r got.after got.ends
    ∙ transfer-done junk net got.after (bytes ++ chunk p) got.holds (got.finished ∙ s.1)
    ∙ ap (λ zs. some ((bytes ++ zs) ++ (0 ∷ []))) (sym (append-nil (chunk p)))
transfer-payloads junk (clean ∷ net) (p ∷ (q ∷ ps)) r bytes s h a d c =
    let got = receive_packet-Accepted junk p r bytes s.0 h a in
    transfer-cons junk net p (q ∷ ps) r got.after got.ends
    ∙ transfer-payloads junk net (q ∷ ps) got.after (bytes ++ chunk p) s.2 got.holds
        (inl got.allocated) d (omega arith)
    ∙ ap (λ zs. some (zs ++ (0 ∷ []))) (append_assoc bytes (chunk p) (payloads (q ∷ ps)))

start-Holds : Holds start []
unfolding start
start-Holds = record { counted = refl; stored = refl; room = omega arith }

IsReady-from_start : (ps : List Packet) → 2 ≤ first_length ps → IsReady start ps
unfolding start
IsReady-from_start [] h = tt
IsReady-from_start (p ∷ ps) h = inr (omega arith)

-- A message of two bytes or more arrives whole, with a final zero, over any network that delivers
-- as many attempts unchanged as there are packets and whose corruptions all show in the checksum;
-- how many packets it corrupts, and when, does not matter.
pub send_message-delivers :
    (junk : ℕ) (net : List Attempt) (buffer : List ℕ)
    → 2 ≤ length buffer
    → IsDetected net
    → num_packets (length buffer) ≤ clean_count net
    → send_message junk net buffer ≡ some (buffer ++ (0 ∷ []))
unfolding send_message
send_message-delivers junk net buffer two d c =
    let cut = packetize_lem buffer (omega arith) in
    rw (cut.ends, send_message)
      (transfer-payloads junk net cut.packets start [] cut.stream start-Holds
          (IsReady-from_start cut.packets (cut.first two)) d (omega (arith, cut.counted))
        ∙ ap (λ zs. some (zs ++ (0 ∷ []))) cut.joined)

-- A message of one byte is never received: when its packet arrives unchanged, the receiver, whose
-- buffer is still NULL, counts the byte as fitting and writes it outside the buffer.
pub send_message-one_byte :
    (junk b : ℕ) (net : List Attempt) → send_message junk (clean ∷ net) (b ∷ []) ≡ none
unfolding send_message packetize num_packets full_packets last_packet fill_packet transfer
    receive_packet grow memcpy_at start checksum
send_message-one_byte junk b net = ground arith
