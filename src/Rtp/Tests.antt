-- ===== src/Rtp/Tests.antt =====
-- The theorems on the transfer at concrete messages.
use backup_gatech.Common.{ℕ, ◌≡◌, some, List, [], ◌∷◌, ◌++◌, refl, arith}
use backup_gatech.Rtp.{
  Packet, last_data, data_packet, Attempt, clean, corrupt, send_message, checksum, checksum_loop,
  num_packets,
}
use backup_gatech.Rtp.Transfer.{send_message-delivers}

abbrev hello : List ℕ
hello = 72 ∷ 101 ∷ 108 ∷ 108 ∷ 111 ∷ 44 ∷ 32 ∷ 119 ∷ 111 ∷ 114 ∷ 108 ∷ 100 ∷ []

-- A packet whose checksum is wrong.
abbrev damaged : Packet
damaged = record { kind = data_packet; checksum_field = 0; payload_length = 1; payload = 72 ∷ [] }

abbrev network : List Attempt
network = corrupt damaged ∷ clean ∷ corrupt damaged ∷ clean ∷ []

abbrev two_bytes : Packet
two_bytes = record {
  kind = last_data;
  checksum_field = 33;
  payload_length = 2;
  payload = 72 ∷ 105 ∷ [];
}

send_message-delivers_example : send_message 0 network hello ≡ some (hello ++ (0 ∷ []))
unfolding checksum num_packets checksum_loop
send_message-delivers_example =
    send_message-delivers 0 network hello (omega arith) (refl, (refl, tt)) (omega arith)
