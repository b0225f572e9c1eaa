-- ===== src/DspQueue/Tests.antt =====
-- Tests of the packet queues: a queue of 64 bytes, and a packet with a message of four bytes.
mod Reads
mod Calls
mod Corners
use fastrpc.Common.{
  ℕ, ◌+◌, ◌*◌, ◌≤◌, ◌<◌, ◌≡◌, ◌≢◌, refl, Bool, true, false, Option, none, some, inl, inr, List, [],
  ◌∷◌, ◌++◌, Bytes, arith, leb, ltb, ◌==◌, if◌then◌else◌,
}
use fastrpc.DspQueue.State.{Buffer, PacketQueue, Queue, ret, aee_ewouldblock, aee_ebadparm}
use fastrpc.DspQueue.Position.{
  IsAligned, used, get_queue_state_write, get_queue_state_read, queue_states_agree,
}
use fastrpc.DspQueue.Header.{parse_header, pack_header, parse-pack_header}
use fastrpc.DspQueue.Refs.{ref_buffers}
use fastrpc.DspQueue.Write.{Packet, Driver, check_packet, reserve, room, write_noblock, would_block}
use fastrpc.DspQueue.Emit.{HasRoom}
use fastrpc.DspQueue.Fifo.{
  IsFifo, WriteEffect, write_noblock-Effect, with_packet, with_packet-IsFifo,
}
use fastrpc.DspQueue.Space.{
  reserve-exact, write_noblock-full, write_noblock-succeeds, must_move, needed,
}

abbrev pub zeros : Bytes
zeros i = 0

abbrev pub empty_pq : PacketQueue
empty_pq = record {
  queue_length = 64;
  bytes = zeros;
  read_position = 0;
  read_packet_count = 0;
  read_wait_count = 0;
  write_position = 0;
  write_packet_count = 0;
  write_wait_count = 0;
}

-- Queue number 1 of domain 3, both directions empty.
abbrev pub fresh : Queue
fresh = record {
  id = 1;
  domain = 3;
  req = empty_pq;
  resp = empty_pq;
  header_queue_count = 2;
  queue_count = 2;
  seq_no = 0;
  read_packet_count = 0;
  write_packet_count = 0;
  req_packet_count = 0;
  resp_space_count = 0;
  state_req_packet_count = 0;
  state_resp_space_count = 0;
  early_wakeup_wait = 0;
  early_wakeup_misses = 0;
  have_wait_counts = true;
  have_driver_signaling = true;
  send_signal_mask = 0;
  driver_signals = [];
  maps = [];
}

abbrev pub hello : Packet
hello = record {
  flags = 0;
  num_buffers = 0;
  buffers = none;
  message_length = 4;
  message = some (λ i. 65 + i);
}

-- A packet with a message that fills more than the queue has left behind position 40.
abbrev pub long_packet : Packet
long_packet = record hello { message_length = 40 }

abbrev pub obliging : Driver
obliging signal = 0

pub empty_pq-IsAligned : IsAligned empty_pq
empty_pq-IsAligned = record {
  length_low = omega arith;
  length_high = omega arith;
  length_aligned = refl;
  read_inside = omega arith;
  read_aligned = refl;
  write_inside = omega arith;
  write_aligned = refl;
}

pub empty_pq-IsFifo : IsFifo empty_pq []
unfolding used
empty_pq-IsFifo = record { aligned = empty_pq-IsAligned; holds = refl }

-- The reader and the writer stand at 40 of 64.
abbrev pub far_pq : PacketQueue
far_pq = record empty_pq { read_position = 32; write_position = 40 }

pub far_pq-IsAligned : IsAligned far_pq
far_pq-IsAligned = record {
  length_low = omega arith;
  length_high = omega arith;
  length_aligned = refl;
  read_inside = omega arith;
  read_aligned = refl;
  write_inside = omega arith;
  write_aligned = refl;
}

pub hello-passes : check_packet 64 hello ≡ true
unfolding check_packet
hello-passes = refl

long_packet-passes : check_packet 64 long_packet ≡ true
unfolding check_packet
long_packet-passes = refl

write_noblock-Effect_example :
    WriteEffect [] empty_pq 0 0 hello (write_noblock obliging fresh hello)
write_noblock-Effect_example = write_noblock-Effect obliging fresh hello empty_pq-IsFifo

reserve-exact_example : reserve empty_pq 16 ≡ room 0 false
unfolding used
reserve-exact_example = reserve-exact hello empty_pq-IsAligned hello-passes

-- The packet of 48 bytes does not fit behind position 40, nor at the start.
write_noblock-full_example :
    write_noblock obliging (record fresh { req = far_pq }) long_packet
    ≡ ret aee_ewouldblock (record fresh { req = far_pq })
unfolding used
write_noblock-full_example =
    write_noblock-full obliging (record fresh { req = far_pq }) long_packet far_pq-IsAligned
      long_packet-passes refl (omega arith)

write_noblock-succeeds_example : (q' : Queue) × (write_noblock obliging fresh hello ≡ ret 0 q')
unfolding used ref_buffers
write_noblock-succeeds_example =
    write_noblock-succeeds obliging fresh hello empty_pq-IsAligned hello-passes refl (omega arith)
      refl (λ signal. refl)
