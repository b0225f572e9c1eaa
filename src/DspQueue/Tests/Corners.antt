-- ===== src/DspQueue/Tests/Corners.antt =====
-- Buffer references that are undone, and the corner cases of reads.
use fastrpc.Common.{
  ℕ, ◌-◌, ◌≡◌, refl, true, some, List, [], ◌∷◌, arith, le_byte, from_le, ltb, if◌then◌else◌,
}
use fastrpc.DspQueue.State.{Buffer, StaticMap, PacketQueue, Queue}
use fastrpc.DspQueue.Header.{peek_locked, pack_header, parse_header}
use fastrpc.DspQueue.Position.{IsAligned, used}
use fastrpc.DspQueue.Refs.{ref_buffers, undo_buffers}
use fastrpc.DspQueue.Refs.Undo.{undo-ref_buffers}
use fastrpc.DspQueue.Read.{Room, notify_writer}
use fastrpc.DspQueue.Wakeup.{read_noblock, still_polling}
use fastrpc.DspQueue.EdgeCases.{wakeup_passes_end}
use fastrpc.DspQueue.Tests.{fresh, empty_pq, obliging}

abbrev one_map : ℕ → ℕ → ℕ → ℕ → List StaticMap
one_map fd vaddr len refs =
    record { fd = fd; vaddr = vaddr; length = len; vaddrout = vaddr; refs = refs } ∷ []

-- Two references to the mapped buffer 7, then a buffer that is not mapped.
abbrev refers_twice : ℕ → Buffer
refers_twice i = record {
  fd = if ltb i 2 then 7 else 8;
  size = 0;
  offset = 0;
  flags = 4;
  address = 0;
}

undo-ref_buffers_example :
    let r = ref_buffers 14 3 (one_map 7 4096 64 1) 0 3 refers_twice in
    undo_buffers 3 r.maps r.buf_refs refers_twice ≡ one_map 7 4096 64 1
undo-ref_buffers_example =
    undo-ref_buffers 14 3 3 (one_map 7 4096 64 1) refers_twice (omega arith) (λ j h. refl)

-- An early wakeup packet in the last eight bytes.
abbrev wakeup_pq : PacketQueue
wakeup_pq = record empty_pq {
  bytes = λ i. le_byte (pack_header 8 20 0 0) (i - 56);
  read_position = 56;
}

abbrev waking : Queue
waking = record fresh { resp = wakeup_pq }

wakeup_pq-IsAligned : IsAligned wakeup_pq
wakeup_pq-IsAligned = record {
  length_low = omega arith;
  length_high = omega arith;
  length_aligned = refl;
  read_inside = omega arith;
  read_aligned = refl;
  write_inside = omega arith;
  write_aligned = refl;
}

wakeup_header :
    peek_locked wakeup_pq.bytes 56
    ≡ some (record { flags = 20; num_buffers = 0; message_length = 0 })
unfolding peek_locked parse_header pack_header le_byte from_le
wakeup_header = refl

abbrev some_room : Room
some_room = record {
  max_buffers = 4;
  want_buffers = true;
  max_message_length = 16;
  want_message = true;
}

wakeup_passes_end_example :
    (q' : Queue) × (read_noblock obliging waking some_room (some 100) [] ≡ still_polling q')
    × (q'.resp.read_position ≡ q'.resp.queue_length)
unfolding used notify_writer
wakeup_passes_end_example =
    wakeup_passes_end obliging waking some_room 100 20 wakeup_pq-IsAligned refl refl refl refl
      wakeup_header refl
