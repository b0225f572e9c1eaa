-- ===== src/DspQueue/Tests/Reads.antt =====
-- Reads of a packet that was written to an empty queue.
use fastrpc.Common.{ℕ, ◌<◌, ◌≡◌, refl, true, false, none, [], ◌∷◌, arith}
use fastrpc.DspQueue.State.{Buffer, PacketQueue, Queue, ret}
use fastrpc.DspQueue.Position.{used}
use fastrpc.DspQueue.Write.{buffers_at, prepare_flags, write_noblock}
use fastrpc.DspQueue.Refs.{ref_buffers}
use fastrpc.DspQueue.Space.{write_noblock-succeeds}
use fastrpc.DspQueue.Read.{Room}
use fastrpc.DspQueue.Wakeup.{read_noblock}
use fastrpc.DspQueue.Emit.{HasRoom}
use fastrpc.DspQueue.Delivery.{item_of}
use fastrpc.DspQueue.Fifo.{IsFifo, with_packet, with_packet-IsFifo}
use fastrpc.DspQueue.Take.{IsBuffer}
use fastrpc.DspQueue.Consume.{ReadEffect}
use fastrpc.DspQueue.Exchange.{read_noblock-Effect, read_of_write}
use fastrpc.DspQueue.Tests.{
  empty_pq, fresh, hello, obliging, empty_pq-IsFifo, empty_pq-IsAligned, hello-passes,
}

-- The queue with `hello` in it.
abbrev hello_pq : PacketQueue
hello_pq = with_packet empty_pq 0 false 0 1 hello

hello-HasRoom : HasRoom empty_pq hello 0 false
unfolding used
hello-HasRoom = record { at_end = refl; skips = refl; fits = omega arith }

hello_pq-IsFifo : IsFifo hello_pq (item_of hello ∷ [])
hello_pq-IsFifo =
    with_packet-IsFifo hello empty_pq-IsFifo (omega arith) (omega arith) hello-HasRoom 0 1

abbrev room_for_all : Room
room_for_all = record {
  max_buffers = 4;
  want_buffers = true;
  max_message_length = 16;
  want_message = true;
}

abbrev reader : Queue
reader = record fresh { resp = hello_pq }

-- The write of `hello` to an empty queue.
written : (q' : Queue) × (write_noblock obliging fresh hello ≡ ret 0 q')
unfolding used ref_buffers
written =
    write_noblock-succeeds obliging fresh hello empty_pq-IsAligned hello-passes refl (omega arith)
      refl (λ signal. refl)

no_buffers : (i : ℕ) → i < 0 → IsBuffer (buffers_at hello i)
no_buffers i h = elim h [ ]

read_noblock-Effect_example :
    ReadEffect
      (item_of hello)
      []
      obliging
      reader
      room_for_all
      (read_noblock obliging reader room_for_all none [])
unfolding prepare_flags
read_noblock-Effect_example =
    read_noblock-Effect obliging reader room_for_all none [] (item_of hello) [] hello_pq-IsFifo refl
      no_buffers

read_of_write_example :
    let reader' = record fresh { resp = written.0.req } in
    ReadEffect
      (item_of hello)
      []
      obliging
      reader'
      room_for_all
      (read_noblock obliging reader' room_for_all none [])
read_of_write_example =
    read_of_write obliging fresh written.0 (record fresh { resp = written.0.req }) hello
      room_for_all none [] empty_pq-IsFifo written.1 refl refl no_buffers

abbrev two_buffers : ℕ → Buffer
two_buffers i = record { fd = i; size = 4096; offset = 64; flags = 16; address = 0 }
