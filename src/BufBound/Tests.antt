-- ===== src/BufBound/Tests.antt =====
-- Tests of the bounded buffer: eight bytes of memory, of which the buffer has four.
use fastrpc.Common.{◌+◌, refl, arith, Bytes, pos}
use fastrpc.BufBound.{BufBound, write}
use fastrpc.BufBound.Stream.{Streamed, joined, write-Streamed}

abbrev blank : Bytes
blank i = 46

abbrev letters : Bytes
letters i = 97 + i

abbrev four_bytes : BufBound
four_bytes = record { buf_end = 4; position = 0; bytes = blank }

four_bytes-Streamed : Streamed blank four_bytes 0 letters
four_bytes-Streamed = record {
  end_low = omega arith;
  counted = refl;
  holds = λ i h e. elim h [ ];
  behind = λ i h. refl;
}

write-Streamed_example :
    Streamed blank (write four_bytes letters (pos 6)) 6 (joined letters 0 letters)
write-Streamed_example = write-Streamed four_bytes-Streamed letters 6
