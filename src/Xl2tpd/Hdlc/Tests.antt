-- ===== src/Xl2tpd/Hdlc/Tests.antt =====
-- Tests and examples of the frames between the daemon and pppd.
use zy_agf.Prelude.{ℕ, List, [], ◌∷◌, ◌++◌, some, ◌≡◌, refl, arith}
use zy_agf.Fcs.{fcs_of, fcs_step, add_fcs, ppp_crc16_table}
use zy_agf.Xl2tpd.Hdlc.{
  ppp_escape, expand, write_packet, packet, nothing, bytes, interrupted, read_bytes, read_packet,
}
use zy_agf.Xl2tpd.Hdlc.RoundTrip.{read_packet-write_packet}
use zy_agf.Xl2tpd.Hdlc.Chunks.{read_packet-append, read_packet_forgets}

abbrev header : List ℕ
header = 0 ∷ 2 ∷ 0 ∷ 0 ∷ 0 ∷ 0 ∷ 0 ∷ 0 ∷ 0 ∷ 0 ∷ 0 ∷ 0 ∷ 0 ∷ 0 ∷ []

-- With a byte that is the flag and one below 0x20.
abbrev datagram : List ℕ
datagram = 0x21 ∷ 0x7e ∷ 0x45 ∷ 3 ∷ []

abbrev wire : List ℕ
wire = 126 ∷ 33 ∷ 125 ∷ 94 ∷ 69 ∷ 125 ∷ 35 ∷ 176 ∷ 245 ∷ 126 ∷ []

written : write_packet 0 (header ++ datagram) ≡ some wire
unfolding write_packet expand add_fcs fcs_of fcs_step ppp_crc16_table
written = refl

read_packet-write_packet_example :
    read_packet 100 [] (record { rbuf = wire ++ (126 ∷ []); buf = [] })
    ≡ record { outcome = packet; line = record { rbuf = 126 ∷ []; buf = datagram }; reads = [] }
read_packet-write_packet_example =
    read_packet-write_packet 100 0 header datagram wire (126 ∷ []) [] refl
      (omega arith, (omega arith, (omega arith, (omega arith, tt)))) (omega arith) written

read_packet-append_example :
    read_packet 100 (bytes (94 ∷ 69 ∷ []) ∷ []) (record { rbuf = 126 ∷ 33 ∷ 125 ∷ []; buf = [] })
    ≡ read_packet 100 [] (record { rbuf = 126 ∷ 33 ∷ 125 ∷ 94 ∷ 69 ∷ []; buf = [] })
unfolding read_bytes
read_packet-append_example =
    read_packet-append 100 32 [] (33 ∷ []) (126 ∷ 33 ∷ 125 ∷ []) 94 (69 ∷ []) [] refl

read_packet_forgets_example :
    (read_packet 100 (interrupted ∷ []) (record { rbuf = ppp_escape ∷ []; buf = 33 ∷ [] })
      ≡ record { outcome = nothing; line = record { rbuf = []; buf = 33 ∷ [] }; reads = [] })
    × (read_packet 100 (bytes (94 ∷ []) ∷ []) (record { rbuf = []; buf = 33 ∷ [] })
        ≡ read_packet 100 [] (record { rbuf = []; buf = 33 ∷ 94 ∷ [] }))
read_packet_forgets_example =
    read_packet_forgets 100 (33 ∷ []) 94 [] [] (omega arith) (omega arith) refl refl
