-- ===== src/Pppoe/Discovery/Silent.antt =====
-- rp-pppoe/src/discovery.c: `discovery` where nothing answers.
use zy_agf.Prelude.{false, some, [], ◌∷◌, ◌≡◌, refl}
use zy_agf.Pppoe.Packet.{Packet}
use zy_agf.Pppoe.Discovery.{Conn, sent_padr, wait_for_pado, wait_for_pads}
use zy_agf.Pppoe.Discovery.Send.{discovery_packet, send_padi, send_padr}
use zy_agf.Pppoe.Discovery.Run.{
  returned, names_printed, after_padi, next_turn, padi_waited, padr_waited, take_turn, so_far,
  follow, run_from, discovery,
}

-- Without `persist`, and not only printing names: where nothing arrives in any wait, whatever lies in its variable, the client sends
-- three PADIs and then three PADRs to the address that the connection held before, of no concentrator,
-- and returns in the state after a PADR.
pub discovery_silent :
    (conn : Conn) (p : Packet)
    → conn.print_ac_names ≡ false
    → discovery false conn ((p, []) ∷ (p, []) ∷ (p, []) ∷ (p, []) ∷ (p, []) ∷ (p, []) ∷ [])
      ≡ some (
        send_padi conn
            ∷ send_padi conn
            ∷ send_padi conn
            ∷ send_padr conn
            ∷ send_padr conn
            ∷ send_padr conn
            ∷ [],
        returned (record conn { discovery_state = sent_padr }),
      )
unfolding discovery run_from take_turn next_turn padi_waited padr_waited so_far after_padi
    names_printed follow wait_for_pado wait_for_pads send_padi send_padr discovery_packet
discovery_silent conn p quiet = rw quiet refl
