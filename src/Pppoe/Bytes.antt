-- ===== src/Pppoe/Bytes.antt =====
-- rp-pppoe/src/relay.c: `insertBytes`, `removeBytes` and `addTag`, which move bytes inside the array of a
-- packet. A location is its distance from the start of the payload; `none` is the result -1.
pub mod Splice
use zy_agf.Prelude.{
  ℕ, ◌+◌, ◌-◌, Bool, true, false, ◌||◌, Option, none, some, List, [], ◌∷◌, ◌++◌, ltb, if◌then◌else◌,
  length, take, drop,
}
use zy_agf.Pppoe.Packet.{Packet, max_pppoe_payload}
use zy_agf.Pppoe.Tags.{Tag}
use zy_agf.Pppoe.Tags.Scan.{encode_tag}

-- The array after `memmove` of the `to_move` bytes at `from` to `to`.
abbrev pub memmove : List ℕ → ℕ → ℕ → ℕ → List ℕ
memmove payload to from to_move =
    take to payload ++ (take to_move (drop from payload) ++ drop (to + to_move) payload)

-- The array after `memcpy` of bytes to a location.
abbrev pub memcpy : List ℕ → ℕ → List ℕ → List ℕ
memcpy payload loc bytes = take loc payload ++ (bytes ++ drop (loc + length bytes) payload)

unfoldable pub insert_bytes : Packet → ℕ → List ℕ → Option Packet
insert_bytes p loc bytes =
    let len = length bytes in
    if ltb p.length loc || ltb max_pppoe_payload (len + p.length)
    then none
    else some (record p {
      payload = memcpy (memmove p.payload (loc + len) loc (p.length - loc)) loc bytes;
      length = p.length + len;
    })

unfoldable pub remove_bytes : Packet → ℕ → ℕ → Option Packet
remove_bytes p loc len =
    if ltb p.length len || ltb p.length (loc + len)
    then none
    else some (record p {
      payload = memmove p.payload loc (loc + len) (p.length - loc - len);
      length = p.length - len;
    })

unfoldable pub add_tag : Packet → Tag → Option Packet
add_tag p tag = insert_bytes p 0 (encode_tag tag [])
