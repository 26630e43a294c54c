-- ===== src/Pppoe/Tests.antt =====
-- Tests and examples of tags and of the moves inside a packet.
use zy_agf.Prelude.{
  ℕ, zero, suc, ◌+◌, ◌≤◌, Bool, true, some, List, [], ◌∷◌, ◌++◌, ◌≡◌, refl, arith, foldl, length,
  take, drop,
}
use zy_agf.Pppoe.Packet.{Packet, tag_hdr_size, eth_data_len}
use zy_agf.Pppoe.Tags.{
  Tag, ParseFunc, parse_packet, find_tag, is_sane, parse_from, read_header, find_from,
}
use zy_agf.Pppoe.Tags.Scan.{encode_tags}
use zy_agf.Pppoe.Tags.Parse.{
  visit, Reads, Writable, nil, cons, encode_tags-Scan, parse_packet_total, parse_packet-encode_tags,
}
use zy_agf.Pppoe.Tags.Find.{locate, find_tag-Reads, find_tag_bounds}
use zy_agf.Pppoe.Bytes.{insert_bytes, remove_bytes, add_tag}

abbrev zeros : ℕ → List ℕ
zeros zero = []
zeros (suc n) = 0 ∷ zeros n

-- A service name of two bytes, and a host tag of one.
abbrev two_tags : List Tag
two_tags =
    record { type = 0x0101; value = 7 ∷ 8 ∷ [] } ∷ record { type = 0x0103; value = 9 ∷ [] } ∷ []

-- A PADI that holds them, in an array of 1508 bytes.
abbrev sample : Packet
sample = record {
  dest = 255 ∷ 255 ∷ 255 ∷ 255 ∷ 255 ∷ 255 ∷ [];
  source = 2 ∷ 0 ∷ 0 ∷ 0 ∷ 0 ∷ 1 ∷ [];
  proto = 0x8863;
  vertype = 0x11;
  code = 9;
  session = 0;
  length = 11;
  payload = encode_tags two_tags (zeros 1497);
}

-- A callback that keeps the types, the last one first.
abbrev keep_types : ParseFunc (List ℕ)
keep_types type len bytes types = type ∷ types

parse_packet-sample : parse_packet keep_types sample [] ≡ some (true, 0x0103 ∷ 0x0101 ∷ [])
unfolding parse_packet is_sane parse_from read_header
parse_packet-sample = refl

sample_whole : length sample.payload ≡ 1508
sample_whole = refl

sample_sane : is_sane sample ≡ true
unfolding is_sane
sample_sane = refl

two_tags-Writable : Writable two_tags
two_tags-Writable = cons (omega arith) (cons (omega arith) nil)

sample-Reads : Reads sample two_tags true
sample-Reads = encode_tags-Scan two_tags-Writable

parse_packet_total_example :
    (ts : List Tag) × (ok : Bool) × Reads sample ts ok
    × (parse_packet keep_types sample [] ≡ some (ok, foldl (visit keep_types) [] ts))
parse_packet_total_example = parse_packet_total keep_types sample [] sample_sane sample_whole

parse_packet-encode_tags_example :
    parse_packet keep_types sample [] ≡ some (true, foldl (visit keep_types) [] two_tags)
parse_packet-encode_tags_example =
    parse_packet-encode_tags keep_types sample [] two_tags (zeros 1497) sample_sane
      two_tags-Writable refl refl

find_tag-Reads_example : find_tag sample 0x0103 ≡ some (locate 0x0103 0 two_tags)
find_tag-Reads_example = find_tag-Reads sample 0x0103 sample_sane (omega arith) sample-Reads

abbrev host_tag : Tag
host_tag = record { type = 0x0103; value = 9 ∷ [] }

found_at : find_tag sample 0x0103 ≡ some (some (6, host_tag))
unfolding find_tag is_sane find_from read_header
found_at = refl

find_tag_bounds_example :
    (host_tag.type ≡ 0x0103)
    × (6 + tag_hdr_size + length host_tag.value ≤ sample.length)
    × (length host_tag.value ≤ eth_data_len)
find_tag_bounds_example = find_tag_bounds sample 0x0103 6 host_tag sample_sane sample_whole found_at

-- Four bytes more behind the first tag.
abbrev widened : Packet
widened = record sample {
  payload = take 6 sample.payload ++ (1 ∷ 2 ∷ 3 ∷ 4 ∷ drop 6 (take 1504 sample.payload));
  length = 15;
}

inserted : insert_bytes sample 6 (1 ∷ 2 ∷ 3 ∷ 4 ∷ []) ≡ some widened
unfolding insert_bytes
inserted = refl

-- Without the first tag.
abbrev narrowed : Packet
narrowed = record sample {
  payload = drop 6 (take 11 sample.payload) ++ drop 5 sample.payload;
  length = 5;
}

removed : remove_bytes sample 0 6 ≡ some narrowed
unfolding remove_bytes
removed = refl

-- The host tag once more, in front.
abbrev extended : Packet
extended = record sample { payload = encode_tags (host_tag ∷ two_tags) (zeros 1492); length = 16 }

added : add_tag sample host_tag ≡ some extended
unfolding add_tag insert_bytes
added = refl
