-- ===== src/Pppoe/Tags/Scan.antt =====
-- The tag format as a relation: which tags a string of bytes holds, and how the string ends.
use zy_agf.Prelude.{
  ℕ, zero, suc, ◌+◌, ◌*◌, ◌/◌, ◌%◌, ◌<◌, Bool, true, false, some, List, [], ◌∷◌, ◌++◌, ◌≡◌, ◌≢◌,
  refl, sym, ap, ap₂, ◌∙◌, arith, ltb, ◌==◌, if◌then◌else◌, lt→leb, le→leb, length, get_elem?, take,
  drop, take-append-drop, length-take, length-drop, get_elem?-append, dec_lt,
}
use zy_agf.Pppoe.Tags.{Tag, no_room, end_of_list, too_long, tag, read_header}

-- The two bytes of a 16-bit number.
abbrev pub encode16 : ℕ → List ℕ → List ℕ
encode16 n rest = (n / 256) ∷ (n % 256) ∷ rest

-- A tag as the bytes of the wire, in front of what follows it.
abbrev pub encode_tag : Tag → List ℕ → List ℕ
encode_tag t rest = encode16 t.type (encode16 (length t.value) (t.value ++ rest))

abbrev pub encode_tags : List Tag → List ℕ → List ℕ
encode_tags [] rest = rest
encode_tags (t ∷ ts) rest = encode_tag t (encode_tags ts rest)

-- `Scan bytes ts ok`: the bytes hold the tags `ts`, and then fewer than four bytes or an
-- end-of-list header (`ok` is true), or a header whose length runs past the end (`ok` is false).
pub data Scan : List ℕ → List Tag → Bool → Type 0 where
  short : {bytes : List ℕ} → length bytes < 4 → Scan bytes [] true
  ended :
      {bytes : List ℕ} (a b : ℕ) (rest : List ℕ) → bytes ≡ 0 ∷ 0 ∷ a ∷ b ∷ rest → Scan bytes [] true
  overrun :
      {bytes : List ℕ} (t0 t1 a b : ℕ) (rest : List ℕ)
      → bytes ≡ t0 ∷ t1 ∷ a ∷ b ∷ rest
      → t0 * 256 + t1 ≢ 0
      → length rest < a * 256 + b
      → Scan bytes [] false
  one :
      {bytes : List ℕ} {ts : List Tag} {ok : Bool} (t0 t1 a b : ℕ) (value rest : List ℕ)
      → bytes ≡ t0 ∷ t1 ∷ a ∷ b ∷ (value ++ rest)
      → t0 * 256 + t1 ≢ 0
      → length value ≡ a * 256 + b
      → Scan rest ts ok
      → Scan bytes (record { type = t0 * 256 + t1; value = value } ∷ ts) ok

pub record Scanned (bytes : List ℕ) : Type 0 where
  pub tags : List Tag
  pub ok : Bool
  pub scan : Scan bytes tags ok

-- Every string of bytes has a reading.
scan_fuel : (n : ℕ) (bytes : List ℕ) → length bytes < n → Scanned bytes
scan_fuel zero bytes h = absurd (omega arith)
scan_fuel (suc n) (t0 ∷ t1 ∷ a ∷ b ∷ rest) h = elim (dec_lt 0 (t0 * 256 + t1)) [
  | no z ↦ record {
    tags = [];
    ok = true;
    scan = ended a b rest (ap₂ (λ x y. x ∷ y ∷ a ∷ b ∷ rest) (omega arith) (omega arith));
  }
  | yes p ↦ elim (dec_lt (length rest) (a * 256 + b)) [
    | yes over ↦ record {
      tags = [];
      ok = false;
      scan = overrun t0 t1 a b rest refl (omega arith) over;
    }
    | no fits ↦
        let l = a * 256 + b in
        let later = scan_fuel n (drop l rest) (omega (arith, length-drop l rest)) in
        record {
          tags = record { type = t0 * 256 + t1; value = take l rest } ∷ later.tags;
          ok = later.ok;
          scan =
              one t0 t1 a b (take l rest) (drop l rest)
                (ap (λ r. t0 ∷ t1 ∷ a ∷ b ∷ r) (sym (take-append-drop l rest))) (omega arith)
                (omega (arith, length-take l rest)) later.scan;
        }
  ]
]
scan_fuel (suc n) bytes h = record { tags = []; ok = true; scan = short (omega arith) }

pub scan_total : (bytes : List ℕ) → Scanned bytes
scan_total bytes = scan_fuel (suc (length bytes)) bytes (omega arith)

-- What the loop of the code reads at the position of the bytes.
module _ (pre after : List ℕ) where
  pub read_header-short :
      (bytes : List ℕ)
      → length bytes < 4
      → read_header (pre ++ (bytes ++ after)) (length pre + length bytes) (length pre)
        ≡ some no_room
  unfolding read_header
  read_header-short bytes h = rw (lt→leb (length pre + 4) (length pre + length bytes) (omega arith))

  pub read_header-cons :
      (t0 t1 a b : ℕ) (rest : List ℕ)
      → read_header
          (pre ++ (t0 ∷ t1 ∷ a ∷ b ∷ (rest ++ after)))
          (length pre + suc (suc (suc (suc (length rest)))))
          (length pre)
        ≡ some (
            if t0 * 256 + t1 == 0
            then end_of_list
            else if ltb (length rest) (a * 256 + b)
            then too_long
            else tag (t0 * 256 + t1) (a * 256 + b))
  unfolding read_header
  read_header-cons t0 t1 a b rest =
      let xs = t0 ∷ t1 ∷ a ∷ b ∷ (rest ++ after) in
      rw
        (
          le→leb (length pre + 4) (length pre + suc (suc (suc (suc (length rest))))) (omega arith),
          ap (get_elem? (pre ++ xs)) (add-zero-sym (length pre)) ∙ get_elem?-append pre xs 0,
          get_elem?-append pre xs 1,
          get_elem?-append pre xs 2,
          get_elem?-append pre xs 3,
        )
        (ground arith)
    where
      add-zero-sym : (n : ℕ) → n ≡ n + 0
      add-zero-sym n = omega arith
