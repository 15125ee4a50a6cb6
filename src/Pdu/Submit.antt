-- ===== src/Pdu/Submit.antt =====
-- What `generate` gives for a short message in UCS-2, against an encoder written out.
use yate_datacard.CharConv.{hex_dump}
use yate_datacard.CharConv.SevenBit.{length-hex_dump}
use yate_datacard.Libc.Hex.{hex02, hex_digit, hex_number}
use yate_datacard.Pdu.Binary.{binary2pdu}
use yate_datacard.Pdu.Generate.{
  data_of, front_part, generate, swapped_number, to_utf16, ucs2_message,
}
use yate_datacard.Pdu.Numbers.{length-swapped_number}
use yate_datacard.Pdu.Parse.{Iconv}
use yate_datacard.Prelude.{
  Bytes, Option, ap, append_assoc, arith, codes, false, get_or, if◌then◌else◌, length,
  length-append, ltb, lt→ltb, none, refl, some, take-length, ℕ, ◌%◌, ◌*◌, ◌++◌, ◌+◌, ◌/◌, ◌<◌, ◌==◌,
  ◌∙◌, ◌≡◌, ◌≤◌,
}

-- The octets of an SMS-SUBMIT in UCS-2 to an international number: its type, no reference, the
-- address, no protocol, the coding, a validity of 170, and the data with their length.
unfoldable pub submit_pdu : Bytes → Bytes → Bytes
submit_pdu digits text =
    codes "1100"
    ++ (hex02 (length digits)
        ++ (codes "91"
            ++ (swapped_number digits
                ++ (codes "0008AA" ++ (hex02 (length text) ++ hex_dump text)))))

hex_number_octet : (n : ℕ) → n < 256 → hex_number n ≡ hex02 n
unfolding hex_number
hex_number_octet n l = rw (lt→ltb n 256 l) refl

front_octets :
    (size number text_size text : Bytes)
    → hex_number 17
        ++ (codes "00" ++ (size ++ (hex_number 145 ++ number)))
        ++ (hex_number 0 ++ (hex_number 8 ++ (hex_number 170 ++ text_size)))
        ++ text
      ≡ codes "1100"
        ++ (size ++ (codes "91" ++ (number ++ (codes "0008AA" ++ (text_size ++ text)))))
unfolding hex_number hex02 hex_digit
front_octets size number text_size text =
    ap (λ s. codes "1100" ++ s)
      (ap (λ s. s ++ text) (append_assoc size (codes "91" ++ number) (codes "0008AA" ++ text_size))
        ∙ append_assoc size (codes "91" ++ (number ++ (codes "0008AA" ++ text_size))) text
        ∙ ap (λ s. size ++ (codes "91" ++ s))
            (append_assoc number (codes "0008AA" ++ text_size) text))

front_part_ucs2 :
    (digits text : Bytes)
    → (get_or digits 0 0 == b's') ≡ false
    → length digits < 256
    → length text ≤ 140
    → front_part (ucs2_message digits text) (length text) ++ hex_dump text ≡ submit_pdu digits text
unfolding submit_pdu front_part ucs2_message swapped_number
front_part_ucs2 digits text s n l =
    rw (s, hex_number_octet (length digits) n, hex_number_octet (length text) (omega arith))
      (front_octets (hex02 (length digits)) (swapped_number digits) (hex02 (length text))
        (hex_dump text))

length-submit_pdu :
    (digits text : Bytes)
    → 2 + length (submit_pdu digits text)
      ≡ 18 + (length digits + length digits % 2) + 2 * length text
unfolding submit_pdu hex02
length-submit_pdu digits text =
    let tail = codes "0008AA" ++ (hex02 (length text) ++ hex_dump text) in
    omega (
      arith,
      length-append (swapped_number digits) tail,
      length-swapped_number digits,
      length-hex_dump text,
    )

-- The PDU where it fits into `m_pdu`.
abbrev pub fitting : Bytes → Option (ℕ × Bytes)
fitting pdu = if ltb (2 + length pdu) 160 then some (length pdu / 2, codes "00" ++ pdu) else none

generated :
    (iconv : Iconv) (digits message out : Bytes)
    → iconv.convert (codes "UTF16BE") (codes "UTF8") message ≡ some out
    → generate iconv (ucs2_message digits message)
      ≡ (let q = ucs2_message digits out in fitting (front_part q (length out) ++ binary2pdu out))
unfolding generate to_utf16 data_of ucs2_message
generated iconv digits message out h = rw h refl

-- Of a message of up to 140 octets in UCS-2, to a number that starts with no s and has less than
-- 256 characters, `generate` makes the SMS-SUBMIT, where that has less than 160 characters, and
-- else it writes behind `m_pdu`. With the service centre it has 18 characters, the number filled up
-- to pairs, and two for each octet.
pub generate-submit_pdu :
    (iconv : Iconv) (digits message out : Bytes)
    → iconv.convert (codes "UTF16BE") (codes "UTF8") message ≡ some out
    → (get_or digits 0 0 == b's') ≡ false
    → length digits < 256
    → length out ≤ 140
    → (generate iconv (ucs2_message digits message) ≡ fitting (submit_pdu digits out))
      × (2 + length (submit_pdu digits out)
          ≡ 18 + (length digits + length digits % 2) + 2 * length out)
unfolding binary2pdu
generate-submit_pdu iconv digits message out h s n l = (
  generated iconv digits message out h
      ∙ ap fitting (
          ap (λ b. front_part (ucs2_message digits out) (length out) ++ hex_dump b)
            (take-length 140 out l)
          ∙ front_part_ucs2 digits out s n l),
  length-submit_pdu digits out,
)
