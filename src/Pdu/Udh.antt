-- ===== src/Pdu/Udh.antt =====
-- The user data header (pdu.cpp): the copy that `pdu2text` and `pdu2binary` make of it, and
-- `explain_udh`.
use yate_datacard.Libc.Dec.{dec}
use yate_datacard.Libc.Hex.{is_xdigit}
use yate_datacard.Pdu.Octet.{octet2bin_check, short_or_bad}
use yate_datacard.Pdu.Status.{between, text_at}
use yate_datacard.Prelude.{
  Bool, Bytes, List, Option, [], codes, drop, eq_ℤ, false, get_or, if◌then◌else◌, leb, length, ltb,
  negsuc, none, not, pos, some, suc, take, true, zero, ℕ, ℤ, ◌*◌, ◌++◌, ◌+◌, ◌==◌, ◌∷◌,
}

-- The copy as a hex dump, or a stop: where, and the result.
pub data Copied : Type 0 where
  copied : Bytes → Copied
  bad_udh : ℕ → ℤ → Copied

unfoldable pub add_udh : ℕ → ℕ → Copied → Copied
add_udh a b (copied dump) = copied (a ∷ b ∷ 32 ∷ dump)
add_udh a b (bad_udh at ret) = bad_udh at ret

-- -2 at the end of the PDU, -1 for a character that is no digit.
abbrev pub stop_at : ℕ → ℕ → Copied
stop_at c at = bad_udh at (if c == 0 then negsuc 1 else negsuc 0)

-- The loop from `octetcounter` on, with so many octets to come. It stops at the first character
-- that is no digit, the final NUL among them.
unfoldable pub copy_udh : ℕ → ℕ → Bytes → Copied
unfolding add_udh
copy_udh zero counter pdu = copied []
copy_udh (suc left) counter pdu =
    let a = get_or pdu 0 0 in
    let b = get_or pdu 1 0 in
    let more = copy_udh left (counter + 1) (drop 2 pdu) in
    if leb 512 (counter * 3 + 3)
    then bad_udh (counter * 2 + 2) (negsuc 1)
    else if not (is_xdigit a)
    then stop_at a (counter * 2 + 2)
    else if not (is_xdigit b)
    then stop_at b (counter * 2 + 3)
    else add_udh a b more

-- The cases of the switch in `explain_udh`.
abbrev pub ie_texts : List (ℕ × Bytes)
ie_texts =
    (0, codes "Concatenated short messages, 8-bit reference number")
    ∷ (1, codes "Special SMS Message Indication")
    ∷ (2, codes "Reserved")
    ∷ (4, codes "Application port addressing scheme, 8 bit address")
    ∷ (5, codes "Application port addressing scheme, 16 bit address")
    ∷ (6, codes "SMSC Control Parameters")
    ∷ (7, codes "UDH Source Indicator")
    ∷ (8, codes "Concatenated short message, 16-bit reference number")
    ∷ (9, codes "Wireless Control Message Protocol")
    ∷ (10, codes "Text Formatting")
    ∷ (11, codes "Predefined Sound")
    ∷ (12, codes "User Defined Sound (iMelody max 128 bytes)")
    ∷ (13, codes "Predefined Animation")
    ∷ (14, codes "Large Animation (16*16 times 4 = 32*4 =128 bytes)")
    ∷ (15, codes "Small Animation (8*8 times 4 = 8*4 =32 bytes)")
    ∷ (16, codes "Large Picture (32*32 = 128 bytes)")
    ∷ (17, codes "Small Picture (16*16 = 32 bytes)")
    ∷ (18, codes "Variable Picture")
    ∷ (19, codes "User prompt indicator")
    ∷ (20, codes "Extended Object")
    ∷ (21, codes "Reused Extended Object")
    ∷ (22, codes "Compression Control")
    ∷ (23, codes "Object Distribution Indicator")
    ∷ (24, codes "Standard WVG object")
    ∷ (25, codes "Character Size WVG object")
    ∷ (26, codes "Extended Object Data Request Command")
    ∷ (32, codes "RFC 822 E-Mail Header")
    ∷ (33, codes "Hyperlink format element")
    ∷ (34, codes "Reply Address Element")
    ∷ (35, codes "Enhanced Voice Mail Information")
    ∷ []

ie_range : ℕ → Bytes
ie_range i =
    if between 0x1B 0x1F i
    then codes "Reserved for future EMS features"
    else if between 0x24 0x6F i
    then codes "Reserved for future use"
    else if between 0x70 0x7F i
    then codes "(U)SIM Toolkit Security Headers"
    else if between 0x80 0x9F i
    then codes "SME to SME specific use"
    else if between 0xA0 0xBF i
    then codes "Reserved for future use"
    else if between 0xC0 0xDF i
    then codes "SC specific use"
    else if between 0xE0 0xFF i
    then codes "Reserved for future use"
    else codes "unknown"

-- `p1` behind the switch and the tests: a code without a case of its own keeps the text of the
-- element before, since `p1` is not reset.
kept_text : Option Bytes → Option Bytes → ℤ → Bytes
unfolding ie_range
kept_text (some text) before i = text
kept_text none (some text) i = text
kept_text none none (pos i) = ie_range i
kept_text none none (negsuc n) = codes "unknown"

case_text : ℤ → Option Bytes
case_text (pos i) = text_at i ie_texts
case_text (negsuc n) = none

unfoldable pub ie_text : Option Bytes → ℤ → Bytes
unfolding kept_text case_text
ie_text before i = kept_text (case_text i) before i

-- How the loop ends: whether it returns `udh_length` and not -1, and `udh_type`.
abbrev pub Explained : Type 0
Explained = Bool × Bytes

-- The length octet of an element, and what follows it.
unfoldable pub ie_data : (ℕ → Option Explained) → ℕ → ℕ → ℤ → ℕ → Bytes → Option Explained
ie_data more udh_length idx (negsuc n) behind udh_type = some (false, udh_type)
ie_data more udh_length idx (pos i) behind udh_type =
    let rest = more i in
    if ltb behind (i * 2)
    then some (false, udh_type)
    else if ltb udh_length (idx + i + 2)
    then some (false, udh_type)
    else rest

-- The loop over the elements, from `idx` and its place in the buffer on. No result means that the
-- fuel ran out, which the laws exclude. The case -1 of the switch needs a NUL at `idx`.
unfoldable pub explain_ies : ℕ → ℕ → ℕ → Option Bytes → Bytes → Bytes → Option Explained
unfolding ie_text ie_data
explain_ies zero udh_length idx before buffer udh_type =
    if ltb idx udh_length then none else some (true, udh_type)
explain_ies (suc fuel) udh_length idx before buffer udh_type =
    let i = octet2bin_check buffer in
    let text = ie_text before i in
    let tmp = codes ", [" ++ (take 2 buffer ++ (codes "]" ++ text)) in
    let more =
      ie_data
        (λ n.
          explain_ies fuel udh_length (idx + n + 2) (some text) (drop (4 + n * 2) buffer)
            (udh_type ++ tmp))
        udh_length idx (octet2bin_check (drop 2 buffer)) (length (drop 4 buffer))
        (udh_type ++ tmp) in
    if not (ltb idx udh_length)
    then some (true, udh_type)
    else if eq_ℤ i (negsuc 0)
    then some (false, udh_type)
    else if leb 512 (length udh_type + length tmp)
    then some (false, udh_type)
    else more

-- `strcpyo` at each blank
unfoldable pub no_blanks : Bytes → Bytes
no_blanks [] = []
no_blanks (c ∷ cs) = if c == 32 then no_blanks cs else c ∷ no_blanks cs

unfoldable pub explain_buffer : Bytes → ℤ → Option Explained
unfolding explain_ies
explain_buffer buffer (negsuc n) = some (false, [])
explain_buffer buffer (pos size) =
    let udh_length = size + 1 in
    if ltb (length buffer) (udh_length * 2)
    then some (false, [])
    else explain_ies udh_length udh_length 1 none (drop 2 buffer)
        (codes "Length=" ++ dec udh_length)

unfoldable pub explain_udh : Bytes → Option Explained
unfolding explain_buffer no_blanks
explain_udh pdu =
    if leb 1024 (length pdu)
    then some (false, [])
    else explain_buffer (no_blanks pdu) (octet2bin_check (no_blanks pdu))

-- `if (explain_udh(...) < 0) if (strlen(udh_type) + 7 < max_udh_type) ... "ERROR"`
unfoldable pub with_error : Bytes → Bytes
with_error udh_type =
    if ltb (length udh_type + 7) 512
    then udh_type ++ ((if length udh_type == 0 then [] else codes ", ") ++ codes "ERROR")
    else udh_type

unfoldable pub explained_type : Option Explained → Bytes
unfolding with_error
explained_type none = []
explained_type (some (true, udh_type)) = udh_type
explained_type (some (false, udh_type)) = with_error udh_type

-- What `with_udh` adds to both readers: the octets of the header, its length octet included, its
-- dump and what it says; or a refusal.
pub data Header : Type 0 where
  header : ℕ → Bytes → Bytes → Header
  bad_header : ℤ → ℤ → Header

unfoldable pub header_of : ℕ → Copied → Bytes → Header
unfolding explained_type explain_udh
header_of udhsize (copied dump) pdu =
    header (udhsize + 1) dump (explained_type (explain_udh (drop 2 pdu)))
header_of udhsize (bad_udh at ret) pdu = bad_header ret (pos at)

unfoldable pub sized_header : ℤ → Bytes → Header
unfolding header_of copy_udh
sized_header (negsuc n) pdu = bad_header (short_or_bad (negsuc n)) (pos n)
sized_header (pos udhsize) pdu = header_of udhsize (copy_udh (udhsize + 1) 0 (drop 2 pdu)) pdu

unfoldable pub read_header : Bool → Bytes → Header
unfolding sized_header
read_header false pdu = header 0 [] []
read_header true pdu = sized_header (octet2bin_check (drop 2 pdu)) pdu
