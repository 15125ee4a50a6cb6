-- ===== src/Pdu/Ends.antt =====
-- How `pdu2binary` ends.
use yate_datacard.Pdu.Binary.{Octets, all_read, stopped}
use yate_datacard.Pdu.Octet.{UserData, octet2bin_check}
use yate_datacard.Pdu.Udh.{Copied, Header, bad_header, bad_udh, copied, header}
use yate_datacard.Prelude.{
  Bytes, [], drop, is_neg, length, negsuc, none, pos, suc, true, ℕ, ℤ, ◌%◌, ◌*◌, ◌+◌, ◌<◌, ◌∷◌, ◌≡◌,
  ◌≢◌, ◌≤◌, ◌⊎◌,
}

-- The octets of a text of hex digits from a place on, one for each of the bytes: each can be read,
-- and is the byte.
abbrev pub AreOctets : Bytes → ℕ → Bytes → Type 0
AreOctets pdu place [] = Unit
AreOctets pdu place (b ∷ bytes) =
    ((v : ℕ) × (octet2bin_check (drop (place * 2) pdu) ≡ pos v) × (b ≡ v % 256))
    × AreOctets pdu (suc place) bytes

-- All the octets from a place on were read, or fewer.
abbrev Ended : Bytes → ℕ → ℕ → Octets → Type 0
Ended pdu place left (all_read bytes) = (length bytes ≡ left) × AreOctets pdu place bytes
Ended pdu place left (stopped at i bytes) = (length bytes < left) × AreOctets pdu place bytes

-- The octets that a header takes.
abbrev pub header_octets : Header → ℕ
header_octets (header octets udh udh_type) = octets
header_octets (bad_header ret at) = 0

-- All the data behind the header were read; or the result is negative, with at most as many octets
-- as announced, and an error position, unless the header is longer than what holds it.
abbrev pub Reads : ℤ → Header → UserData → Type 0
Reads (pos octets) h r =
    ((n : ℕ) × (r.ret ≡ pos n) × (length r.bytes ≡ n) × (n + header_octets h ≡ octets))
    ⊎ ((is_neg r.ret ≡ true)
        × (length r.bytes ≤ octets)
        × ((r.errorpos ≢ none) ⊎ (octets < header_octets h)))
Reads (negsuc n) h r = (is_neg r.ret ≡ true) × (r.errorpos ≢ none) × (r.bytes ≡ [])

-- A header that is refused has a negative result.
Negative : Header → Type 0
Negative (header octets udh udh_type) = Unit
Negative (bad_header ret at) = is_neg ret ≡ true

Fails : Copied → Type 0
Fails (copied dump) = Unit
Fails (bad_udh at ret) = is_neg ret ≡ true
