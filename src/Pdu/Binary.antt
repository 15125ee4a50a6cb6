-- ===== src/Pdu/Binary.antt =====
-- Binary data in a PDU (pdu.cpp): `binary2pdu` and `pdu2binary`.
use yate_datacard.CharConv.{hex_dump}
use yate_datacard.Pdu.Octet.{
  UserData, first_error, octet2bin_check, refused_data, second_digit, short_or_bad,
}
use yate_datacard.Pdu.Udh.{Header, bad_header, header, read_header}
use yate_datacard.Prelude.{
  Bool, Bytes, [], drop, if◌then◌else◌, ltb, negsuc, none, pos, sub_ℕ, suc, take, zero, ℕ, ℤ, ◌%◌,
  ◌*◌, ◌+◌, ◌-◌, ◌∷◌,
}

unfoldable pub binary2pdu : Bytes → Bytes
binary2pdu binary = hex_dump (take 140 binary)

-- The end of the loop over the data: all of it, or a stop at `i`, the result of `octet2bin_check`.
pub data Octets : Type 0 where
  all_read : Bytes → Octets
  stopped : ℕ → ℤ → Bytes → Octets

unfoldable pub add_octet : ℕ → Octets → Octets
add_octet v (all_read bytes) = all_read (v ∷ bytes)
add_octet v (stopped at i bytes) = stopped at i (v ∷ bytes)

unfoldable pub octet_read : ℕ → ℤ → Octets → Octets
unfolding add_octet
octet_read counter (pos v) more = add_octet (v % 256) more
octet_read counter (negsuc n) more =
    stopped (counter * 2 + 2 + second_digit (negsuc n)) (negsuc n) []

-- The loop, from `octetcounter` on with so many octets to come; `binary` is an array of `char`.
unfoldable pub data_octets : ℕ → ℕ → Bytes → Octets
unfolding octet_read
data_octets zero counter pdu = all_read []
data_octets (suc left) counter pdu =
    octet_read counter (octet2bin_check pdu) (data_octets left (counter + 1) (drop 2 pdu))

unfoldable pub data_result : ℕ → Bytes → Bytes → Octets → UserData
data_result octets udh udh_type (all_read bytes) = record {
  ret = pos octets;
  errorpos = none;
  bytes = bytes;
  udh = udh;
  udh_type = udh_type;
}
data_result octets udh udh_type (stopped at i bytes) = refused_data (short_or_bad i) (pos at) bytes

-- `octets - skip_octets`, where the header is longer than the data that hold it.
abbrev pub too_long : ℕ → ℕ → Bytes → Bytes → UserData
too_long octets skip udh udh_type = record {
  ret = sub_ℕ octets skip;
  errorpos = none;
  bytes = [];
  udh = udh;
  udh_type = udh_type;
}

unfoldable pub data_behind : ℕ → Header → Bytes → UserData
unfolding data_octets data_result
data_behind octets (bad_header ret at) pdu = refused_data ret at []
data_behind octets (header skip udh udh_type) pdu =
    let left = octets - skip in
    let read = data_result left udh udh_type (data_octets left skip (drop (2 + skip * 2) pdu)) in
    if ltb octets skip then too_long octets skip udh udh_type else read

unfoldable pub binary_of : ℤ → Bool → Bytes → UserData
unfolding data_behind read_header
binary_of (pos octets) with_udh pdu = data_behind octets (read_header with_udh pdu) pdu
binary_of (negsuc n) with_udh pdu =
    refused_data (short_or_bad (negsuc n)) (first_error (negsuc n)) []

unfoldable pub pdu2binary : Bool → Bytes → UserData
unfolding binary_of
pdu2binary with_udh pdu = binary_of (octet2bin_check pdu) with_udh pdu
