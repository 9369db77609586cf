-- ===== src/Util.antt =====
-- data-proxy/util: addresses as text and as words, and request ids. A text is the list of its
-- bytes. `net.ParseIP` is read for dotted IPv4 text; an IPv6 text has no 4-byte form, which is what
-- HopIPToNet asks for (the form ::ffff:a.b.c.d is left out).
pub mod Address
pub mod Octets
use sky_accel.Base.{
  ℕ, zero, suc, ◌+◌, ◌-◌, ◌*◌, ◌/◌, ◌%◌, ◌^◌, List, [], ◌∷◌, ◌++◌, Option, none, some, Bool, true,
  false, leb, ltb, ◌==◌, ◌&&◌, if◌then◌else◌, length,
}
use sky_accel.Packet.Bytes.{be32, to4, byte}

-- One digit of an octet: no leading zero, and at most 255. `none` stands for an octet with no digit.
unfoldable pub octet_digit : Option ℕ → ℕ → Option ℕ
octet_digit none d = some d
octet_digit (some v) d =
    if v == 0 then none else if ltb 255 (v * 10 + d) then none else some (v * 10 + d)

-- The loop of the parser: the octet so far, and the octets before it.
unfoldable pub octets : Option ℕ → List ℕ → List ℕ → Option (List ℕ)
unfolding octet_digit
octets none done [] = none
octets (some v) done [] = if length done == 3 then some (done ++ v ∷ []) else none
octets cur done (c ∷ cs) =
    if leb b'0' c && leb c b'9'
    then elim (octet_digit cur (c - b'0')) [ none ↦ none | some v ↦ octets (some v) done cs ]
    else if c == b'.'
    then elim cur [
      | none ↦ none
      | some v ↦ if length done == 3 then none else octets none (done ++ v ∷ []) cs
    ]
    else none

-- HopIPToNet; the nil address is the empty slice.
unfoldable pub hop_ip_to_net : List ℕ → List ℕ
unfolding octets
hop_ip_to_net text = elim (octets none [] text) [ none ↦ [] | some ip ↦ ip ]

-- Uint32ToIP
unfoldable pub uint32_to_ip : ℕ → List ℕ
uint32_to_ip v = be32 v

-- `net.IP.String` of four bytes
unfoldable pub decimal : ℕ → List ℕ
decimal v =
    if ltb v 10
    then (b'0' + v) ∷ []
    else if ltb v 100
    then (b'0' + v / 10) ∷ (b'0' + v % 10) ∷ []
    else (b'0' + v / 100) ∷ (b'0' + v / 10 % 10) ∷ (b'0' + v % 10) ∷ []

unfoldable pub ip_string : List ℕ → List ℕ
unfolding decimal
ip_string ip =
    decimal (byte ip 0)
    ++ (b'.'
        ∷ (decimal (byte ip 1) ++ (b'.' ∷ (decimal (byte ip 2) ++ (b'.' ∷ decimal (byte ip 3))))))

-- GenShortReqID on the counter `reqSeq` and the bytes of the parsed client address (nil is []): the
-- new counter, and the last byte of the address over 24 bits of it.
unfoldable pub gen_short_req_id : ℕ → List ℕ → ℕ × ℕ
unfolding to4
gen_short_req_id seq ip =
    let seq' = (seq + 1) % 2 ^ 64 in
    let segment : ℕ = elim (to4 ip) [ none ↦ 0 | some b ↦ byte b 3 ] in
    (seq', segment * 2 ^ 24 + seq' % 2 ^ 24)
