-- ===== src/Packet/RoundTrip.antt =====
-- A frame that is built by AppendUserPacket and SerializeHead is read back by ParseHeader and Parse.
use sky_accel.Base.{
  ℕ, suc, ◌+◌, ◌^◌, ◌≤◌, ◌<◌, ◌≡◌, refl, sym, ap, ◌∙◌, List, [], ◌∷◌, ◌++◌, some, arith, ltb,
  length, take, drop, replicate, All, length-append, length-drop, length-replicate,
  take-append_exact, drop-append_exact, false,
}
use sky_accel.Base.Run.{ok}
use sky_accel.Packet.Bytes.{copy, uint16-be16, uint32-be32, copy_le}
use sky_accel.Packet.{
  Packet, SubPacket, header_size, parsed, parse_payload, read_subs, parse, parse_header, new_packet,
  read_fields, header_bytes, serialize_head, total_bytes, frame,
}
use sky_accel.Packet.Append.{encode, length-le-encode, Carries, serialize-Carries}
use sky_accel.Packet.Parse.{Fits, received, SameFields, read_subs-encode}

-- The fields are values of their Go types.
pub record InRange (p : Packet) : Type 0 where
  pub hop0 : p.hop_ip.hop0 < 2 ^ 32
  pub hop1 : p.hop_ip.hop1 < 2 ^ 32
  pub hop2 : p.hop_ip.hop2 < 2 ^ 32
  pub hop3 : p.hop_ip.hop3 < 2 ^ 32
  pub payload_len : p.payload_len < 2 ^ 16
  pub port : p.port < 2 ^ 16

-- The slice behind SerializeHead, for a buffer that begins with the announced bytes.
frame_cut :
    (p : Packet) (buf xs ys : List ℕ)
    → serialize_head p ≡ ok (record p { buf = buf })
    → buf ≡ xs ++ ys
    → total_bytes p ≡ length xs
    → frame p ≡ ok xs
unfolding frame
frame_cut p buf xs ys s e n =
    let long : ltb (length buf) (total_bytes p) ≡ false =
      rw e (ground (arith, length-append xs ys)) in
    rw (s, frame) (unfold total_bytes in rw long (rw (n, e) (ap ok (take-append_exact xs ys))))

two_items : (xs : List ℕ) → length xs ≡ 2 → (a : ℕ) × (b : ℕ) × (xs ≡ a ∷ b ∷ [])
two_items (a ∷ b ∷ []) e = (a, b, refl)
two_items xs e = absurd (omega arith)

-- A frame with its two bytes of padding.
abbrev pub frame_bytes : Packet → ℕ → ℕ → List ℕ → List ℕ
frame_bytes p a b payload = header_bytes p ++ (a ∷ b ∷ payload)

pub frame-Carries :
    (p : Packet) (subs : List SubPacket)
    → Carries p subs
    → p.payload_len ≡ length (encode subs)
    → (a : ℕ) × (b : ℕ) × (frame p ≡ ok (frame_bytes p a b (encode subs)))
frame-Carries p subs c e =
    let (a, b, pad) =
      two_items (drop 22 c.head) (omega (arith, length-drop 22 c.head, c.head_size)) in
    (
      a,
      b,
      frame_cut p _ (frame_bytes p a b (encode subs)) c.room (serialize-Carries p subs c)
          (ap (λ t. ((header_bytes p ++ t) ++ encode subs) ++ c.room) pad)
          (unfold total_bytes in omega arith),
    )

-- The 22 bytes of the header give the fields back, whatever follows them.
read_fields-header_bytes :
    (p base : Packet) (rest : List ℕ)
    → InRange p
    → SameFields p (read_fields (header_bytes p ++ rest) base)
read_fields-header_bytes p base rest r = record {
  position = refl;
  hops = λ i. record {
    hop0 = uint32-be32 p.hop_ip.hop0 r.hop0 i;
    hop1 = uint32-be32 p.hop_ip.hop1 r.hop1 i;
    hop2 = uint32-be32 p.hop_ip.hop2 r.hop2 i;
    hop3 = uint32-be32 p.hop_ip.hop3 r.hop3 i;
  };
  payload_len = uint16-be16 p.payload_len r.payload_len;
  port = uint16-be16 p.port r.port;
  protocol = refl;
}

parse_payload-exact :
    (q : Packet) (head payload rest : List ℕ) (raw_size size : ℕ) (ss : List SubPacket)
    → q.buf ≡ head ++ (payload ++ rest)
    → length head ≡ header_size
    → q.payload_len ≡ length payload
    → header_size + length payload ≤ raw_size
    → header_size + length payload ≤ size
    → read_subs (suc (length payload)) payload ≡ some ss
    → parse_payload raw_size size q ≡ parsed q ss
unfolding parse_payload
parse_payload-exact q head payload rest raw_size size ss e h n r s d =
    let behind : drop header_size q.buf ≡ payload ++ rest =
      ap (drop header_size) e
      ∙ ap (λ n. drop n (head ++ (payload ++ rest))) (sym h)
      ∙ drop-append_exact head (payload ++ rest) in
    let cut : take q.payload_len (drop header_size q.buf) ≡ payload =
      rw (behind, n) (take-append_exact payload rest) in
    rw (cut, parse_payload) (ground (arith, d))

module _ (p : Packet) (a b : ℕ) (payload : List ℕ) (r : InRange p)
    (announced : p.payload_len ≡ length payload) where
  pub parse_header-frame :
      (q : Packet) × (parse_header (frame_bytes p a b payload) ≡ some q) × SameFields p q
  unfolding parse_header
  parse_header-frame =
      let base = record (new_packet 0) {
        buf = take header_size (frame_bytes p a b payload);
        wp = 0;
      } in
      (
        read_fields (take header_size (frame_bytes p a b payload)) base,
        ground arith,
        read_fields-header_bytes p base (a ∷ b ∷ []) r,
      )

  filled :
      (size : ℕ)
      → header_size + length payload ≤ size
      → copy (replicate size 0) (frame_bytes p a b payload)
        ≡ frame_bytes p a b payload ++ drop (length (frame_bytes p a b payload)) (replicate size 0)
  filled size h =
      copy_le (replicate size 0) (frame_bytes p a b payload)
        (omega (arith, length-replicate {A = ℕ} size 0))

  parse_filled :
      (size : ℕ) (rest : List ℕ) (ss : List SubPacket)
      → copy (replicate size 0) (frame_bytes p a b payload) ≡ frame_bytes p a b payload ++ rest
      → header_size + length payload ≤ size
      → read_subs (suc (length payload)) payload ≡ some ss
      → parse (frame_bytes p a b payload) size
        ≡ ok (
            parsed
              (read_fields
                (frame_bytes p a b payload ++ rest)
                (record (new_packet size) { buf = frame_bytes p a b payload ++ rest }))
              ss)
  unfolding parse
  parse_filled size rest ss fill h e =
      let base = record (new_packet size) { buf = frame_bytes p a b payload ++ rest } in
      let same = read_fields-header_bytes p base (a ∷ b ∷ (payload ++ rest)) r in
      let body =
        parse_payload-exact (read_fields (frame_bytes p a b payload ++ rest) base)
          (frame_bytes p a b []) payload rest (length (frame_bytes p a b payload)) size ss refl refl
          (same.payload_len ∙ announced) (omega arith) h e in
      let long : ltb (length (frame_bytes p a b payload)) header_size ≡ false = ground arith in
      let wide : ltb size header_size ≡ false = ground arith in
      rw (long, wide)
        (ap
            (λ b'. ok (
              parse_payload (length (frame_bytes p a b payload)) size
                (read_fields b' (record (new_packet size) { buf = b' }))))
            fill
          ∙ ap ok body)

  pub parse-frame :
      (size : ℕ) (ss : List SubPacket)
      → header_size + length payload ≤ size
      → read_subs (suc (length payload)) payload ≡ some ss
      → (q : Packet) × (parse (frame_bytes p a b payload) size ≡ ok (parsed q ss)) × SameFields p q
  unfolding parse
  parse-frame size ss h e =
      let rest : List ℕ = drop (length (frame_bytes p a b payload)) (replicate size 0) in
      let raw : List ℕ = frame_bytes p a b payload in
      let base : Packet = record (new_packet size) { buf = raw ++ rest } in
      (
        read_fields (raw ++ rest) base,
        parse_filled size rest ss (filled size h) h e,
        read_fields-header_bytes p base (a ∷ b ∷ (payload ++ rest)) r,
      )

-- What a packet with the sub-packets `subs` is read back as: its header fields, by ParseHeader and
-- by Parse, and the sub-packets that the reader receives.
abbrev pub ReadBack : Packet → List SubPacket → List ℕ → Type 0
ReadBack p subs raw =
    ((q : Packet) × (parse_header raw ≡ some q) × SameFields p q)
    × ((q : Packet) × (parse raw (length raw) ≡ ok (parsed q (received subs))) × SameFields p q)

-- A frame of `p` with the sub-packets `subs`.
pub record IsFrame (p : Packet) (subs : List SubPacket) (raw : List ℕ) : Type 0 where
  pub pad0 : ℕ
  pub pad1 : ℕ
  pub bytes : raw ≡ frame_bytes p pad0 pad1 (encode subs)
  pub in_range : InRange p
  pub announced : p.payload_len ≡ length (encode subs)
  pub fits : All Fits subs

-- A packet that carries `subs` is framed without a panic.
pub frame-IsFrame :
    (p : Packet) (subs : List SubPacket)
    → Carries p subs
    → InRange p
    → p.payload_len ≡ length (encode subs)
    → All Fits subs
    → (raw : List ℕ) × (frame p ≡ ok raw) × IsFrame p subs raw
frame-IsFrame p subs c r e f =
    let (a, b, framed) = frame-Carries p subs c e in
    (
      frame_bytes p a b (encode subs),
      framed,
      record { pad0 = a; pad1 = b; bytes = refl; in_range = r; announced = e; fits = f },
    )

pub IsFrame-ReadBack :
    (p : Packet) (subs : List SubPacket) (raw : List ℕ) → IsFrame p subs raw → ReadBack p subs raw
IsFrame-ReadBack p subs raw f =
    let read =
      read_subs-encode subs (suc (length (encode subs))) f.fits
        (omega (arith, length-le-encode subs)) in
    rw f.bytes (
      parse_header-frame p f.pad0 f.pad1 (encode subs) f.in_range f.announced,
      parse-frame p f.pad0 f.pad1 (encode subs) f.in_range f.announced
          (length (frame_bytes p f.pad0 f.pad1 (encode subs))) (received subs) (omega arith) read,
    )

-- A packet that carries `subs` behind a header with fields in range, and announces their length,
-- is framed without a panic; ParseHeader and Parse read its header back, and Parse all of `subs`
-- but for a last one with no content.
pub frame-ReadBack :
    (p : Packet) (subs : List SubPacket)
    → Carries p subs
    → InRange p
    → p.payload_len ≡ length (encode subs)
    → All Fits subs
    → (raw : List ℕ) × (frame p ≡ ok raw) × ReadBack p subs raw
frame-ReadBack p subs c r e f =
    let (raw, framed, isf) = frame-IsFrame p subs c r e f in
    (raw, framed, IsFrame-ReadBack p subs raw isf)
