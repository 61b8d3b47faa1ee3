-- ===== src/Codec/RoundTrip.antt =====
-- What EncodePayload and MakeFrame write, ZeroCopyDecode reads back.
use mini_ray.Base.{
  ltb, length-append, take-append_length, drop-append_length, false, append_assoc, ◌≡◌, ◌+◌, ◌^◌,
  length, ◌<◌, ◌≤◌, Option-cases, drop, refl, ◌∙◌, ℕ, ap, inl, ok, some, inr, ◌++◌, List, arith,
  take,
}
use mini_ray.Codec.Dispatch.{uri_of, unmarshal_by_uri-marshal}
use mini_ray.Codec.Endian.{put_uint, uint-put_uint, uint}
use mini_ray.External.{Reader, Proto}
use mini_ray.Frame.{make_frame}
use mini_ray.Messages.{kind_of, Message}
use mini_ray.Codec.{
  unmarshal_by_uri, Header, encode_payload, decode_inner_payload, zero_copy_decode,
}
use mini_ray.Codec.Decode.{split_frame, paired, zero_copy_decode_lem}

-- A uint16 and a uint64.
pub record IsHeader (h : Header) : Type 0 where
  pub uri_u16 : h.uri < 2 ^ 16
  pub seq_u64 : h.seq_id < 2 ^ 64

module _ (p : Proto) where
  -- A payload is ten bytes of header and the marshalled body.
  encode_payload-ok :
      (h : Header) (m : Message) (inner : List ℕ)
      → encode_payload p h m ≡ ok inner
      → (body : List ℕ) × (p.marshal m ≡ some body)
        × (inner ≡ put_uint 2 h.uri ++ (put_uint 8 h.seq_id ++ body))
  unfolding encode_payload
  encode_payload-ok h m inner e = elim (Option-cases (p.marshal m)) [
    | inl n ↦ absurd (ground arith)
    | inr (body, s) ↦ (body, s, ground arith)
  ]

  fields :
      (u q : ℕ) (body : List ℕ)
      → (take 2 (put_uint 2 u ++ (put_uint 8 q ++ body)) ≡ put_uint 2 u)
        × (drop 2 (take 10 (put_uint 2 u ++ (put_uint 8 q ++ body))) ≡ put_uint 8 q)
        × (drop 10 (put_uint 2 u ++ (put_uint 8 q ++ body)) ≡ body)
  unfolding put_uint
  fields u q body = (refl, refl, refl)

  length-inner :
      (u q : ℕ) (body : List ℕ) → length (put_uint 2 u ++ (put_uint 8 q ++ body)) ≡ 10 + length body
  unfolding put_uint
  length-inner u q body = omega arith

  decode_payload-parts :
      (h : Header) (body : List ℕ)
      → IsHeader h
      → decode_inner_payload p (put_uint 2 h.uri ++ (put_uint 8 h.seq_id ++ body))
        ≡ (some h, unmarshal_by_uri p h.uri body)
  unfolding decode_inner_payload
  decode_payload-parts h body v =
      let (a, b, c) = fields h.uri h.seq_id body in
      let u : uint (put_uint 2 h.uri) ≡ h.uri = uint-put_uint 2 h.uri ∙ omega arith in
      let q : uint (put_uint 8 h.seq_id) ≡ h.seq_id = uint-put_uint 8 h.seq_id ∙ omega arith in
      let l : ltb (length (put_uint 2 h.uri ++ (put_uint 8 h.seq_id ++ body))) 10 ≡ false =
        ground (arith, length-inner h.uri h.seq_id body) in
      rw (l, a, b, c, u, q) refl

  -- DecodeInnerPayload gives back the header and the message that EncodePayload was given, if the
  -- header is in range and bears the number of the message's type.
  pub decode_inner_payload-encode_payload :
      (h : Header) (m : Message) (inner : List ℕ)
      → IsHeader h
      → h.uri ≡ uri_of (kind_of m)
      → encode_payload p h m ≡ ok inner
      → decode_inner_payload p inner ≡ (some h, ok m)
  decode_inner_payload-encode_payload h m inner v u e =
      let (body, s, i) = encode_payload-ok h m inner e in
      ap (decode_inner_payload p) i
      ∙ decode_payload-parts h body v
      ∙ ap (λ r. (some h, r))
          (ap (λ k. unmarshal_by_uri p k body) u ∙ unmarshal_by_uri-marshal p m body s)

  pub length-encode_payload :
      (h : Header) (m : Message) (inner : List ℕ)
      → encode_payload p h m ≡ ok inner
      → 10 ≤ length inner
  length-encode_payload h m inner e =
      let (body, _, i) = encode_payload-ok h m inner e in
      omega (arith, ap length i, length-inner h.uri h.seq_id body)

pub length_field :
    (n : ℕ) (xs : List ℕ)
    → (take 4 (put_uint 4 n ++ xs) ≡ put_uint 4 n)
      × (drop 4 (put_uint 4 n ++ xs) ≡ xs)
      × (length (put_uint 4 n ++ xs) ≡ 4 + length xs)
unfolding put_uint
length_field n xs = (refl, refl, omega arith)

-- A frame at the front of a buffer is the one that is split off.
pub split_frame-make_frame :
    (inner rest : List ℕ)
    → 10 ≤ length inner
    → length inner < 2 ^ 32
    → split_frame (make_frame inner ++ rest) ≡ some (inner, rest)
unfolding split_frame make_frame
split_frame-make_frame inner rest lo hi =
    let n = length inner in
    let (t, d, l) = length_field n (inner ++ rest) in
    let u : uint (put_uint 4 n) ≡ n = uint-put_uint 4 n ∙ omega arith in
    let la : length (inner ++ rest) ≡ n + length rest = length-append inner rest in
    let few : ltb (4 + (n + length rest)) 4 ≡ false = ground arith in
    let low : ltb n 10 ≡ false = ground arith in
    let part : ltb (4 + (n + length rest)) (4 + n) ≡ false = ground arith in
    rw
      (
        append_assoc (put_uint 4 n) inner rest,
        t,
        d,
        l,
        u,
        la,
        few,
        low,
        part,
        take-append_length inner rest n refl,
        drop-append_length inner rest n refl,
      )
      refl

module _ {C : Type 0} (g : Reader C) (p : Proto) where
  -- On a buffer that begins with the frame of an encoded packet, whose header is in range and bears
  -- the number of the message's type and whose length fits 32 bits, ZeroCopyDecode gives back the
  -- header and the message and leaves what follows the frame.
  pub zero_copy_decode-make_frame :
      (h : Header) (m : Message) (inner rest : List ℕ) (c : C)
      → IsHeader h
      → h.uri ≡ uri_of (kind_of m)
      → encode_payload p h m ≡ ok inner
      → length inner < 2 ^ 32
      → g.inbound c ≡ make_frame inner ++ rest
      → ((zero_copy_decode g p c).0 ≡ ok (h, m)) × (g.inbound (zero_copy_decode g p c).1 ≡ rest)
  zero_copy_decode-make_frame h m inner rest c v u e small whole =
      let split = split_frame-make_frame inner rest (length-encode_payload p h m inner e) small in
      let cut : split_frame (g.inbound c) ≡ some (inner, rest) = ap split_frame whole ∙ split in
      let (got, left) = rw cut at (zero_copy_decode_lem g p c) in
      (got ∙ ap paired (decode_inner_payload-encode_payload p h m inner v u e), left)
