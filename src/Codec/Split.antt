-- ===== src/Codec/Split.antt =====
-- The front frame of a buffer: bytes behind it do not matter, and it is decoded to an answer.
use mini_ray.Base.{
  length-append, arith, none, List, false, ◌≡◌, inr, ◌∙◌, Error, ◌+◌, some, leb, refl, length,
  take-append_left, ◌≢◌, Option, ℕ, unmarshal_failed, length-take, err, ltb, drop, ◌-◌, ◌++◌, inl,
  ◌≤◌, length-drop, drop-append_left, ap, Result, Option-cases, ok, Bool-cases, take, short_buffer,
}
use mini_ray.Codec.Endian.{uint}
use mini_ray.External.{Proto}
use mini_ray.Messages.{Kind, Message}
use mini_ray.Codec.{
  Header, ray_uri_base, with_header, unmarshal_by_uri, unmarshal_as, unmarshal_ray_body,
  decode_inner_payload,
}
use mini_ray.Codec.Decode.{split_frame, paired}

-- What it takes for a frame to be split off, spelled out.
split_frame-some :
    (bs x rest : List ℕ)
    → split_frame bs ≡ some (x, rest)
    → (4 ≤ length bs)
      × (10 ≤ uint (take 4 bs))
      × (4 + uint (take 4 bs) ≤ length bs)
      × (x ≡ take (uint (take 4 bs)) (drop 4 bs))
      × (rest ≡ drop (uint (take 4 bs)) (drop 4 bs))
unfolding split_frame
split_frame-some bs x rest e = ground arith

split_frame_of :
    (bs : List ℕ) (n : ℕ)
    → uint (take 4 bs) ≡ n
    → 10 ≤ n
    → 4 + n ≤ length bs
    → split_frame bs ≡ some (take n (drop 4 bs), drop n (drop 4 bs))
unfolding split_frame
split_frame_of bs n e big h = ground arith

pub split_frame-append :
    (bs t x rest : List ℕ)
    → split_frame bs ≡ some (x, rest)
    → split_frame (bs ++ t) ≡ some (x, rest ++ t)
split_frame-append bs t x rest e =
    let n = uint (take 4 bs) in
    let (four, big, fits, ex, er) = split_frame-some bs x rest e in
    let body : drop 4 (bs ++ t) ≡ drop 4 bs ++ t = drop-append_left 4 bs t four in
    let room : n ≤ length (drop 4 bs) = omega (arith, length-drop 4 bs) in
    split_frame_of (bs ++ t) n (ap uint (take-append_left 4 bs t four)) big
      (omega (arith, length-append bs t))
    ∙ rw
        (body, take-append_left n (drop 4 bs) t room, drop-append_left n (drop 4 bs) t room, ex, er)
        refl

pub split_frame-length :
    (bs x rest : List ℕ)
    → split_frame bs ≡ some (x, rest)
    → (10 ≤ length x) × (length rest + length x + 4 ≡ length bs)
split_frame-length bs x rest e =
    let n = uint (take 4 bs) in
    let (four, big, fits, ex, er) = split_frame-some bs x rest e in
    let lx : length x ≡ n =
      ap length ex ∙ omega (arith, length-take n (drop 4 bs), length-drop 4 bs) in
    let lr : length rest ≡ length bs - 4 - n =
      ap length er ∙ omega (arith, length-drop n (drop 4 bs), length-drop 4 bs) in
    (omega arith, omega arith)

-- An answer of `ZeroCopyDecode` on a whole frame: a packet, or an error that closes the connection.
pub data IsAnswer : Result (Header × Message) → Type 0 where
  packet : (h : Header) (m : Message) → IsAnswer (ok (h, m))
  refused : (e : Error) → e ≢ short_buffer → IsAnswer (err e)

module _ (p : Proto) where
  with_header-IsAnswer :
      (h : Header) (o : Option Kind) (e : Error) (body : List ℕ)
      → e ≢ short_buffer
      → IsAnswer (with_header h (unmarshal_as p o e body))
  unfolding unmarshal_as
  with_header-IsAnswer h none e body ne = refused e ne
  with_header-IsAnswer h (some k) e body ne = elim (Option-cases (p.unmarshal k body)) [
    | inl n ↦ rw (n, unmarshal_as, with_header) (refused unmarshal_failed (λ x. cc))
    | inr (m, s) ↦ rw (s, unmarshal_as, with_header) (packet h m)
  ]

  pub paired-IsAnswer :
      (payload : List ℕ) → 10 ≤ length payload → IsAnswer (paired (decode_inner_payload p payload))
  unfolding decode_inner_payload unmarshal_by_uri unmarshal_ray_body
  paired-IsAnswer payload h =
      let long : ltb (length payload) 10 ≡ false = ground arith in
      elim (Bool-cases (leb ray_uri_base (uint (take 2 payload)))) [
        | inl ray ↦ rw (long, ray) (with_header-IsAnswer _ _ _ _ (λ x. cc))
        | inr meta ↦ rw (long, meta) (with_header-IsAnswer _ _ _ _ (λ x. cc))
      ]
