-- ===== src/Codec/Decode.antt =====
-- ZeroCopyDecode on any inbound buffer: it cuts off the first whole frame, or changes nothing.
use mini_ray.External.{Reader, Proto}
use mini_ray.Base.{
  ◌≡◌, some, short_buffer, ◌≤◌, take, inl, none, refl, ℕ, length-drop, inr, ◌+◌, ltb, Result,
  length, err, if◌then◌else◌, Bool-cases, length-take, arith, drop, Option, List, ap, ◌∙◌,
}
use mini_ray.Codec.Endian.{uint}
use mini_ray.Messages.{Message}
use mini_ray.Codec.{
  Header, zero_copy_decode, take_frame, decode_taken, decode_inner_payload, with_header,
}

-- The first frame of a buffer and what follows it; `none` where there is no whole frame of at least
-- ten bytes at the front.
unfoldable pub split_frame : List ℕ → Option (List ℕ × List ℕ)
split_frame bs =
    let n = uint (take 4 bs) in
    if ltb (length bs) 4
    then none
    else if ltb n 10
    then none
    else if ltb (length bs) (4 + n)
    then none
    else some (take n (drop 4 bs), drop n (drop 4 bs))

-- The results of `DecodeInnerPayload` as the ones of `ZeroCopyDecode`.
abbrev pub paired : Option Header × Result Message → Result (Header × Message)
paired (none, r) = err short_buffer
paired (some h, r) = with_header h r

module _ {C : Type 0} (g : Reader C) (p : Proto) where
  decode_taken-paired :
      (payload : List ℕ) → decode_taken g p payload ≡ paired (decode_inner_payload p payload)
  unfolding decode_taken decode_inner_payload
  decode_taken-paired payload = ground arith

  -- What a call leaves: the buffer without its first frame, and that frame decoded.
  abbrev pub Decodes : C → Option (List ℕ × List ℕ) → Result (Header × Message) × C → Type 0
  Decodes c none r = r ≡ (err short_buffer, c)
  Decodes c (some (payload, rest)) r =
      (r.0 ≡ paired (decode_inner_payload p payload)) × (g.inbound r.1 ≡ rest)

  take_frame_lem :
      (n : ℕ) (c : C)
      → 4 + n ≤ length (g.inbound c)
      → Decodes c
          (some (take n (drop 4 (g.inbound c)), drop n (drop 4 (g.inbound c))))
          (take_frame g p n c)
  unfolding take_frame
  take_frame_lem n c h =
      let (_, skip) = g.next_lem c 4 (omega arith) in
      let long : n ≤ length (g.inbound (g.next c 4).1) =
        rw skip (omega (arith, length-drop 4 (g.inbound c))) in
      let (got, left) = g.next_lem (g.next c 4).1 n long in
      (
        ap (decode_taken g p) (got ∙ ap (take n) skip) ∙ decode_taken-paired _,
        left ∙ ap (drop n) skip,
      )

  -- On every buffer ZeroCopyDecode does one of two things: where the buffer begins with a whole
  -- frame of at least ten bytes, it takes exactly that frame off and gives what DecodeInnerPayload
  -- gives for it; elsewhere it reports a short buffer and leaves the connection as it is.
  pub zero_copy_decode_lem :
      (c : C) → Decodes c (split_frame (g.inbound c)) (zero_copy_decode g p c)
  unfolding zero_copy_decode split_frame
  zero_copy_decode_lem c = elim (Bool-cases (ltb (length (g.inbound c)) 4)) [
    | inl few ↦ rw (g.buffered_lem c, few) refl
    | inr four ↦
        let len4 : length (take 4 (g.inbound c)) ≡ 4 =
          ground (arith, length-take 4 (g.inbound c)) in
        rw (g.buffered_lem c, four, g.peek_lem c 4 (ground arith), len4)
          (elim (Bool-cases (ltb (uint (take 4 (g.inbound c))) 10)) [
            | inl small ↦ rw small refl
            | inr big ↦
                elim (Bool-cases (ltb (length (g.inbound c)) (4 + uint (take 4 (g.inbound c))))) [
                  | inl part ↦ rw (big, part) refl
                  | inr whole ↦ rw (big, whole) (take_frame_lem _ c (ground arith))
                ]
          ])
  ]
