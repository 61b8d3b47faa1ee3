-- ===== src/Link/Stream.antt =====
-- What readLoop does with a stream of frames, and that it ends.
use mini_ray.Base.{
  ◌∙◌, arith, Bool-cases, Result, append_assoc, ◌≢◌, ℕ, and_then, ok, ◌≡◌, Option, inl, zero, take,
  length-drop, ◌≤◌, some, ap, blocks, length-append, drop-append_length, M, refl, inr, ltb, none,
  false, panics, err, true, ◌∷◌, take-append_length, ◌++◌, suc, ◌+◌, length, drop, ◌<◌, All, [],
  List, subst,
}
use mini_ray.Link.{
  after_length, after_inner, after_frame, unreadable, read_rounds, max_frame_size, read_frame,
  read_loop, after_handler, Ended, out_of_fuel,
}
use mini_ray.Codec.{decode_inner_payload, Header}
use mini_ray.Codec.Endian.{uint, uint-put_uint, put_uint}
use mini_ray.Codec.RoundTrip.{decode_inner_payload-encode_payload, length_field}
use mini_ray.External.{Proto}
use mini_ray.Frame.{make_frame}
use mini_ray.Messages.{Message}
use mini_ray.Traffic.Stream.{stream, IsSent, handle_all, Packet}

-- A frame that was read took four bytes at least off the stream.
abbrev Shorter : List ℕ → Result (List ℕ) × List ℕ → Type 0
Shorter bs (ok raw, rest) = 4 + length rest ≤ length bs
Shorter bs (err e, rest) = Unit {0}
Shorter bs (panics x, rest) = Unit {0}
Shorter bs (blocks, rest) = Unit {0}

read_frame-Shorter : (bs : List ℕ) → Shorter bs (read_frame bs)
unfolding read_frame after_length
read_frame-Shorter bs = elim (Bool-cases (ltb (length bs) 4)) [
  | inl few ↦ rw few tt
  | inr four ↦ elim (Bool-cases (ltb max_frame_size (uint (take 4 bs)))) [
    | inl big ↦ rw (four, big) tt
    | inr small ↦ elim (Bool-cases (ltb (length (drop 4 bs)) (uint (take 4 bs)))) [
      | inl part ↦ rw (four, small, part) tt
      | inr whole ↦
          let left = length-drop (uint (take 4 bs)) (drop 4 bs) in
          rw (four, small, whole) (ground (arith, left, length-drop 4 bs))
    ]
  ]
]

read_frame-make_frame :
    (inner rest : List ℕ)
    → length inner ≤ max_frame_size
    → read_frame (make_frame inner ++ rest) ≡ (ok inner, rest)
unfolding read_frame after_length make_frame
read_frame-make_frame inner rest fits =
    let n = length inner in
    let (t, d, l) = length_field n (inner ++ rest) in
    let u : uint (put_uint 4 n) ≡ n = uint-put_uint 4 n ∙ omega arith in
    let la : length (inner ++ rest) ≡ n + length rest = length-append inner rest in
    let few : ltb (4 + (n + length rest)) 4 ≡ false = ground arith in
    let small : ltb max_frame_size n ≡ false = ground arith in
    let part : ltb (n + length rest) n ≡ false = ground arith in
    rw
      (
        append_assoc (put_uint 4 n) inner rest,
        l,
        la,
        few,
        t,
        d,
        u,
        small,
        la,
        part,
        take-append_length inner rest n refl,
        drop-append_length inner rest n refl,
      )
      refl

module _ {S : Type 0} (p : Proto) (on_packet : Header → Message → M S (Unit {0})) where
  after_handler-ends :
      (again : List ℕ → S → Ended S) (bs : List ℕ)
      → ((s : S) → again bs s ≢ out_of_fuel)
      → (r : Result (Unit {0}) × S) → after_handler again bs r ≢ out_of_fuel
  after_handler-ends again bs h (ok u, s) = h s
  after_handler-ends again bs h (err e, s) = λ x. cc
  after_handler-ends again bs h (panics y, s) = λ x. cc
  after_handler-ends again bs h (blocks, s) = λ x. cc

  after_inner-ends :
      (again : List ℕ → S → Ended S) (bs : List ℕ) (s : S)
      → ((s : S) → again bs s ≢ out_of_fuel)
      → (r : Option Header × Result Message) → after_inner p on_packet again bs s r ≢ out_of_fuel
  after_inner-ends again bs s h (some hd, ok m) = after_handler-ends again bs h (on_packet hd m s)
  after_inner-ends again bs s h (some hd, panics y) = λ x. cc
  after_inner-ends again bs s h (some hd, blocks) = λ x. cc
  after_inner-ends again bs s h (some hd, err e) = h s
  after_inner-ends again bs s h (none, r) = h s

  after_frame-ends :
      (again : List ℕ → S → Ended S) (bs : List ℕ) (s : S) (r : Result (List ℕ) × List ℕ)
      → Shorter bs r
      → ((rest : List ℕ) (s : S) → length rest < length bs → again rest s ≢ out_of_fuel)
      → after_frame p on_packet again s r ≢ out_of_fuel
  after_frame-ends again bs s (ok raw, rest) short h =
      after_inner-ends again rest s (λ s'. h rest s' (omega arith)) (decode_inner_payload p raw)
  after_frame-ends again bs s (err e, rest) short h = λ x. cc
  after_frame-ends again bs s (panics y, rest) short h = λ x. cc
  after_frame-ends again bs s (blocks, rest) short h = λ x. cc

  read_rounds-ends :
      (k : ℕ) (bs : List ℕ) (s : S) → length bs < k → read_rounds p on_packet k bs s ≢ out_of_fuel
  unfolding read_rounds
  read_rounds-ends zero bs s room = absurd (omega arith)
  read_rounds-ends (suc k) bs s room =
      after_frame-ends (read_rounds p on_packet k) bs s (read_frame bs) (read_frame-Shorter bs)
        (λ rest s' less. read_rounds-ends k rest s' (omega arith))

  -- readLoop ends on every stream that ends, and for every handler: the fuel, one more than the
  -- bytes of the stream, is never used up.
  pub read_loop-ne-out_of_fuel : (bs : List ℕ) (s : S) → read_loop p on_packet bs s ≢ out_of_fuel
  unfolding read_loop
  read_loop-ne-out_of_fuel bs s = read_rounds-ends (suc (length bs)) bs s (omega arith)

  module _ (rest : List ℕ) where
    after_handler-stream :
        (again : List ℕ → S → Ended S) (qs : List Packet) (s' : S) (end : Ended S)
        → ((s : S) → handle_all on_packet qs s ≡ (ok tt, s') → again (stream qs ++ rest) s ≡ end)
        → (r : Result (Unit {0}) × S) → and_then r (λ _. handle_all on_packet qs) ≡ (ok tt, s')
        → after_handler again (stream qs ++ rest) r ≡ end
    after_handler-stream again qs s' end h (ok u, s) e = h s e
    after_handler-stream again qs s' end h (err x, s) e = absurd (ground arith)
    after_handler-stream again qs s' end h (panics x, s) e = absurd (ground arith)
    after_handler-stream again qs s' end h (blocks, s) e = absurd (ground arith)

    read_rounds-stream :
        (qs : List Packet) (k : ℕ) (s s' : S)
        → All (IsSent p) qs
        → All (λ q. length q.inner ≤ max_frame_size) qs
        → length rest < 4
        → length (stream qs ++ rest) < k
        → handle_all on_packet qs s ≡ (ok tt, s')
        → read_rounds p on_packet k (stream qs ++ rest) s ≡ unreadable [] s'
    unfolding read_rounds
    read_rounds-stream qs zero s s' v fit short room e = absurd (omega arith)
    read_rounds-stream [] (suc k) s s' v fit short room e =
        let few : ltb (length rest) 4 ≡ true = ground arith in
        unfold read_frame after_length in rw few (ground arith)
    read_rounds-stream (q ∷ qs) (suc k) s s' (sent, v) (fits, fit) short room e =
        let cut : read_frame (stream (q ∷ qs) ++ rest) ≡ (ok q.inner, stream qs ++ rest) =
          ap read_frame (append_assoc (make_frame q.inner) (stream qs) rest)
          ∙ read_frame-make_frame q.inner (stream qs ++ rest) fits in
        let less : 4 + length (stream qs ++ rest) ≤ length (stream (q ∷ qs) ++ rest) =
          subst (Shorter (stream (q ∷ qs) ++ rest)) cut
            (read_frame-Shorter (stream (q ∷ qs) ++ rest)) in
        rw
          (
            cut,
            decode_inner_payload-encode_payload p q.header q.message q.inner sent.is_header
                sent.matches sent.encoded,
          )
          (after_handler-stream (read_rounds p on_packet k) qs s' (unreadable [] s')
            (λ s1. read_rounds-stream qs k s1 s' v fit short (omega arith))
            (on_packet q.header q.message s) e)

  -- If a net.Conn delivers the frames of packets that were made by EncodePayload and MakeFrame,
  -- none of them above the largest frame size, and then at most three bytes more, and the handler
  -- takes every packet in turn without an error, then readLoop ends for want of a frame, in the
  -- state after the last packet, and has read everything.
  pub read_loop-stream :
      (qs : List Packet) (rest : List ℕ) (s s' : S)
      → All (IsSent p) qs
      → All (λ q. length q.inner ≤ max_frame_size) qs
      → length rest < 4
      → handle_all on_packet qs s ≡ (ok tt, s')
      → read_loop p on_packet (stream qs ++ rest) s ≡ unreadable [] s'
  unfolding read_loop
  read_loop-stream qs rest s s' v fit short e =
      read_rounds-stream rest qs (suc (length (stream qs ++ rest))) s s' v fit short (omega arith) e
