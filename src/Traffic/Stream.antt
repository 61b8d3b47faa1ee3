-- ===== src/Traffic/Stream.antt =====
-- A stream of packets: each is handled, in order, and the incomplete frame at its end is kept.
use mini_ray.Base.{
  sym, append-nil, ap, refl, append_assoc, ◌∙◌, ok, ◌<◌, and_then, arith, Result, some, pure,
  panics, ◌++◌, suc, zero, M, blocks, ◌>>◌, All, ℕ, length, err, [], ◌^◌, ◌∷◌, List, ◌≡◌, none,
}
use mini_ray.Codec.{encode_payload, Header}
use mini_ray.Codec.Decode.{split_frame}
use mini_ray.Codec.Dispatch.{uri_of}
use mini_ray.Codec.RoundTrip.{
  split_frame-make_frame, decode_inner_payload-encode_payload, IsHeader, length-encode_payload,
}
use mini_ray.Codec.Split.{split_frame-length}
use mini_ray.External.{Proto, Reader}
use mini_ray.Frame.{make_frame}
use mini_ray.Messages.{Message, kind_of}
use mini_ray.Traffic.{Served, stay, serve, done, after_packet}
use mini_ray.Traffic.Bytes.{serve-bytes, seen, serve_bytes, after_split}

-- A packet as a sender makes it: `EncodePayload`, then `MakeFrame`.
pub record Packet : Type 0 where
  pub header : Header
  pub message : Message
  pub inner : List ℕ

pub record IsSent (p : Proto) (q : Packet) : Type 0 where
  pub is_header : IsHeader q.header
  pub matches : q.header.uri ≡ uri_of (kind_of q.message)
  pub encoded : encode_payload p q.header q.message ≡ ok q.inner
  pub fits : length q.inner < 2 ^ 32

abbrev pub stream : List Packet → List ℕ
stream [] = []
stream (q ∷ qs) = make_frame q.inner ++ stream qs

module _ {S : Type 0} (on_packet : Header → Message → M S (Unit {0})) where
  -- The handler on each packet in turn, up to the first that fails.
  abbrev pub handle_all : List Packet → M S (Unit {0})
  handle_all [] = pure tt
  handle_all (q ∷ qs) = on_packet q.header q.message >> handle_all qs

module _ {S : Type 0} (p : Proto) (on_packet : Header → Message → M S (Unit {0}))
    (rest : List ℕ) where
  after_packet-stream :
      (again : List ℕ → S → Served (List ℕ) S) (qs : List Packet) (s' : S) (end : Served (List ℕ) S)
      → ((s : S) → handle_all on_packet qs s ≡ (ok tt, s') → again (stream qs ++ rest) s ≡ end)
      → (r : Result (Unit {0}) × S) → and_then r (λ _. handle_all on_packet qs) ≡ (ok tt, s')
      → after_packet again (stream qs ++ rest) r ≡ end
  after_packet-stream again qs s' end h (ok u, s) e = h s e
  after_packet-stream again qs s' end h (err x, s) e = absurd (ground arith)
  after_packet-stream again qs s' end h (panics x, s) e = absurd (ground arith)
  after_packet-stream again qs s' end h (blocks, s) e = absurd (ground arith)

  split-stream :
      (q : Packet) (qs : List Packet)
      → IsSent p q
      → split_frame (stream (q ∷ qs) ++ rest) ≡ some (q.inner, stream qs ++ rest)
  split-stream q qs v = rw (append_assoc (make_frame q.inner) (stream qs) rest) (
      split_frame-make_frame q.inner (stream qs ++ rest)
        (length-encode_payload p q.header q.message q.inner v.encoded) v.fits)

  serve_bytes-stream :
      (qs : List Packet) (k : ℕ) (s s' : S)
      → All (IsSent p) qs
      → split_frame rest ≡ none
      → length (stream qs ++ rest) < k
      → handle_all on_packet qs s ≡ (ok tt, s')
      → serve_bytes p on_packet k (stream qs ++ rest) s ≡ done stay rest s'
  unfolding serve_bytes
  serve_bytes-stream qs zero s s' v short room e = absurd (omega arith)
  serve_bytes-stream [] (suc k) s s' v short room e = rw (short, after_split) (ground arith)
  serve_bytes-stream (q ∷ qs) (suc k) s s' (sent, v) short room e =
      let cut = split-stream q qs sent in
      let (ten, size) =
        split_frame-length (stream (q ∷ qs) ++ rest) q.inner (stream qs ++ rest) cut in
      rw
        (
          cut,
          after_split,
          decode_inner_payload-encode_payload p q.header q.message q.inner sent.is_header
              sent.matches sent.encoded,
        )
        (after_packet-stream (serve_bytes p on_packet k) qs s' (done stay rest s')
          (λ s1. serve_bytes-stream qs k s1 s' v short (omega arith))
          (on_packet q.header q.message s) e)

module _ {C S : Type 0} (g : Reader C) (p : Proto)
    (on_packet : Header → Message → M S (Unit {0})) where
  -- If the buffer holds packets that were made by EncodePayload and MakeFrame, followed by bytes
  -- without a whole frame, and the handler takes every packet in turn without an error, then a call
  -- of OnTraffic ends with gnet.None, in the state after the last packet, with exactly those last
  -- bytes left over.
  pub serve-stream :
      (c : C) (qs : List Packet) (rest : List ℕ) (s s' : S)
      → All (IsSent p) qs
      → g.inbound c ≡ stream qs ++ rest
      → split_frame rest ≡ none
      → handle_all on_packet qs s ≡ (ok tt, s')
      → seen g.inbound (serve g p on_packet c s) ≡ done stay rest s'
  serve-stream c qs rest s s' v whole short e =
      serve-bytes g p on_packet c s
      ∙ rw whole (serve_bytes-stream p on_packet rest qs _ s s' v short (omega arith) e)

  -- A buffer of one packet.
  pub serve-one :
      (c : C) (q : Packet) (s s' : S)
      → IsSent p q
      → g.inbound c ≡ make_frame q.inner
      → on_packet q.header q.message s ≡ (ok tt, s')
      → seen g.inbound (serve g p on_packet c s) ≡ done stay [] s'
  serve-one c q s s' v whole e =
      serve-stream c (q ∷ []) [] s s' (v, tt)
        (whole
          ∙ sym (append-nil (make_frame q.inner))
          ∙ sym (append-nil (make_frame q.inner ++ [])))
        (unfold split_frame in refl) (ap (λ r. and_then r (λ _. pure tt)) e)

  -- The first packet of a buffer is handed to the handler, and the loop goes on behind it.
  pub serve-first :
      (c : C) (q : Packet) (rest : List ℕ) (s : S)
      → IsSent p q
      → g.inbound c ≡ make_frame q.inner ++ rest
      → seen g.inbound (serve g p on_packet c s)
        ≡ after_packet
            (serve_bytes p on_packet (length (g.inbound c)))
            rest
            (on_packet q.header q.message s)
  unfolding serve_bytes
  serve-first c q rest s v whole =
      let cut : split_frame (g.inbound c) ≡ some (q.inner, rest) =
        ap split_frame whole
        ∙ split_frame-make_frame q.inner rest
            (length-encode_payload p q.header q.message q.inner v.encoded) v.fits in
      serve-bytes g p on_packet c s
      ∙ rw
          (
            cut,
            after_split,
            decode_inner_payload-encode_payload p q.header q.message q.inner v.is_header v.matches
                v.encoded,
          )
          refl
