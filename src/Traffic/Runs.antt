-- ===== src/Traffic/Runs.antt =====
-- What a call of OnTraffic does, as a relation between buffered bytes, the state and the end of the
-- call. It is stated over whole frames and the results of DecodeInnerPayload and OnPacket.
use mini_ray.Base.{
  ℕ, List, M, Result, ok, err, panics, blocks, some, none, ◌≡◌, Option, Fault, Error, length, suc,
  zero, ◌<◌, refl, arith, sym, subst,
}
use mini_ray.Codec.{Header, decode_inner_payload}
use mini_ray.Codec.Decode.{split_frame, paired}
use mini_ray.Codec.Split.{split_frame-length, paired-IsAnswer, refused, IsAnswer}
use mini_ray.External.{Proto, Reader}
use mini_ray.Messages.{Message}
use mini_ray.Traffic.{Served, serve, done, hung, crashed, stay, close, after_packet, after_decode}
use mini_ray.Traffic.Bytes.{seen, serve-bytes, serve_bytes, after_split}
use mini_ray.Traffic.Chunks.{not_short}

module _ {S : Type 0} (p : Proto) (on_packet : Header → Message → M S (Unit {0})) where
  -- The first frame of the buffer holds a payload, and this is what follows it.
  abbrev pub Frames : List ℕ → List ℕ → List ℕ → Type 0
  Frames bs payload rest = split_frame bs ≡ some (payload, rest)

  -- The payload is this packet.
  abbrev pub Holds : List ℕ → Header → Message → Type 0
  Holds payload h m = decode_inner_payload p payload ≡ (some h, ok m)

  pub data Runs : List ℕ → S → Served (List ℕ) S → Type 0 where
    -- Without a whole frame the call is over, and the connection stays.
    keeps_bytes : (bs : List ℕ) (s : S) → split_frame bs ≡ none → Runs bs s (done stay bs s)
    -- A payload that is no packet closes the connection.
    drops_payload :
        (bs payload rest : List ℕ) (o : Option Header) (e : Error) (s : S)
        → Frames bs payload rest
        → decode_inner_payload p payload ≡ (o, err e)
        → Runs bs s (done close rest s)
    -- A packet that OnPacket takes is followed by the rest of the buffer.
    goes_on :
        (bs payload rest : List ℕ) (h : Header) (m : Message) (s s' : S) (r : Served (List ℕ) S)
        → Frames bs payload rest
        → Holds payload h m
        → on_packet h m s ≡ (ok tt, s')
        → Runs rest s' r
        → Runs bs s r
    -- An error of OnPacket closes the connection, with the rest of the buffer left over.
    closes_on_error :
        (bs payload rest : List ℕ) (h : Header) (m : Message) (s s' : S) (e : Error)
        → Frames bs payload rest
        → Holds payload h m
        → on_packet h m s ≡ (err e, s')
        → Runs bs s (done close rest s')
    passes_panic :
        (bs payload rest : List ℕ) (h : Header) (m : Message) (s s' : S) (x : Fault)
        → Frames bs payload rest
        → Holds payload h m
        → on_packet h m s ≡ (panics x, s')
        → Runs bs s (crashed x rest s')
    never_returns :
        (bs payload rest : List ℕ) (h : Header) (m : Message) (s s' : S)
        → Frames bs payload rest
        → Holds payload h m
        → on_packet h m s ≡ (blocks, s')
        → Runs bs s (hung rest s')

  module _ (bs payload rest : List ℕ) (s : S) (frames : Frames bs payload rest)
      (again : List ℕ → S → Served (List ℕ) S) (ih : (s' : S) → Runs rest s' (again rest s')) where
    after_packet-Runs :
        (h : Header) (m : Message) (r : Result (Unit {0}) × S)
        → Holds payload h m
        → on_packet h m s ≡ r
        → Runs bs s (after_packet again rest r)
    after_packet-Runs h m (ok tt, s') held e =
        goes_on bs payload rest h m s s' (again rest s') frames held e (ih s')
    after_packet-Runs h m (err x, s') held e =
        closes_on_error bs payload rest h m s s' x frames held e
    after_packet-Runs h m (panics x, s') held e =
        passes_panic bs payload rest h m s s' x frames held e
    after_packet-Runs h m (blocks, s') held e = never_returns bs payload rest h m s s' frames held e

    after_decode-Runs :
        (r : Option Header × Result Message)
        → decode_inner_payload p payload ≡ r
        → IsAnswer (paired r)
        → Runs bs s (after_decode on_packet again s (paired r, rest))
    after_decode-Runs (none, m) e (refused x ne) = absurd (ne refl)
    after_decode-Runs (some h, ok m) e a = after_packet-Runs h m (on_packet h m s) e refl
    after_decode-Runs (some h, err x) e (refused y ne) =
        rw (not_short x ne) (drops_payload bs payload rest (some h) x s frames e)
    after_decode-Runs (some h, panics x) e a = elim a [ ]
    after_decode-Runs (some h, blocks) e a = elim a [ ]

  after_split-Runs :
      (bs : List ℕ) (s : S) (o : Option (List ℕ × List ℕ)) (again : List ℕ → S → Served (List ℕ) S)
      → split_frame bs ≡ o
      → ((rest : List ℕ) (s' : S) → length rest < length bs → Runs rest s' (again rest s'))
      → Runs bs s (after_split p on_packet again bs s o)
  after_split-Runs bs s none again e ih = keeps_bytes bs s e
  after_split-Runs bs s (some (payload, rest)) again e ih =
      let (long, sum) = split_frame-length bs payload rest e in
      after_decode-Runs bs payload rest s e again (λ s'. ih rest s' (omega arith))
        (decode_inner_payload p payload) refl (paired-IsAnswer p payload long)

  serve_bytes-Runs :
      (fuel : ℕ) (bs : List ℕ) (s : S)
      → length bs < fuel
      → Runs bs s (serve_bytes p on_packet fuel bs s)
  unfolding serve_bytes
  serve_bytes-Runs zero bs s room = absurd (omega arith)
  serve_bytes-Runs (suc fuel) bs s room =
      after_split-Runs bs s (split_frame bs) (serve_bytes p on_packet fuel) refl
        (λ rest s' shorter. serve_bytes-Runs fuel rest s' (omega arith))

module _ {C S : Type 0} (g : Reader C) (p : Proto)
    (on_packet : Header → Message → M S (Unit {0})) where
  -- A call of OnTraffic ends as the relation says: it hands the packets of whole frames to OnPacket
  -- in their order, goes on after each that OnPacket takes, and ends, with the bytes behind the
  -- last frame that it looked at left over, where no whole frame is left, where a payload is no
  -- packet or OnPacket gives an error, both of which close the connection, and where OnPacket
  -- panics or never returns.
  pub serve-Runs :
      (c : C) (s : S) → Runs p on_packet (g.inbound c) s (seen g.inbound (serve g p on_packet c s))
  serve-Runs c s =
      subst (Runs p on_packet (g.inbound c) s) (sym (serve-bytes g p on_packet c s))
        (serve_bytes-Runs p on_packet (suc (length (g.inbound c))) (g.inbound c) s (omega arith))
