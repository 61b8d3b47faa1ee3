-- ===== src/Cluster.antt =====
-- Two nodes at work together: what one sends is what the other one reads.
pub mod Handshake
pub mod Trip
pub mod Results
use mini_ray.Base.{Result, ap, arith, length, ◌≡◌, ◌<◌, ℕ, ◌^◌, ok, List}
use mini_ray.Codec.{encode_payload, Header}
use mini_ray.Codec.Dispatch.{uri_of}
use mini_ray.External.{Proto}
use mini_ray.Messages.{Kind, Message, kind_of}
use mini_ray.Traffic.Stream.{IsSent, Packet}

-- A packet with its encoding.
abbrev pub packet_of : Header → Message → List ℕ → Packet
packet_of h m inner = record { header = h; message = m; inner = inner }

uri_of-u16 : (k : Kind) → uri_of k < 2 ^ 16
unfolding uri_of
uri_of-u16 k = grind arith

pub packet_of-IsSent :
    (p : Proto) (h : Header) (m : Message) (inner : List ℕ)
    → h.uri ≡ uri_of (kind_of m)
    → h.seq_id < 2 ^ 64
    → encode_payload p h m ≡ ok inner
    → length inner < 2 ^ 32
    → IsSent p (packet_of h m inner)
packet_of-IsSent p h m inner u small e fits = record {
  is_header = record { uri_u16 = rw u (uri_of-u16 (kind_of m)); seq_u64 = small };
  matches = u;
  encoded = e;
  fits = fits;
}

pub returned_ok : {S : Type 0} {x : Result (Unit {0}) × S} → x.0 ≡ ok tt → x ≡ (ok tt, x.1)
returned_ok {x = x} e = ap (λ r. (r, x.1)) e
