-- ===== src/Client/Packets/Passes.antt =====
-- OnPacket of an outgoing connection hands to the node the packet that it got.
use mini_ray.Base.{
  ◌≡◌, ℕ, err, ◌&&◌, ◌==◌, inr, panics, Bool-cases, ok, Result, blocks, inl, not, Option-cases,
  refl, nat_eq, bytes_eq,
}
use mini_ray.Client.{Client}
use mini_ray.Client.Packets.{on_ack, handed_over, Delivery, on_uri, absorbed, rejection, on_packet}
use mini_ray.Codec.{meta_establish_ack, meta_shake_hand_resp, Header, meta_shake_hand}
use mini_ray.Gcs.Links.{beat}
use mini_ray.Messages.{Message}

abbrev pub Passes : Header → Message → Result Delivery → Type 0
Passes h m (ok absorbed) = Unit {0}
Passes h m (ok (handed_over k n)) = (h ≡ k) × (m ≡ n)
Passes h m (err e) = Unit {0}
Passes h m (panics x) = ⊥
Passes h m blocks = ⊥

pub on_packet-Passes :
    (now : ℕ) (h : Header) (m : Message) (c : Client) → Passes h m (on_packet now h m c).0
unfolding on_packet on_uri on_ack
on_packet-Passes now h m c =
    elim (Bool-cases (not c.established && not (h.uri == meta_establish_ack))) [
      | inl early ↦ rw early tt
      | inr heard ↦ elim (Bool-cases (h.uri == meta_establish_ack)) [
        | inl ack ↦ elim (Option-cases (rejection m)) [
          | inl accepted ↦ rw (heard, ack, accepted) (refl, refl)
          | inr (text, rejected) ↦ rw (heard, ack, rejected) tt
        ]
        | inr other ↦ elim (Bool-cases (h.uri == meta_shake_hand)) [
          | inl beat ↦ rw (heard, other, beat) tt
          | inr more ↦ elim (Bool-cases (h.uri == meta_shake_hand_resp)) [
            | inl beat ↦ rw (heard, other, more, beat) tt
            | inr packet ↦ rw (heard, other, more, packet) (refl, refl)
          ]
        ]
      ]
    ]
