-- ===== src/Client/Packets.antt =====
-- OnPacket of common/client_conn.go, up to the call of the node's HandlePacket.
pub mod Sent
pub mod Passes
use mini_ray.Base.{
  inl, Option-cases, inr, err, ◌≢◌, not, establish_rejected, [], ◌≡◌, ℕ, codes, ok, ◌==◌, Option,
  none, false, M, ◌&&◌, true, if◌then◌else◌, arith, ◌+◌, GoString, some, nat_eq, bytes_eq,
}
use mini_ray.Client.{hour, Client, notify_reconnect}
use mini_ray.Codec.{meta_shake_hand_resp, meta_shake_hand, meta_establish_ack, Header}
use mini_ray.Messages.{Message, establish_response}

-- What OnPacket does with a packet: it keeps it to itself, or calls `c.handler.HandlePacket`.
pub data Delivery : Type 0 where
  absorbed : Delivery
  handed_over : Header → Message → Delivery

abbrev pub response_ok : GoString
response_ok = codes "OK"

-- `resp, _ := msg.(*pb.EstablishResponse)`, and the test for an error text in it.
unfoldable pub rejection : Message → Option GoString
rejection (establish_response r) =
    if r.error == [] then none else if r.error == response_ok then none else some r.error
rejection _ = none

pub on_ack : Header → Message → Option GoString → M Client Delivery
unfolding notify_reconnect
on_ack h msg (some text) c = (err (establish_rejected text), notify_reconnect c)
on_ack h msg none c = (ok (handed_over h msg), record c { established = true; failure = 0 })

pub on_uri : Header → Message → M Client Delivery
unfolding on_ack
on_uri h msg c =
    if h.uri == meta_establish_ack
    then on_ack h msg (rejection msg) c
    else if h.uri == meta_shake_hand
    then (ok absorbed, c)
    else if h.uri == meta_shake_hand_resp
    then (ok absorbed, c)
    else (ok (handed_over h msg), c)

-- Every packet counts as a sign of life; before the handshake all but the answer to it are dropped.
unfoldable pub on_packet : ℕ → Header → Message → M Client Delivery
unfolding on_uri
on_packet now h msg c =
    let c' = record c { last_recv = now; next_dial = now + hour } in
    if not c.established && not (h.uri == meta_establish_ack)
    then (ok absorbed, c')
    else on_uri h msg c'

-- On a connection that is not established, a packet that is no EstablishAck is not handed to the
-- node and changes only the time of the last receipt and the time to dial again.
on_packet_before_ack :
    (now : ℕ) (h : Header) (msg : Message) (c : Client)
    → c.established ≡ false
    → h.uri ≢ meta_establish_ack
    → ((on_packet now h msg c).0 ≡ ok absorbed)
      × ((on_packet now h msg c).1 ≡ record c { last_recv = now; next_dial = now + hour })
unfolding on_packet
on_packet_before_ack now h msg c e ne = ground arith

-- If OnPacket turns a connection that is not established into an established one, the packet was an
-- EstablishAck without a rejection, and the count of failures is 0 afterwards.
pub on_packet_establishes :
    (now : ℕ) (h : Header) (msg : Message) (c : Client)
    → c.established ≡ false
    → (on_packet now h msg c).1.established ≡ true
    → (h.uri ≡ meta_establish_ack)
      × (rejection msg ≡ none)
      × ((on_packet now h msg c).1.failure ≡ 0)
unfolding on_packet on_uri on_ack
on_packet_establishes now h msg c e est = elim (Option-cases (rejection msg)) [
  | inl accepted ↦ ground arith
  | inr (text, rejected) ↦ absurd (ground arith)
]
