-- ===== src/Client/Packets/Sent.antt =====
-- Send over an outgoing connection that is established.
use mini_ray.External.{Proto}
use mini_ray.Client.Packets.{on_packet, on_uri, handed_over, on_ack, rejection}
use mini_ray.Codec.{
  meta_establish, encode_payload, Header, meta_establish_ack, ray_assign_task_resp,
}
use mini_ray.Messages.{establish_req, Message, establish_response}
use mini_ray.Base.{
  ◌^◌, refl, ◌%◌, false, ◌+◌, codes, ℕ, if◌then◌else◌, ◌≡◌, err, ok, write_failed, ◌∷◌, some, List,
  true, arith, Option, Bool,
}
use mini_ray.Client.{
  lift, write_raw, next_seq, send_establish, hour, async_write, send_ready, Client, send, Net,
}
use mini_ray.Frame.{make_frame}

-- A connection after a frame was handed to gnet.
abbrev pub with_frame : Client → List ℕ → Client
with_frame c frame = record c { outbox = frame ∷ c.outbox }

module _ (net : Net) where
  send_ready-open :
      (payload : List ℕ) (o : Option ℕ) (b : Bool) (h : ℕ) (c : Client)
      → o ≡ some h
      → b ≡ true
      → send_ready net payload o b c ≡ (
        if net c.id (make_frame payload ∷ c.outbox) then ok tt else err write_failed,
        with_frame c (make_frame payload),
      )
  unfolding send_ready async_write
  send_ready-open payload o b h c eo eb = rw (eo, eb) (ground arith)

  pub send-open :
      (payload : List ℕ) (h : ℕ) (c : Client)
      → c.raw_conn ≡ some h
      → c.established ≡ true
      → send net payload c ≡ (
        if net c.id (make_frame payload ∷ c.outbox) then ok tt else err write_failed,
        with_frame c (make_frame payload),
      )
  unfolding send
  send-open payload h c raw est = send_ready-open payload c.raw_conn c.established h c raw est

-- The answer to Establish that carries no error establishes the connection and is handed on.
pub on_packet_ack :
    (now seq mode : ℕ) (c : Client)
    → let h : Header = record { uri = meta_establish_ack; seq_id = seq } in
      let m = establish_response (record { mode = mode; error = codes "OK" }) in
      on_packet now h m c ≡ (
        ok (handed_over h m),
        record c { last_recv = now; next_dial = now + hour; established = true; failure = 0 },
      )
unfolding on_packet on_uri on_ack rejection
on_packet_ack now seq mode c = ground arith

-- Once the connection is established, the answer to a request is handed on.
pub on_packet_assigned :
    (now seq : ℕ) (m : Message) (c : Client)
    → c.established ≡ true
    → let h : Header = record { uri = ray_assign_task_resp; seq_id = seq } in
      on_packet now h m c
      ≡ (ok (handed_over h m), record c { last_recv = now; next_dial = now + hour })
unfolding on_packet on_uri
on_packet_assigned now seq m c est = ground arith

module _ (net : Net) (p : Proto) where
  -- Establish after a dial: it is handed to gnet under the next number.
  pub send_establish-open :
      (now mode h : ℕ) (body : List ℕ) (c : Client)
      → c.raw_conn ≡ some h
      → encode_payload p
          (record { uri = meta_establish; seq_id = (c.seq_id + 1) % 2 ^ 64 })
          (establish_req (record { addr = c.local_addr; mode = mode }))
        ≡ ok body
      → net c.id (make_frame body ∷ c.outbox) ≡ true
      → send_establish net p now mode c ≡ (
        ok tt,
        record c {
          seq_id = (c.seq_id + 1) % 2 ^ 64;
          established = false;
          outbox = make_frame body ∷ c.outbox;
          last_sent = now;
        },
      )
  unfolding send_establish lift next_seq write_raw async_write
  send_establish-open now mode h body c raw enc taken = rw (enc, raw, taken) refl
