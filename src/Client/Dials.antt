-- ===== src/Client/Dials.antt =====
-- A dial of an outgoing connection that succeeds, with the Establish that follows it.
use mini_ray.Base.{true, ◌%◌, ap, some, ◌∷◌, List, refl, ◌+◌, ◌≡◌, ℕ, false, ok, ◌^◌}
use mini_ray.Client.{Net, hour, dial_once, Client}
use mini_ray.Client.Loop.{inner, enter, at, entered}
use mini_ray.Client.Packets.Sent.{send_establish-open}
use mini_ray.Codec.{meta_establish, encode_payload}
use mini_ray.External.{Proto}
use mini_ray.Frame.{make_frame}
use mini_ray.Messages.{establish_req}

-- An outgoing connection after a dial and the Establish that follows it.
abbrev pub dialed : ℕ → ℕ → List ℕ → Client → Client
dialed now h body d = record d {
  raw_conn = some h;
  sub_done = some false;
  last_recv = now;
  last_sent = now;
  next_dial = now + hour;
  established = false;
  seq_id = (d.seq_id + 1) % 2 ^ 64;
  outbox = make_frame body ∷ d.outbox;
}

module _ (net : Net) (p : Proto) (mode : ℕ) where
  pub enter-open :
      (now h : ℕ) (body : List ℕ) (d : Client)
      → encode_payload p
          (record { uri = meta_establish; seq_id = (d.seq_id + 1) % 2 ^ 64 })
          (establish_req (record { addr = d.local_addr; mode = mode }))
        ≡ ok body
      → net d.id (make_frame body ∷ d.outbox) ≡ true
      → enter net p mode now h d ≡ at inner (dialed now h body d)
  unfolding enter entered dial_once
  enter-open now h body d enc taken = ap entered (
      send_establish-open net p now mode h body
        (record d {
          raw_conn = some h;
          last_recv = now;
          last_sent = now;
          next_dial = now + hour;
          sub_done = some false;
        })
        refl enc taken)
