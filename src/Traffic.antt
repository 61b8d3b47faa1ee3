-- ===== src/Traffic.antt =====
-- The read loop that every node and the client run in OnTraffic (common/eventHandler.go,
-- core/*/connection_manager.go): decode a frame, hand the packet on, until a frame is not whole.
pub mod Bytes
pub mod Chunks
pub mod Stream
pub mod Runs
pub mod Ends
use mini_ray.Client.Packets.{on_packet}
use mini_ray.Base.{
  not, not, blocks, suc, true, err, M, ltb, ok, zero, Result, Error, false, Fault, if◌then◌else◌, ℕ,
  Bool, panics, short_buffer,
}
use mini_ray.Codec.{Header, zero_copy_decode}
use mini_ray.External.{Proto, Reader}
use mini_ray.Messages.{Message}

-- gnet.None, gnet.Close and gnet.Shutdown.
pub data Action : Type 0 where
  stay close shutdown : Action

-- How a call of OnTraffic ends. `crashed` and `hung` are a panic and a handler that never returns;
-- `out_of_fuel` is no behaviour of the code.
pub data Served (C S : Type 0) : Type 0 where
  done : Action → C → S → Served C S
  crashed : Fault → C → S → Served C S
  hung : C → S → Served C S
  out_of_fuel : Served C S

abbrev is_short : Error → Bool
is_short short_buffer = true
is_short _ = false

module _ {C S : Type 0} where
  -- `if err = OnPacket(...); err != nil { return gnet.Close }`
  abbrev after_packet : (C → S → Served C S) → C → Result (Unit {0}) × S → Served C S
  after_packet again c (ok _, s) = again c s
  after_packet again c (err e, s) = done close c s
  after_packet again c (panics x, s) = crashed x c s
  after_packet again c (blocks, s) = hung c s

  abbrev after_decode :
      (Header → Message → M S (Unit {0}))
      → (C → S → Served C S)
      → S
      → Result (Header × Message) × C
      → Served C S
  after_decode on_packet again s (ok (h, m), c) = after_packet again c (on_packet h m s)
  after_decode on_packet again s (err e, c) = done (if is_short e then stay else close) c s
  after_decode on_packet again s (panics x, c) = crashed x c s
  after_decode on_packet again s (blocks, c) = hung c s

module _ {C S : Type 0} (g : Reader C) (p : Proto)
    (on_packet : Header → Message → M S (Unit {0})) where
  -- `for c.InboundBuffered() > 0 { ... }`
  traffic_loop : ℕ → C → S → Served C S
  traffic_loop zero c s = out_of_fuel
  traffic_loop (suc fuel) c s =
      let step = after_decode on_packet (traffic_loop fuel) s (zero_copy_decode g p c) in
      if ltb 0 (g.inbound_buffered c) then step else done stay c s

  -- Every round but the last takes a frame, so there are fewer rounds than buffered bytes and one.
  unfoldable pub serve : C → S → Served C S
  unfolding traffic_loop
  serve c s = traffic_loop (suc (g.inbound_buffered c)) c s

  -- The guards of OnTraffic: a node that is not started shuts down, and a connection without its
  -- object as context is closed.
  unfoldable pub on_traffic : Bool → Bool → C → S → Served C S
  on_traffic started known c s =
      if not started then done shutdown c s else if not known then done close c s else serve c s
