-- ===== src/Link.antt =====
-- readFrame and readLoop of core/driver/connection.go (readFrame also of core/worker, core/gcs and
-- core/scheduler). A net.Conn is the list of the bytes that it delivers before it fails.
pub mod Stream
pub mod Write
use mini_ray.Base.{
  none, suc, blocks, Result, ◌^◌, if◌then◌else◌, [], Fault, read_failed, err, ltb, take, List, M,
  length, ok, some, drop, zero, Option, ◌*◌, panics, frame_too_large, ℕ,
}
use mini_ray.Client.Packets.{on_packet}
use mini_ray.Codec.{Header, decode_inner_payload}
use mini_ray.Codec.Endian.{uint}
use mini_ray.External.{Proto}
use mini_ray.Messages.{Message}

abbrev pub max_frame_size : ℕ
max_frame_size = 16 * 2 ^ 20

-- `io.ReadFull` into n bytes: all of them, or an error that leaves nothing to read.
abbrev read_full : ℕ → List ℕ → Result (List ℕ) × List ℕ
read_full n bs = if ltb (length bs) n then (err read_failed, []) else (ok (take n bs), drop n bs)

after_length : Result (List ℕ) × List ℕ → Result (List ℕ) × List ℕ
after_length (ok hdr, bs) =
    if ltb max_frame_size (uint hdr) then (err frame_too_large, bs) else read_full (uint hdr) bs
after_length (r, bs) = (r, bs)

unfoldable pub read_frame : List ℕ → Result (List ℕ) × List ℕ
unfolding after_length
read_frame bs = after_length (read_full 4 bs)

-- How the loop ends: a frame cannot be read; the handler gave an error and the connection is closed;
-- a handler panics, or never returns. `out_of_fuel` is no behaviour of the code.
pub data Ended (S : Type 0) : Type 0 where
  unreadable closed : List ℕ → S → Ended S
  crashed : Fault → List ℕ → S → Ended S
  hung : List ℕ → S → Ended S
  out_of_fuel : Ended S

module _ {S : Type 0} where
  -- `if err := c.cm.OnPacket(c, hdr, msg); err != nil { _ = c.Close(); return }`
  abbrev pub after_handler : (List ℕ → S → Ended S) → List ℕ → Result (Unit {0}) × S → Ended S
  after_handler again bs (ok _, s) = again bs s
  after_handler again bs (err e, s) = closed bs s
  after_handler again bs (panics x, s) = crashed x bs s
  after_handler again bs (blocks, s) = hung bs s

module _ {S : Type 0} (p : Proto) (on_packet : Header → Message → M S (Unit {0})) where
  -- A payload that cannot be decoded is passed over.
  abbrev pub after_inner :
      (List ℕ → S → Ended S) → List ℕ → S → Option Header × Result Message → Ended S
  after_inner again bs s (some h, ok m) = after_handler again bs (on_packet h m s)
  after_inner again bs s (some h, panics x) = crashed x bs s
  after_inner again bs s (some h, blocks) = hung bs s
  after_inner again bs s (some h, err e) = again bs s
  after_inner again bs s (none, r) = again bs s

  abbrev pub after_frame : (List ℕ → S → Ended S) → S → Result (List ℕ) × List ℕ → Ended S
  after_frame again s (ok raw, bs) = after_inner again bs s (decode_inner_payload p raw)
  after_frame again s (err e, bs) = unreadable bs s
  after_frame again s (panics x, bs) = crashed x bs s
  after_frame again s (blocks, bs) = hung bs s

  unfoldable pub read_rounds : ℕ → List ℕ → S → Ended S
  read_rounds zero bs s = out_of_fuel
  read_rounds (suc fuel) bs s = after_frame (read_rounds fuel) s (read_frame bs)

  -- Every round but the last reads four bytes at least.
  unfoldable pub read_loop : List ℕ → S → Ended S
  unfolding read_rounds
  read_loop bs s = read_rounds (suc (length bs)) bs s
