-- ===== src/Frame.antt =====
-- common/rpc_conn.go: the outer length frame.
use mini_ray.External.{Reader}
use mini_ray.Base.{some, none, ℕ, ◌+◌, ltb, ◌++◌, length, if◌then◌else◌, Option, List}
use mini_ray.Codec.Endian.{put_uint, uint}

-- `uint32(len(payload))` keeps the low 32 bits of the length.
unfoldable pub make_frame : List ℕ → List ℕ
make_frame payload = put_uint 4 (length payload) ++ payload

module _ {C : Type 0} (g : Reader C) where
  -- One frame, with no bound on its length; `none` where it is not all there.
  unfoldable read_frame_from_gnet : C → Option (List ℕ) × C
  read_frame_from_gnet c =
      let hdr = g.peek c 4 in
      let n = uint hdr in
      if ltb (g.inbound_buffered c) 4
      then (none, c)
      else if ltb (length hdr) 4
      then (none, c)
      else if ltb (g.inbound_buffered c) (4 + n)
      then (none, c)
      else let (payload, c') = g.next (g.next c 4).1 n in (some payload, c')
