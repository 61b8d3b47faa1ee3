-- ===== src/External.antt =====
-- What the program takes from packages that are not in the repository, as interfaces: the protobuf
-- runtime, and gnet's view of a connection's inbound buffer.
use mini_ray.Base.{
  ◌++◌, false, ◌<◌, ◌≢◌, Bool, [], ℕ, ◌≤◌, ◌≡◌, Option, some, List, length, take, drop,
}
use mini_ray.Messages.{Message, Kind, kind_of}

-- `proto.Marshal` and `proto.Unmarshal`; `none` is an error. The law is the documented round trip.
pub record Proto : Type 0 where
  pub marshal : Message → Option (List ℕ)
  pub unmarshal : Kind → List ℕ → Option Message
  pub unmarshal-marshal :
      (m : Message) (b : List ℕ) → marshal m ≡ some b → unmarshal (kind_of m) b ≡ some m
  pub unmarshal-kind :
      (k : Kind) (b : List ℕ) (m : Message) → unmarshal k b ≡ some m → kind_of m ≡ k

-- A `gnet.Conn` as far as it is read from. `inbound` is the buffered input, which the laws speak of:
-- `Peek(n)` looks at the first n bytes and `Next(n)` takes them, where so many are buffered.
pub record Reader (C : Type 0) : Type 0 where
  pub inbound : C → List ℕ
  pub inbound_buffered : C → ℕ
  pub peek : C → ℕ → List ℕ
  pub next : C → ℕ → List ℕ × C
  pub buffered_lem : (c : C) → inbound_buffered c ≡ length (inbound c)
  pub peek_lem : (c : C) (n : ℕ) → n ≤ length (inbound c) → peek c n ≡ take n (inbound c)
  pub next_lem :
      (c : C) (n : ℕ)
      → n ≤ length (inbound c)
      → ((next c n).0 ≡ take n (inbound c)) × (inbound (next c n).1 ≡ drop n (inbound c))

-- The outbound side of a net.Conn: `Write` gives the number of bytes that it wrote, and whether there
-- is an error. `written` is all that was ever written, which the laws of io.Writer speak of.
pub record Writer (W : Type 0) : Type 0 where
  pub written : W → List ℕ
  pub write : W → List ℕ → ℕ × Bool × W
  pub count_lem : (w : W) (b : List ℕ) → (write w b).0 ≤ length b
  pub written_lem : (w : W) (b : List ℕ) → written (write w b).2 ≡ written w ++ take (write w b).0 b
  pub progress_lem : (w : W) (b : List ℕ) → b ≢ [] → (write w b).1 ≡ false → 0 < (write w b).0
