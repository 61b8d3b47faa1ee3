-- ===== src/Driver/Dial.antt =====
-- Loop of core/driver/connection.go: the driver dials, sends Establish, waits for the notice of an
-- answer, and then spins as long as the connection is established. Beside it, packets are handled
-- and ticks happen. Dialing, keeping the net.Conn and sending Establish are one step.
use mini_ray.Base.{
  refl, arith, ap, some, false, List, true, modify, GoString, ℕ, ◌≡◌, nat_eq, bytes_eq,
}
use mini_ray.Driver.{Driver, on_packet, on_manager}
use mini_ray.Driver.Node.{greet, on_tick}
use mini_ray.Base.Maps.{lookup-insert_self, lookup}
use mini_ray.Client.{Net}
use mini_ray.Codec.{Header}
use mini_ray.External.{Proto}
use mini_ray.Peers.Ticks.{take_notice, tick_all, is_established}
use mini_ray.Messages.{Message}
use mini_ray.Peers.{take_seq, inbound, outbound, Connection, with_peer, Peer}
use mini_ray.Peers.Ticks.{loop_round}
use mini_ray.Driver.Established.{Up, on_manager-Up, tick_all-Up, on_packet-Up}

-- Where the loop is.
pub data Dialing : Type 0 where
  to_dial awaiting spinning : Dialing

pub data Dialer : Type 0 where
  at : Dialing → Driver → Dialer

-- `c.netC = nc`
abbrev with_net_conn : Peer → Peer
with_net_conn (inbound c) = inbound (record c { net_c = true })
with_net_conn (outbound c) = outbound c

module _ (net : Net) (p : Proto) (advertise : GoString) (k : ℕ) where
  -- A dial that gives a net.Conn; what Establish comes to is logged only.
  unfoldable pub dialed : Driver → Driver
  unfolding on_manager
  dialed d = (greet net p advertise k (on_manager (with_peer k (modify with_net_conn)) d).1).1

  -- `<-c.establishChan`, where there is something on it.
  unfoldable pub noticed : Driver → Driver
  noticed d = record d { manager = loop_round k d.manager }

  pub data Step : Dialer → Dialer → Type 0 where
    dial_fails : (d : Driver) → Step (at to_dial d) (at to_dial d)
    dials : (d : Driver) → Step (at to_dial d) (at awaiting (dialed d))
    gives_up : (d : Driver) → Step (at awaiting d) (at to_dial d)
    notices :
        (d : Driver) (c : Connection)
        → lookup k d.manager.heap ≡ some (inbound c)
        → c.establish_chan ≡ true
        → Step (at awaiting d) (at spinning (noticed d))
    leaves :
        (d : Driver) (c : Connection)
        → lookup k d.manager.heap ≡ some (inbound c)
        → c.established ≡ false
        → Step (at spinning d) (at to_dial d)
    -- Beside the loop, over any connection of the driver.
    receives :
        {ph : Dialing} (d : Driver) (conn : ℕ) (h : Header) (m : Message)
        → Step (at ph d) (at ph (on_packet net p conn h m d).1)
    ticks :
        {ph : Dialing} (d : Driver) (order : List ℕ)
        → Step (at ph d) (at ph (on_tick net p order d).1)

  pub data Reach (l : Dialer) : Dialer → Type 0 where
    here : Reach l l
    next : {m n : Dialer} → Reach l m → Step m n → Reach l n

-- While the loop spins, its connection is established.
abbrev Held : ℕ → Dialer → Type 0
Held k (at to_dial d) = ⊥
Held k (at awaiting d) = ⊥
Held k (at spinning d) = Up k d.manager

module _ (net : Net) (p : Proto) (advertise : GoString) (k : ℕ) where
  beside :
      (ph : Dialing) (d d' : Driver)
      → (Up k d.manager → Up k d'.manager)
      → Held k (at ph d)
      → Held k (at ph d')
  beside to_dial d d' h v = absurd v
  beside awaiting d d' h v = absurd v
  beside spinning d d' h v = h v

  Step-Held : {l m : Dialer} → Step net p advertise k l m → Held k l → Held k m
  unfolding on_tick is_established
  Step-Held (dial_fails d) v = absurd v
  Step-Held (dials d) v = absurd v
  Step-Held (gives_up d) v = absurd v
  Step-Held (notices d c e n) v = absurd v
  Step-Held (leaves d c e down) (c', e', up) =
      let same : inbound c ≡ inbound c' = cc in
      let alike : is_established (inbound c) ≡ is_established (inbound c') =
        ap is_established same in
      absurd (ground (arith, down, up, alike))
  Step-Held (receives {ph} d conn h m) v =
      beside ph d (on_packet net p conn h m d).1 (on_packet-Up net p k conn h m d) v
  Step-Held (ticks {ph} d order) v =
      beside ph d (on_tick net p order d).1
        (λ w.
          on_manager-Up net p k (tick_all net p take_seq order) d
            (tick_all-Up net p k order d.manager w))
        v

  Reach-Held : (l m : Dialer) → Held k l → Reach net p advertise k l m → Held k m
  Reach-Held l m v here = v
  Reach-Held l m v (next {m = n} r s) = Step-Held s (Reach-Held l n v r)

  spun : (l : Dialer) → Held k l → (d : Driver) × (l ≡ at spinning d) × Up k d.manager
  spun (at to_dial d) v = absurd v
  spun (at awaiting d) v = absurd v
  spun (at spinning d) v = (d, refl, v)

  noticed-Up :
      (d : Driver) (c : Connection)
      → lookup k d.manager.heap ≡ some (inbound c)
      → c.establish_chan ≡ true
      → Up k (noticed net p advertise k d).manager
  unfolding noticed loop_round take_notice
  noticed-Up d c e n =
      rw (e, n)
        (
          record c { establish_chan = false; established = true },
          lookup-insert_self k _ d.manager.heap,
          refl,
        )

  -- Once the loop of a connection that the driver dials has taken the notice of an answer to
  -- Establish, then whatever packets it handles and ticks happen, over any connections, it stays in
  -- its innermost loop, and the connection established: it never dials again.
  pub Reach-spinning :
      (d : Driver) (c : Connection) (l : Dialer)
      → lookup k d.manager.heap ≡ some (inbound c)
      → c.establish_chan ≡ true
      → Reach net p advertise k (at spinning (noticed net p advertise k d)) l
      → (d' : Driver) × (l ≡ at spinning d') × Up k d'.manager
  Reach-spinning d c l e n r =
      spun l (Reach-Held (at spinning (noticed net p advertise k d)) l (noticed-Up d c e n) r)
