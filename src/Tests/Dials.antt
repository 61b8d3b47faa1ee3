-- ===== src/Tests/Dials.antt =====
-- The loop of a connection that the driver dials, on a concrete state.
use mini_ray.Base.{[], ◌∷◌, true, refl, ◌≡◌, nat_eq, bytes_eq}
use mini_ray.Base.Maps.{lookup}
use mini_ray.Driver.{outgoing, Driver, empty_driver}
use mini_ray.Driver.Established.{Up}
use mini_ray.Messages.{shake_hand_req}
use mini_ray.Peers.{incoming, empty_manager, inbound, Connection}
use mini_ray.Driver
use mini_ray.Driver.Dial.{next, here, receives, at, spinning, noticed, Reach-spinning}
use mini_ray.Tests.Inputs.{all_accepted, small_proto}

-- A driver whose connection has the notice of an answer.
abbrev answered_link : Connection
unfolding outgoing incoming
answered_link = record (outgoing 1 (65 ∷ [])) { net_c = true; establish_chan = true }

abbrev answered_driver : Driver
unfolding empty_driver empty_manager
answered_driver = record empty_driver {
  manager = record empty_manager { next_id = 1; heap = (1, inbound answered_link) ∷ [] };
}

Reach-spinning_example :
    (d' : Driver) × (at spinning
        (Driver.on_packet all_accepted small_proto 1
          (record { uri = 3; seq_id = 5 })
          shake_hand_req
          (noticed all_accepted small_proto [] 1 answered_driver)).1
      ≡ at spinning d')
    × Up 1 d'.manager
unfolding lookup outgoing incoming empty_driver empty_manager
Reach-spinning_example =
    Reach-spinning all_accepted small_proto [] 1 answered_driver answered_link _ refl refl (
      next here (
        receives (noticed all_accepted small_proto [] 1 answered_driver) 1
          (record { uri = 3; seq_id = 5 }) shake_hand_req))
