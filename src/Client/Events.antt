-- ===== src/Client/Events.antt =====
-- What happens to an outgoing connection beside its loop: SetLocal, OnClose and Close of
-- common/client_conn.go, and OnOpen and OnClose of common/eventHandler.go. The context of a gnet
-- connection is an outgoing connection, or something else.
use mini_ray.Base.{GoString, Option, none, some}
use mini_ray.Client.{Client, notify_reconnect, stop}

unfoldable set_local : GoString → Client → Client
set_local addr c = record c { local = addr }

unfoldable closed_by_peer : Client → Client
unfolding notify_reconnect
closed_by_peer c = notify_reconnect c

unfoldable pub close : Client → Client
unfolding stop
close c = stop c

-- OnOpen of the event handler gives no bytes and gnet.None.
unfoldable opened : GoString → Option Client → Option Client
unfolding set_local
opened addr none = none
opened addr (some c) = some (set_local addr c)

unfoldable pub closed : Option Client → Option Client
unfolding closed_by_peer
closed none = none
closed (some c) = some (closed_by_peer c)
