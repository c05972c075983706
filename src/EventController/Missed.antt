-- ===== src/EventController/Missed.antt =====
-- A transition of which a handler is never told (pkg/event/controller/endpoint_created.go and
-- endpoint_removed.go).
use submariner.Base.{◌≡◌, ◌≢◌, true, false, arith, str_eq_iff}
use submariner.Endpoint.{Endpoint}
use submariner.EventController.{
  HandlerState, Handler, HandlerController, handle_created_local_endpoint, handle_created_endpoint,
  handle_removed_local_endpoint, handle_removed_endpoint,
}

-- A transition can be missed. The handler fails for the endpoint that makes its node the gateway,
-- and before this event is handled again, the endpoint of another host of the cluster is removed,
-- as it is when the gateway moves. The event of the first endpoint then succeeds, and no other call
-- is made: the controller holds that the handler has been told, and `TransitionToGateway` is never
-- called.
pub transition_missed :
    {H : Type 0} (h : Handler H) (c : HandlerController H) (mine other : Endpoint) (x y z : H)
    → mine.spec.cluster_id ≡ c.cluster_id
    → other.spec.cluster_id ≡ c.cluster_id
    → mine.spec.hostname ≡ c.hostname
    → other.spec.hostname ≢ c.hostname
    → c.handler_state.was_on_gateway ≡ false
    → ((st : HandlerState) → h.local_endpoint_created mine st c.handler ≡ (false, x))
    → ((st : HandlerState) → h.local_endpoint_removed other st x ≡ (true, y))
    → ((st : HandlerState) → h.local_endpoint_created mine st y ≡ (true, z))
    → let first = handle_created_endpoint h mine 0 c in
      let second = handle_removed_endpoint h other 0 first.1 in
      let third = handle_created_endpoint h mine 1 second.1 in
      (first.0 ≡ true)
      × (second.0 ≡ false)
      × (third.0 ≡ false)
      × (third.1.handler ≡ z)
      × (third.1.handler_state.is_on_gateway ≡ true)
      × (third.1.handler_state.was_on_gateway ≡ true)
unfolding handle_created_endpoint handle_removed_endpoint handle_created_local_endpoint
    handle_removed_local_endpoint
transition_missed h c mine other x y z local local' same elsewhere was fails removes works =
    let failed = fails (record c.handler_state { is_on_gateway = true }) in
    let gone = removes (record c.handler_state { is_on_gateway = true }) in
    let done = works (record c.handler_state { is_on_gateway = true; was_on_gateway = true }) in
    ground (
      arith,
      (str_eq_iff mine.spec.hostname c.hostname).1 same,
      (str_eq_iff mine.spec.cluster_id c.cluster_id).1 local,
      (str_eq_iff other.spec.cluster_id c.cluster_id).1 local',
      str_eq_iff other.spec.hostname c.hostname,
      failed,
      gone,
      done,
    )
