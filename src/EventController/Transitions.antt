-- ===== src/EventController/Transitions.antt =====
-- What a handler is told of the gateway status of its node
-- (pkg/event/controller/endpoint_created.go and endpoint_removed.go).
use mathlib.Core.Bool.{false≢true}
use submariner.Base.{
  ℕ, String, ◌≡◌, refl, sym, ap, subst, ◌⊎◌, inl, inr, Bool, true, false, not, ◌&&◌, List, [], ◌∷◌,
  arith, str_eq, ltb, if◌then◌else◌, if_both,
}
use submariner.Endpoint.{Endpoint}
use submariner.EventController.{
  Handler, HandlerController, max_requeues, new_handler_controller, called, note_gateway, settled,
  requeued, to_gateway_if_new, to_non_gateway_if_new, handle_created_local_endpoint,
  handle_created_remote_endpoint, handle_created_endpoint, handle_updated_endpoint,
  handle_removed_local_endpoint, handle_removed_remote_endpoint, handle_removed_endpoint,
  store_remote,
}

-- A call, with a transition recorded if it has no error.
abbrev recorded : {H : Type 0} → Bool → List Bool → Bool × H → Bool × (H × List Bool)
recorded v log (true, x) = (true, (x, v ∷ log))
recorded v log (false, x) = (false, (x, log))

abbrev unrecorded : {H : Type 0} → List Bool → Bool × H → Bool × (H × List Bool)
unrecorded log (ok, x) = (ok, (x, log))

-- The handler with a record of its transitions, the latest first: `true` is one to a gateway.
abbrev pub recording : {H : Type 0} → Handler H → Handler (H × List Bool)
recording h = record {
  local_endpoint_created = λ ep st x. unrecorded x.1 (h.local_endpoint_created ep st x.0);
  local_endpoint_updated = λ ep st x. unrecorded x.1 (h.local_endpoint_updated ep st x.0);
  local_endpoint_removed = λ ep st x. unrecorded x.1 (h.local_endpoint_removed ep st x.0);
  remote_endpoint_created = λ ep st x. unrecorded x.1 (h.remote_endpoint_created ep st x.0);
  remote_endpoint_updated = λ ep st x. unrecorded x.1 (h.remote_endpoint_updated ep st x.0);
  remote_endpoint_removed = λ ep st x. unrecorded x.1 (h.remote_endpoint_removed ep st x.0);
  stale_remote_endpoint_removed =
      λ ep st x. unrecorded x.1 (h.stale_remote_endpoint_removed ep st x.0);
  transition_to_gateway = λ st x. recorded true x.1 (h.transition_to_gateway st x.0);
  transition_to_non_gateway = λ ep st x. recorded false x.1 (h.transition_to_non_gateway ep st x.0);
}

-- The transitions alternate, from one to a gateway on, and the latest one is to this status.
unfoldable pub Alternates : Bool → List Bool → Type 0
Alternates now [] = now ≡ false
Alternates now (v ∷ log) = (v ≡ now) × Alternates (not v) log

module _ {H : Type 0} (h : Handler H) where
  abbrev Controller : Type 0
  Controller = HandlerController (H × List Bool)

  -- The handler has been told of the status that the controller holds.
  abbrev pub IsTold : Controller → Type 0
  IsTold c =
      (c.handler_state.was_on_gateway ≡ c.handler_state.is_on_gateway)
      × Alternates c.handler_state.is_on_gateway c.handler.1

  -- An event that is not queued again.
  pub data Step : Controller → Controller → Type 0 where
    created :
        (ep : Endpoint) (n : ℕ) {c c' : Controller}
        → handle_created_endpoint (recording h) ep n c ≡ (false, c')
        → Step c c'
    updated :
        (ep : Endpoint) (n : ℕ) {c c' : Controller}
        → handle_updated_endpoint (recording h) ep n c ≡ (false, c')
        → Step c c'
    removed :
        (ep : Endpoint) (n : ℕ) {c c' : Controller}
        → handle_removed_endpoint (recording h) ep n c ≡ (false, c')
        → Step c c'

  pub data Reach : Controller → Controller → Type 0 where
    here : {c : Controller} → Reach c c
    next : {c c' c'' : Controller} → Reach c c' → Step c' c'' → Reach c c''

  -- What an operation owes: told, unless it had an error.
  abbrev ToldIfDone : Bool × Controller → Type 0
  ToldIfDone (ok, c) = ok ≡ true → IsTold c

  -- Before the transition, where the status may have become `v`.
  abbrev IsDue : Bool → Controller → Type 0
  IsDue v c =
      Alternates c.handler_state.was_on_gateway c.handler.1
      × ((c.handler_state.was_on_gateway ≡ c.handler_state.is_on_gateway)
          ⊎ (c.handler_state.is_on_gateway ≡ v))

  note_gateway-IsDue :
      (v : Bool) (ep : Endpoint) (c : Controller) → IsTold c → IsDue v (note_gateway v ep c)
  note_gateway-IsDue v ep c t =
      let held = subst (λ b. Alternates b c.handler.1) (sym t.0) t.1 in
      if_both (IsDue v) (str_eq ep.spec.hostname c.hostname) _ _ (λ _. (held, inr refl))
        (λ _. (held, inl t.0))

  -- A transition that was made settles the status.
  settled-recorded :
      (v : Bool) (c : Controller) (r : Bool × H)
      → c.handler_state.is_on_gateway ≡ v
      → Alternates (not v) c.handler.1
      → let p = recorded v c.handler.1 r in ToldIfDone (settled (p.0, record c { handler = p.1 }))
  unfolding Alternates
  settled-recorded v c (true, x) e k =
      λ _. (refl, (sym e, subst (λ b. Alternates (not b) c.handler.1) refl k))
  settled-recorded v c (false, x) e k = λ e. absurd (false≢true e)

  settled_same :
      (c : Controller)
      → c.handler_state.was_on_gateway ≡ c.handler_state.is_on_gateway
      → Alternates c.handler_state.was_on_gateway c.handler.1
      → ToldIfDone (settled (true, c))
  settled_same c e k = λ _. (refl, subst (λ b. Alternates b c.handler.1) e k)

  to_gateway_Told :
      (r : Bool × Controller)
      → IsDue true r.1
      → ToldIfDone (settled (to_gateway_if_new (recording h) r))
  to_gateway_Told (false, c) due = λ e. absurd (false≢true e)
  to_gateway_Told (true, c) (held, cause) =
      let was = c.handler_state.was_on_gateway in
      let now = c.handler_state.is_on_gateway in
      if_both (λ r. ToldIfDone (settled r)) (not was && now) _ _
        (λ turns.
          settled-recorded true c (h.transition_to_gateway c.handler_state c.handler.0)
            (ground arith) (subst (λ b. Alternates b c.handler.1) (ground arith) held))
        (λ stays. settled_same c (elim cause [ inl e ↦ e | inr f ↦ ground arith ]) held)

  to_non_gateway_Told :
      (ep : Endpoint) (r : Bool × Controller)
      → IsDue false r.1
      → ToldIfDone (settled (to_non_gateway_if_new (recording h) ep r))
  to_non_gateway_Told ep (false, c) due = λ e. absurd (false≢true e)
  to_non_gateway_Told ep (true, c) (held, cause) =
      let was = c.handler_state.was_on_gateway in
      let now = c.handler_state.is_on_gateway in
      if_both (λ r. ToldIfDone (settled r)) (was && not now) _ _
        (λ turns.
          settled-recorded false c (h.transition_to_non_gateway ep c.handler_state c.handler.0)
            (ground arith) (subst (λ b. Alternates b c.handler.1) (ground arith) held))
        (λ stays. settled_same c (elim cause [ inl e ↦ e | inr f ↦ ground arith ]) held)

  created_local_Told :
      (ep : Endpoint) (c : Controller)
      → IsTold c
      → ToldIfDone (handle_created_local_endpoint (recording h) ep c)
  unfolding handle_created_local_endpoint
  created_local_Told ep c t =
      to_gateway_Told (called ((recording h).local_endpoint_created ep) (note_gateway true ep c))
        (note_gateway-IsDue true ep c t)

  removed_local_Told :
      (ep : Endpoint) (c : Controller)
      → IsTold c
      → ToldIfDone (handle_removed_local_endpoint (recording h) ep c)
  unfolding handle_removed_local_endpoint
  removed_local_Told ep c t =
      to_non_gateway_Told ep
        (called ((recording h).local_endpoint_removed ep) (note_gateway false ep c))
        (note_gateway-IsDue false ep c t)

  created_remote_Told :
      (ep : Endpoint) (c : Controller)
      → IsTold c
      → ToldIfDone (handle_created_remote_endpoint (recording h) ep c)
  unfolding handle_created_remote_endpoint
  created_remote_Told ep c t = if_both ToldIfDone _ _ _ (λ _ _. t) (λ _ _. t)

  removed_remote_Told :
      (ep : Endpoint) (c : Controller)
      → IsTold c
      → ToldIfDone (handle_removed_remote_endpoint (recording h) ep c)
  unfolding handle_removed_remote_endpoint
  removed_remote_Told ep c t = if_both ToldIfDone _ _ _ (λ _ _. t) (λ _ _. t)

  -- What an event that was not queued again leaves.
  abbrev ToldUnlessQueued : Bool × Controller → Type 0
  ToldUnlessQueued (again, c) = again ≡ false → IsTold c

  requeued_Told : (r : Bool × Controller) → ToldIfDone r → ToldUnlessQueued (requeued r)
  requeued_Told (true, c) k = λ _. k refl
  requeued_Told (false, c) k = λ e. absurd (false≢true (sym e))

  dispatched_Told :
      (ignored remote : Bool) (c : Controller) (r s : Bool × Controller)
      → IsTold c
      → ToldIfDone r
      → ToldIfDone s
      → ToldUnlessQueued (if ignored then (false, c) else requeued (if remote then r else s))
  dispatched_Told true remote c r s t a b = λ _. t
  dispatched_Told false true c r s t a b = requeued_Told r a
  dispatched_Told false false c r s t a b = requeued_Told s b

  IsTold-after :
      (r : Bool × Controller) (c : Controller) → r ≡ (false, c) → ToldUnlessQueued r → IsTold c
  IsTold-after r c e k = subst IsTold (ap (λ p. p.1) e) (k (ap (λ p. p.0) e))

  Step-IsTold : {c c' : Controller} → Step c c' → IsTold c → IsTold c'
  unfolding handle_created_endpoint handle_updated_endpoint handle_removed_endpoint
  Step-IsTold {c} {c'} (created ep n e) t =
      IsTold-after (handle_created_endpoint (recording h) ep n c) c' e (
        dispatched_Told (ltb max_requeues n) (not (str_eq ep.spec.cluster_id c.cluster_id)) c
          (handle_created_remote_endpoint (recording h) ep c)
          (handle_created_local_endpoint (recording h) ep c) t (created_remote_Told ep c t)
          (created_local_Told ep c t))
  Step-IsTold {c} {c'} (updated ep n e) t =
      IsTold-after (handle_updated_endpoint (recording h) ep n c) c' e (
        dispatched_Told (ltb max_requeues n) (not (str_eq ep.spec.cluster_id c.cluster_id)) c
          (called ((recording h).remote_endpoint_updated ep) (store_remote ep c))
          (called ((recording h).local_endpoint_updated ep) c) t (λ _. t) (λ _. t))
  Step-IsTold {c} {c'} (removed ep n e) t =
      IsTold-after (handle_removed_endpoint (recording h) ep n c) c' e (
        dispatched_Told (ltb max_requeues n) (not (str_eq ep.spec.cluster_id c.cluster_id)) c
          (handle_removed_remote_endpoint (recording h) ep c)
          (handle_removed_local_endpoint (recording h) ep c) t (removed_remote_Told ep c t)
          (removed_local_Told ep c t))

  Reach-IsTold : {c c' : Controller} → Reach c c' → IsTold c → IsTold c'
  Reach-IsTold here t = t
  Reach-IsTold (next r s) t = Step-IsTold s (Reach-IsTold r t)

  -- Whatever endpoints come and go, as long as no event is queued again: the transitions of which a
  -- handler has been told without an error alternate, from one to a gateway on, and the latest one
  -- is to the status that the handler can read.
  pub transitions_alternate :
      (x : H) (cluster_id hostname : String) {c : Controller}
      → Reach (new_handler_controller (x, []) cluster_id hostname) c
      → Alternates c.handler_state.is_on_gateway c.handler.1
  unfolding new_handler_controller Alternates
  transitions_alternate x cluster_id hostname r = (Reach-IsTold r (refl, refl)).1
