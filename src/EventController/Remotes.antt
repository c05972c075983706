-- ===== src/EventController/Remotes.antt =====
-- The remote endpoints that the controller holds (pkg/event/controller/endpoint_created.go and
-- endpoint_removed.go).
use submariner.Base.{
  ℕ, ◌≤◌, String, ◌≡◌, ◌≢◌, refl, sym, ap, ◌∙◌, ◌⊎◌, inl, inr, Bool, true, false, not, none, some,
  Dict, lookup, insert, erase, lookup-insert, lookup-erase, lookup-insert_self, lookup-erase_self,
  arith, str_eq, str_eq_iff, str_eq_refl, ltb, if◌then◌else◌, Bool-cases, if_both,
}
use submariner.Endpoint.{Endpoint}
use submariner.EventController.{
  Handler, HandlerController, max_requeues, is_later, is_other, called, note_gateway, requeued,
  settled, to_gateway_if_new, handle_created_local_endpoint, handle_created_remote_endpoint,
  handle_created_endpoint, handle_removed_remote_endpoint, handle_removed_endpoint,
}

module _ {H : Type 0} (h : Handler H) where
  abbrev remotes : HandlerController H → Dict Endpoint
  remotes c = c.handler_state.remote_endpoints

  -- What the creation of a remote endpoint that is not too old leaves.
  created_state :
      (ep : Endpoint) (c : HandlerController H)
      → ep.spec.cluster_id ≢ c.cluster_id
      → is_later (lookup ep.spec.cluster_id c.last_remote_endpoint) ep ≡ false
      → let c' = (handle_created_endpoint h ep 0 c).1 in
        (c'.last_remote_endpoint ≡ insert ep.spec.cluster_id ep c.last_remote_endpoint)
        × (remotes c' ≡ insert ep.name ep (remotes c))
        × (c'.cluster_id ≡ c.cluster_id)
  unfolding handle_created_endpoint handle_created_remote_endpoint
  created_state ep c remote fresh = ground (arith, str_eq_iff ep.spec.cluster_id c.cluster_id)

  removed_state :
      (ep : Endpoint) (c : HandlerController H)
      → ep.spec.cluster_id ≢ c.cluster_id
      → let c' = (handle_removed_endpoint h ep 0 c).1 in
        (c'.last_remote_endpoint ≡ (
          if is_other (lookup ep.spec.cluster_id c.last_remote_endpoint) ep
          then c.last_remote_endpoint
          else erase ep.spec.cluster_id c.last_remote_endpoint))
        × (remotes c' ≡ erase ep.name (remotes c))
        × (c'.cluster_id ≡ c.cluster_id)
  unfolding handle_removed_endpoint handle_removed_remote_endpoint
  removed_state ep c remote = ground (arith, str_eq_iff ep.spec.cluster_id c.cluster_id)

  abbrev pub removed_then_created : Endpoint → Endpoint → HandlerController H → HandlerController H
  removed_then_created old new c =
      (handle_created_endpoint h new 0 (handle_removed_endpoint h old 0 c).1).1

  abbrev pub created_then_removed : Endpoint → Endpoint → HandlerController H → HandlerController H
  created_then_removed old new c =
      (handle_removed_endpoint h old 0 (handle_created_endpoint h new 0 c).1).1

  module _ (c : HandlerController H) (old new : Endpoint)
      (remote : old.spec.cluster_id ≢ c.cluster_id)
      (same_cluster : new.spec.cluster_id ≡ old.spec.cluster_id)
      (known : lookup old.spec.cluster_id c.last_remote_endpoint ≡ some old)
      (other_uid : new.uid ≢ old.uid) (later : old.created ≤ new.created) where
    abbrev Replaced : HandlerController H → Dict Endpoint → Type 0
    Replaced c' held =
        ((j : String)
          → lookup j c'.last_remote_endpoint
            ≡ (if str_eq old.spec.cluster_id j then some new else lookup j c.last_remote_endpoint))
        × (remotes c' ≡ held)

    new_remote : new.spec.cluster_id ≢ c.cluster_id
    new_remote e = remote (sym same_cluster ∙ e)

    same_key : str_eq old.spec.cluster_id new.spec.cluster_id ≡ true
    same_key = (str_eq_iff old.spec.cluster_id new.spec.cluster_id).1 (sym same_cluster)

    removed_first :
        Replaced (removed_then_created old new c) (insert new.name new (erase old.name (remotes c)))
    removed_first =
        let m = c.last_remote_endpoint in
        let (last, held, id) = removed_state old c remote in
        let gone : (handle_removed_endpoint h old 0 c).1.last_remote_endpoint
            ≡ erase old.spec.cluster_id m =
          last ∙ rw known (ground (arith, str_eq_refl old.uid)) in
        let absent : lookup new.spec.cluster_id
              (handle_removed_endpoint h old 0 c).1.last_remote_endpoint
            ≡ none =
          ap (λ m'. lookup new.spec.cluster_id m') gone
          ∙ lookup-erase old.spec.cluster_id new.spec.cluster_id m
          ∙ ground (arith, same_key) in
        let (last', held', id') =
          created_state new (handle_removed_endpoint h old 0 c).1 (λ e. new_remote (e ∙ id))
            (ap (λ o. is_later o new) absent) in
        (
          λ j.
              ap (lookup j) (last' ∙ ap (insert new.spec.cluster_id new) gone)
              ∙ lookup-insert new.spec.cluster_id j new (erase old.spec.cluster_id m)
              ∙ ground (arith, same_cluster, lookup-erase old.spec.cluster_id j m),
          held' ∙ ap (insert new.name new) held,
        )

    created_first :
        Replaced (created_then_removed old new c) (erase old.name (insert new.name new (remotes c)))
    created_first =
        let m = c.last_remote_endpoint in
        let (last, held, id) =
          created_state new c new_remote
            (ap (λ o. is_later o new) (ap (λ k. lookup k m) same_cluster ∙ known) ∙ ground arith) in
        let there : lookup old.spec.cluster_id
              (handle_created_endpoint h new 0 c).1.last_remote_endpoint
            ≡ some new =
          ap (lookup old.spec.cluster_id) last
          ∙ lookup-insert new.spec.cluster_id old.spec.cluster_id new m
          ∙ ground (arith, same_cluster, str_eq_refl old.spec.cluster_id) in
        let (last', held', id') =
          removed_state old (handle_created_endpoint h new 0 c).1 (λ e. remote (e ∙ id)) in
        let kept : (created_then_removed old new c).last_remote_endpoint
            ≡ insert new.spec.cluster_id new m =
          last' ∙ rw there (ground (arith, str_eq_iff new.uid old.uid)) ∙ last in
        (
          λ j.
              ap (lookup j) kept
              ∙ lookup-insert new.spec.cluster_id j new m
              ∙ ground (arith, same_cluster),
          held' ∙ ap (erase old.name) held,
        )

    -- A cluster fails over to a new endpoint. In whichever order the controller learns of the
    -- removal of the old endpoint, the last one known of a remote cluster, and of the creation of
    -- the new one, which has another name and uid and was not created before it, and whether or not
    -- the handler has errors: it holds the new endpoint as the last one of the cluster, the last
    -- ones of the other clusters as before, and the same remote endpoints, with the new and without
    -- the old one.
    pub failover_in_any_order :
        new.name ≢ old.name
        → (j : String)
        → let a = removed_then_created old new c in
          let b = created_then_removed old new c in
          (lookup j a.last_remote_endpoint
            ≡ (if str_eq old.spec.cluster_id j then some new else lookup j c.last_remote_endpoint))
          × (lookup j b.last_remote_endpoint ≡ lookup j a.last_remote_endpoint)
          × (lookup j b.handler_state.remote_endpoints ≡ lookup j a.handler_state.remote_endpoints)
          × (lookup new.name b.handler_state.remote_endpoints ≡ some new)
          × (lookup old.name b.handler_state.remote_endpoints ≡ none)
    failover_in_any_order other_name j =
        let (last_a, held_a) = removed_first in
        let (last_b, held_b) = created_first in
        (
          last_a j,
          last_b j ∙ sym (last_a j),
          ap (lookup j) held_b ∙ commuted j ∙ sym (ap (lookup j) held_a),
          ap (lookup new.name) held_b
              ∙ commuted new.name
              ∙ lookup-insert_self new.name new (erase old.name (remotes c)),
          ap (lookup old.name) held_b
              ∙ lookup-erase_self old.name (insert new.name new (remotes c)),
        )
      where
        commuted :
            (i : String)
            → lookup i (erase old.name (insert new.name new (remotes c)))
              ≡ lookup i (insert new.name new (erase old.name (remotes c)))
        commuted i = ground (
          arith,
          lookup-erase old.name i (insert new.name new (remotes c)),
          lookup-insert new.name i new (remotes c),
          lookup-insert new.name i new (erase old.name (remotes c)),
          lookup-erase old.name i (remotes c),
          str_eq_iff old.name i,
          str_eq_iff new.name i,
        )

  -- The dictionary of a controller, through the steps that do not write to it.
  module _ (P : Dict Endpoint → Type 0) where
    abbrev Holds : Bool × HandlerController H → Type 0
    Holds (ok, c) = P c.last_remote_endpoint

    settled-Holds : (r : Bool × HandlerController H) → Holds r → Holds (settled r)
    settled-Holds (true, c) p = p
    settled-Holds (false, c) p = p

    to_gateway-Holds : (r : Bool × HandlerController H) → Holds r → Holds (to_gateway_if_new h r)
    to_gateway-Holds (false, c) p = p
    to_gateway-Holds (true, c) p = if_both Holds _ _ _ (λ _. p) (λ _. p)

    note_gateway-Holds :
        (v : Bool) (ep : Endpoint) (c : HandlerController H)
        → P c.last_remote_endpoint
        → P (note_gateway v ep c).last_remote_endpoint
    note_gateway-Holds v ep c p = elim (Bool-cases (str_eq ep.spec.hostname c.hostname)) [
      | inl same ↦ rw same p
      | inr other ↦ rw other p
    ]

    created_local-Holds :
        (ep : Endpoint) (c : HandlerController H)
        → P c.last_remote_endpoint
        → Holds (handle_created_local_endpoint h ep c)
    unfolding handle_created_local_endpoint
    created_local-Holds ep c p =
        let noted = note_gateway true ep c in
        let call = called (h.local_endpoint_created ep) noted in
        settled-Holds (to_gateway_if_new h call)
          (to_gateway-Holds call (note_gateway-Holds true ep c p))

    created_remote-Holds :
        (ep : Endpoint) (c : HandlerController H)
        → P c.last_remote_endpoint
        → (is_later (lookup ep.spec.cluster_id c.last_remote_endpoint) ep ≡ false
            → P (insert ep.spec.cluster_id ep c.last_remote_endpoint))
        → Holds (handle_created_remote_endpoint h ep c)
    unfolding handle_created_remote_endpoint
    created_remote-Holds ep c p q =
        if_both Holds (is_later (lookup ep.spec.cluster_id c.last_remote_endpoint) ep) _ _ (λ _. p)
          q

    dispatched-Holds :
        (ignored remote : Bool) (c : HandlerController H) (r s : Bool × HandlerController H)
        → P c.last_remote_endpoint
        → Holds r
        → Holds s
        → Holds (if ignored then (false, c) else requeued (if remote then r else s))
    dispatched-Holds true remote c r s p a b = p
    dispatched-Holds false true c (ok, c') s p a b = a
    dispatched-Holds false false c r (ok, c') p a b = b

    created-Holds :
        (ep : Endpoint) (n : ℕ) (c : HandlerController H)
        → P c.last_remote_endpoint
        → (is_later (lookup ep.spec.cluster_id c.last_remote_endpoint) ep ≡ false
            → P (insert ep.spec.cluster_id ep c.last_remote_endpoint))
        → Holds (handle_created_endpoint h ep n c)
    unfolding handle_created_endpoint
    created-Holds ep n c p q =
        dispatched-Holds (ltb max_requeues n) (not (str_eq ep.spec.cluster_id c.cluster_id)) c
          (handle_created_remote_endpoint h ep c) (handle_created_local_endpoint h ep c) p
          (created_remote-Holds ep c p q) (created_local-Holds ep c p)

  abbrev pub NotOlder : Endpoint → String → Endpoint → Dict Endpoint → Type 0
  NotOlder ep k last m =
      (last' : Endpoint) × (lookup k m ≡ some last')
      × (last.created ≤ last'.created)
      × ((str_eq ep.spec.cluster_id k ≡ true) ⊎ (last' ≡ last))

  -- The creation of an endpoint, however often it was queued, replaces the last endpoint that is
  -- known of a cluster only by one that was not created before it, and only if it is of this
  -- cluster.
  pub created-NotOlder :
      (ep : Endpoint) (n : ℕ) (c : HandlerController H) (k : String) (last : Endpoint)
      → lookup k c.last_remote_endpoint ≡ some last
      → NotOlder ep k last (handle_created_endpoint h ep n c).1.last_remote_endpoint
  created-NotOlder ep n c k last known =
      created-Holds (NotOlder ep k last) ep n c (last, known, omega arith, inr refl)
        (λ fresh. elim (Bool-cases (str_eq ep.spec.cluster_id k)) [
          | inr other ↦ (
            last,
            lookup-insert ep.spec.cluster_id k ep c.last_remote_endpoint ∙ rw other known,
            omega arith,
            inr refl,
          )
          | inl same ↦ (
            ep,
            lookup-insert ep.spec.cluster_id k ep c.last_remote_endpoint ∙ rw same refl,
            not_before ep k c.last_remote_endpoint last same known fresh,
            inl same,
          )
        ])
    where
      not_before :
          (ep : Endpoint) (k : String) (m : Dict Endpoint) (last : Endpoint)
          → str_eq ep.spec.cluster_id k ≡ true
          → lookup k m ≡ some last
          → is_later (lookup ep.spec.cluster_id m) ep ≡ false
          → last.created ≤ ep.created
      not_before ep k m last same known fresh =
          let found : lookup ep.spec.cluster_id m ≡ some last =
            ap (λ j. lookup j m) ((str_eq_iff ep.spec.cluster_id k).0 same) ∙ known in
          let later : ltb ep.created last.created ≡ false =
            sym (ap (λ o. is_later o ep) found) ∙ fresh in
          ground arith
