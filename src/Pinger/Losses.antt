-- ===== src/Pinger/Losses.antt =====
-- When a pinger of pkg/pinger/pinger.go reports an error.
use mathlib.Core.Option.{some_inj}
use submariner.Base.{
  ℕ, suc, ◌+◌, ◌≤◌, ◌≡◌, refl, ap, subst, ◌∙◌, Bool, true, false, Option, none, some, List, [], ◌∷◌,
  arith, ltb, if◌then◌else◌,
}
use submariner.Pinger.{
  Statistics, connected, connection_error, ping_failed, PingerState, Probe, new_probe,
  check_packet_loss, on_send, on_send_error, on_recv, run_ends, update,
}

-- What happens while no reply comes: a packet is sent, a send fails, and is to be tried again or
-- not, or the run of the library ends, with an error or none, and a new one begins.
pub data Silence : Type 0 where
  packet_sent : Silence
  send_failed : Bool → Silence
  run_ended : Bool → Silence

-- How many packets are lost, and how many of them the last look at the losses found, where `lost` and
-- `seen` were before: a packet is looked for before it is counted, a failed send after.
unfoldable pub tally : List Silence → ℕ × ℕ → ℕ × ℕ
tally [] (lost, seen) = (lost, seen)
tally (packet_sent ∷ events) (lost, seen) = tally events (suc lost, lost)
tally (send_failed true ∷ events) (lost, seen) = tally events (lost, seen)
tally (send_failed false ∷ events) (lost, seen) = tally events (suc lost, suc lost)
tally (run_ended failing ∷ events) (lost, seen) = tally events (lost, seen)

-- No run ends.
abbrev pub OneRun : List Silence → Type 0
OneRun [] = Unit
OneRun (packet_sent ∷ events) = OneRun events
OneRun (send_failed again ∷ events) = OneRun events
OneRun (run_ended failing ∷ events) = ⊥

-- What the library documents of its counters: it counts a packet that was sent, after `OnSend`.
pub record Counts (count_sent : Probe → Probe) : Type 0 where
  pub sent : (probe : Probe) → (count_sent probe).packets_sent ≡ probe.packets_sent + 1
  pub recv : (probe : Probe) → (count_sent probe).packets_recv ≡ probe.packets_recv

-- What is reported where the last look found so many losses.
abbrev Reports : ℕ → PingerState → Type 0
Reports seen p =
    (p.connection_status
      ≡ (if ltb p.max_packet_loss_count seen then connection_error else connected))
    × (p.failure ≡ (if ltb p.max_packet_loss_count seen then some ping_failed else none))

-- The state after so many losses since the last reply, of which the last look found `seen`.
abbrev Counted : ℕ × ℕ → PingerState × Probe → Type 0
Counted (lost, seen) (p, probe) =
    (probe.packets_sent + p.send_errors ≡ lost)
    × (probe.packets_recv ≡ 0)
    × (seen ≤ lost)
    × Reports seen p

-- A look at the losses.
check-Counted :
    (lost seen : ℕ) (p : PingerState) (probe : Probe)
    → probe.packets_sent + p.send_errors ≡ lost
    → probe.packets_recv ≡ 0
    → seen ≤ lost
    → Reports seen p
    → Counted (lost, lost) (check_packet_loss (p, probe))
unfolding check_packet_loss
check-Counted lost seen p probe e f g (h, k) = ground (arith, e, f, g, h, k)

check-max_packet_loss_count :
    (p : PingerState) (probe : Probe)
    → (check_packet_loss (p, probe)).0.max_packet_loss_count ≡ p.max_packet_loss_count
unfolding check_packet_loss
check-max_packet_loss_count p probe = ground arith

module _ (count_sent : Probe → Probe) where
  unfoldable pub silent : Silence → PingerState × Probe → PingerState × Probe
  silent packet_sent s = let (p, probe) = on_send s in (p, count_sent probe)
  silent (send_failed again) s = on_send_error again s
  silent (run_ended failing) (p, probe) = (run_ends failing p, new_probe)

  unfoldable pub silences : List Silence → PingerState × Probe → PingerState × Probe
  silences [] s = s
  silences (e ∷ events) s = silences events (silent e s)

module _ (count_sent : Probe → Probe) (counts : Counts count_sent) where
  after_send :
      (lost seen : ℕ) (s : PingerState × Probe)
      → Counted (lost, seen) s
      → Counted (suc lost, seen) (s.0, count_sent s.1)
  after_send lost seen (p, probe) (e, f, g, h) =
      (omega (arith, counts.sent probe, e), counts.recv probe ∙ f, omega (arith, g), h)

  silences-Counted :
      (events : List Silence) (lost seen : ℕ) (s : PingerState × Probe)
      → OneRun events
      → Counted (lost, seen) s
      → Counted (tally events (lost, seen)) (silences count_sent events s)
        × ((silences count_sent events s).0.max_packet_loss_count ≡ s.0.max_packet_loss_count)
  unfolding silences silent tally on_send on_send_error
  silences-Counted [] lost seen s one h = (h, refl)
  silences-Counted (packet_sent ∷ events) lost seen (p, probe) one (e, f, g, h) =
      let looked = check-Counted lost seen p probe e f g h in
      let (later, kept) =
        silences-Counted events (suc lost) lost _ one
          (after_send lost lost (check_packet_loss (p, probe)) looked) in
      (later, kept ∙ check-max_packet_loss_count p probe)
  silences-Counted (send_failed true ∷ events) lost seen s one h =
      silences-Counted events lost seen s one h
  silences-Counted (send_failed false ∷ events) lost seen (p, probe) one (e, f, g, h) =
      let p' : PingerState = record p { send_errors = p.send_errors + 1 } in
      let looked =
        check-Counted (suc lost) seen p' probe (omega (arith, e)) f (omega (arith, g)) h in
      let (later, kept) =
        silences-Counted events (suc lost) (suc lost) (check_packet_loss (p', probe)) one looked in
      (later, kept ∙ check-max_packet_loss_count p' probe)
  silences-Counted (run_ended failing ∷ events) lost seen s one h = elim one [ ]

on_recv-Counted :
    (sqrt : ℕ → ℕ) (rtt : ℕ) (p : PingerState) (probe : Probe) (s' : PingerState × Probe)
    → on_recv sqrt rtt (p, probe) ≡ some s'
    → Counted (0, 0) s' × (s'.0.max_packet_loss_count ≡ p.max_packet_loss_count)
unfolding on_recv
on_recv-Counted sqrt rtt p probe s' e = replied (update sqrt rtt p.statistics) e
  where
    heard : Statistics → PingerState × Probe
    heard statistics = (
      record p {
        connection_status = connected;
        failure = none;
        statistics = statistics;
        send_errors = 0;
      },
      record probe { packets_sent = 0; packets_recv = 0 },
    )

    replied :
        (o : Option Statistics)
        → (elim o as (λ x. Option (PingerState × Probe)) [
          | none ↦ none
          | some statistics ↦ some (heard statistics)
        ])
          ≡ some s'
        → Counted (0, 0) s' × (s'.0.max_packet_loss_count ≡ p.max_packet_loss_count)
    replied none e = cc e
    replied (some statistics) e =
        subst (λ r. Counted (0, 0) r × (r.0.max_packet_loss_count ≡ p.max_packet_loss_count))
          (some_inj.0 e) ((omega arith, refl, omega arith, (ground arith, ground arith)), refl)

-- After a reply, and any number of packets without another one in the same run of the library,
-- which counts a packet after `OnSend`: the connection is in error exactly if the last look at the
-- losses found more than the threshold allows, and is connected otherwise; and a message is there
-- exactly in error. The look at a packet that is sent finds the earlier packets and the failed
-- sends; the look at a failed send finds that one too. A send that is tried again is not lost.
pub losses_since_reply :
    (count_sent : Probe → Probe)
    → Counts count_sent
    → (sqrt : ℕ → ℕ) (rtt : ℕ) (events : List Silence) (s s' : PingerState × Probe) → OneRun events
    → on_recv sqrt rtt s ≡ some s'
    → let seen = (tally events (0, 0)).1 in
      ((silences count_sent events s').0.connection_status
        ≡ (if ltb s.0.max_packet_loss_count seen then connection_error else connected))
      × ((silences count_sent events s').0.failure
          ≡ (if ltb s.0.max_packet_loss_count seen then some ping_failed else none))
losses_since_reply count_sent counts sqrt rtt events (p, probe) s' one e =
    let (start, max) = on_recv-Counted sqrt rtt p probe s' e in
    let ((total, received, most, (status, failure)), kept) =
      silences-Counted count_sent counts events 0 0 s' one start in
    let same = ap (λ m. ltb m (tally events (0, 0)).1) (kept ∙ max) in
    (
      status ∙ ap (λ b. if b then connection_error else connected) same,
      failure ∙ ap (λ b. if b then some ping_failed else none) same,
    )

silent_error :
    (count_sent : Probe → Probe) (event : Silence) (s : PingerState × Probe)
    → s.0.connection_status ≡ connection_error
    → (silent count_sent event s).0.connection_status ≡ connection_error
unfolding silent on_send on_send_error check_packet_loss run_ends
silent_error count_sent packet_sent (p, probe) e = ground (arith, e)
silent_error count_sent (send_failed true) (p, probe) e = e
silent_error count_sent (send_failed false) (p, probe) e = ground (arith, e)
silent_error count_sent (run_ended false) (p, probe) e = e
silent_error count_sent (run_ended true) (p, probe) e = rw e refl

-- An error is reported until a reply comes, whatever the sends answer and however often the
-- library's run ends, as long as its pinger can be created.
pub error_until_reply :
    (count_sent : Probe → Probe) (events : List Silence) (s : PingerState × Probe)
    → s.0.connection_status ≡ connection_error
    → (silences count_sent events s).0.connection_status ≡ connection_error
unfolding silences
error_until_reply count_sent [] s e = e
error_until_reply count_sent (event ∷ events) s e =
    error_until_reply count_sent events (silent count_sent event s)
      (silent_error count_sent event s e)
