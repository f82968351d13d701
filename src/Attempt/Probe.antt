-- ===== src/Attempt/Probe.antt =====
-- product/src/circuit.rs: the probe of a half-open gate.
use deskquota.Common.{
  List, [], add_u64, ap, arith, false, none, refl, some, true, wrapping_suc, ℕ, ◌+◌, ◌∙◌, ◌∷◌, ◌≡◌,
  ◌≤◌,
}
use deskquota.Circuit.{
  Entry, State, attempts, blocked, blocked_for, cooldown, half_open, lookup, opened, probing, start,
  start_gated, started_entry, update,
}

lookup-update_self :
    (k : ℕ) (e d : Entry) (es : List (ℕ × Entry))
    → lookup k es ≡ some d
    → lookup k (update k e es) ≡ some e
lookup-update_self k e d [] h = absurd (cc)
lookup-update_self k e d ((j, c) ∷ es) h = ground (arith, lookup-update_self k e d es)

start_known :
    (s : State) (now k : ℕ) (e : Entry)
    → lookup k s.entries ≡ some e
    → start s now k ≡ start_gated s now k e (blocked_for now e)
unfolding start
start_known s now k e h = rw h

refused_probing :
    (s : State) (now k : ℕ) (e : Entry)
    → lookup k s.entries ≡ some e
    → e.gate ≡ half_open
    → ((start s now k).1 ≡ blocked probing) × ((start s now k).0.counts ≡ s.counts)
refused_probing s now k e h g =
    let cooling : blocked_for now e ≡ some cooldown = rw g in
    let known = start_known s now k e h ∙ ap (start_gated s now k e) cooling in
    rw known (rw g (refl, refl))

-- Where the gate of a scope is open and its delay is over, a start is let through as the probe, of
-- a new generation, and is counted; the next start of the scope, at any time, is refused because a
-- probe is out, and changes no counter.
pub start-start :
    (s : State) (now later k since delay : ℕ) (e : Entry)
    → lookup k s.entries ≡ some e
    → e.gate ≡ opened since delay
    → since + delay ≤ now
    → let (s', first) = start s now k in
      let (s'', second) = start s' later k in
      (first
        ≡ attempts (record {
          key = k;
          generation = wrapping_suc e.generation;
          tracked = true;
          resolved = false;
        }))
      × (second ≡ blocked probing)
      × (s''.counts ≡ s'.counts)
      × (s'.counts.probes ≡ add_u64 s.counts.probes 1)
start-start s now later k since delay e h g t =
    let free : blocked_for now e ≡ none = rw g (ground arith) in
    let first : start s now k ≡ start_gated s now k e none =
      start_known s now k e h ∙ ap (start_gated s now k e) free in
    let half : (started_entry now e).gate ≡ half_open = rw g in
    let again =
      refused_probing (start_gated s now k e none).0 later k (started_entry now e)
        (lookup-update_self k (started_entry now e) e s.entries h) half in
    rw first (rw g, again.0, again.1, rw g)
