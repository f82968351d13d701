-- ===== src/Attempt/Backoff.antt =====
-- product/src/circuit.rs: what a failure and a completion do to the gate.
use deskquota.Common.{
  Bool-cases, ap, arith, false, if◌then◌else◌, inl, inr, ltb, max, min, none, refl, some, true, ℕ,
  ◌+◌, ◌-◌, ◌<◌, ◌∙◌, ◌≡◌, ◌≤◌,
}
use deskquota.Circuit.{
  Attempt, Entry, blocked_for, closed, failure_gap, first_backoff, half_open, max_backoff, opened,
  started_entry,
}
use deskquota.Attempt.{
  completed_entry, counted_failures, dropped_entry, failed_entry, is_stale_failure, trips,
}

-- The backoff of an entry stays between one and 30 seconds.
abbrev pub IsPaced : Entry → Type 0
IsPaced e = (first_backoff ≤ e.next_backoff) × (e.next_backoff ≤ max_backoff)

pub data EntryStep (now : ℕ) : Entry → Entry → Type 0 where
  starting : (e : Entry) → blocked_for now e ≡ none → EntryStep now e (started_entry now e)
  failing : (e : Entry) (delay : ℕ) → EntryStep now e (failed_entry now delay e)
  completing : (e : Entry) → EntryStep now e (completed_entry now e)
  dropping : (e : Entry) (a : Attempt) → EntryStep now e (dropped_entry now a e)

-- An entry whose backoff is between one and 30 seconds keeps it there when an attempt starts,
-- fails with any delay, completes or is dropped.
pub step-IsPaced : {now : ℕ} {e f : Entry} → EntryStep now e f → IsPaced e → IsPaced f
step-IsPaced {now} (starting e u) h = h
step-IsPaced {now} (failing e delay) h = ground arith
step-IsPaced {now} (completing e) h = ground arith
step-IsPaced {now} (dropping e a) h = ground arith

-- A failure that trips the gate of an entry with a backoff between one and 30 seconds shuts it for
-- the longer of the server's delay and the backoff, which is at least a second: at any later time
-- the entry is blocked for exactly what is left of it, and is not blocked once nothing is left;
-- starting it then leaves the gate half open.
pub failed_entry_blocks :
    (e : Entry) (now delay later : ℕ)
    → IsPaced e
    → trips now e ≡ true
    → now ≤ later
    → let e' = failed_entry now delay e in
      let shut = now + max delay e.next_backoff in
      (blocked_for later e' ≡ (if ltb later shut then some (shut - later) else none))
      × ((started_entry later e').gate ≡ half_open)
      × (now + first_backoff ≤ shut)
failed_entry_blocks e now delay later p t le = rw t (ground arith, refl, omega arith)

counted_soon :
    (e : Entry) (at now : ℕ)
    → e.last_failure ≡ some at
    → now ≤ at + failure_gap
    → counted_failures now e ≡ min (e.failures + 1) 255
counted_soon e at now l h = rw l (ground arith)

counted_first : (e : Entry) (now : ℕ) → e.failures ≡ 0 → counted_failures now e ≡ 1
counted_first e now f = elim (Bool-cases (is_stale_failure now e.last_failure)) [
  | inl s ↦ rw s
  | inr s ↦ rw (s, f)
]

-- A failure that does not trip a closed gate leaves it closed and is counted.
failed_below :
    (e : Entry) (now delay : ℕ)
    → e.gate ≡ closed
    → counted_failures now e < 3
    → ((failed_entry now delay e).gate ≡ closed)
      × ((failed_entry now delay e).failures ≡ counted_failures now e)
      × ((failed_entry now delay e).last_failure ≡ some now)
      × ((failed_entry now delay e).next_backoff ≡ e.next_backoff)
failed_below e now delay g h =
    let calm : trips now e ≡ false = rw g (ground arith) in rw calm (g, refl, refl, refl)

failed_at :
    (e : Entry) (now delay : ℕ)
    → 3 ≤ counted_failures now e
    → (failed_entry now delay e).gate ≡ opened now (max delay e.next_backoff)
failed_at e now delay h = let trip : trips now e ≡ true = ground arith in rw trip

-- Of three failures in a row, at most 60 seconds apart, of an entry with a closed gate and no
-- failure counted, the first two leave the gate closed and the third opens it, for the longer of
-- the server's delay and the entry's backoff.
pub three_failures :
    (e : Entry) (a b c d d' d'' : ℕ)
    → e.failures ≡ 0
    → e.gate ≡ closed
    → b ≤ a + failure_gap
    → c ≤ b + failure_gap
    → let first = failed_entry a d e in
      let second = failed_entry b d' first in
      let third = failed_entry c d'' second in
      (first.gate ≡ closed)
      × (second.gate ≡ closed)
      × (third.gate ≡ opened c (max d'' e.next_backoff))
three_failures e a b c d d' d'' f g ba cb =
    let one = counted_first e a f in
    let (g1, f1, l1, n1) = failed_below e a d g (omega (arith, one)) in
    let two = counted_soon (failed_entry a d e) a b l1 ba in
    let (g2, f2, l2, n2) =
      failed_below (failed_entry a d e) b d' g1 (omega (arith, one, two, f1)) in
    let three = counted_soon (failed_entry b d' (failed_entry a d e)) b c l2 cb in
    (
      g1,
      g2,
      failed_at (failed_entry b d' (failed_entry a d e)) c d''
            (omega (arith, one, two, three, f1, f2))
          ∙ ap (λ n. opened c (max d'' n)) (n2 ∙ n1),
    )
