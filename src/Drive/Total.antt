-- ===== src/Drive/Total.antt =====
-- product/src/admission/queue.rs, `drive`: its rounds and its possible panics.
use deskquota.Common.{
  Bool, Bool-cases, List, Option-cases, [], ap, arith, get_or, head?, inl, inr, length, ltb, map,
  refl, some, subst, suc, sym, zero, ℕ, ◌<◌, ◌∙◌, ◌∷◌, ◌≡◌, ◌≤◌,
}
use deskquota.Scheduler.{Queue, Waiting, len}
use deskquota.Barrier.{expire, protect, stands, unexpired}
use deskquota.Drive.{
  Rounds, Turn, after_turn, done, drive, fits, out_of_fuel, panicked, panics, rounds, select, serve,
  serves, stops, turn, turn_ready,
}
use deskquota.Drive.Fits.{
  HeadFits, HeadFits-same, fits-Inv, fits-SameChecks, fits_true, select_fits,
}
use deskquota.Drive.Serve.{Ready, overflows-false, serve_lem, served-Ready}

-- What a turn on a ready queue may do: stop with a ready queue, or serve one request and leave a
-- ready queue. It does not panic.
abbrev pub Progress : Queue → Turn → Type 0
Progress q (stops q') = Ready q' × (len q' ≡ len q)
Progress q (serves q') = Ready q' × (suc (len q') ≡ len q)
Progress q panics = ⊥

serve-Progress :
    (q : Queue) (now : ℕ) (fs : List Bool) (root : ℕ) (ws : List Waiting)
    → Ready q
    → get_or q.roots root [] ≡ ws
    → HeadFits q.recovery now q.ledger (head? ws)
    → Progress q (serve q now fs root)
serve-Progress q now fs root [] v e h = absurd h
serve-Progress q now fs root (w ∷ ws) v e h =
    rw (serve_lem q now fs root w ws v.sound e h.0) (served-Ready q now fs root w ws v e h.0)

abbrev pub after_fits : Queue → ℕ → Queue
after_fits q now = record q { ledger = (fits q.recovery now q.ledger q.roots).0 }

pub after_fits-Ready : (q : Queue) (now : ℕ) → Ready q → Ready (after_fits q now)
after_fits-Ready q now v = record {
  sound = fits-Inv q.recovery now q.ledger q.roots v.sound;
  places = v.places;
  turning = v.turning;
}

pub selected_fits :
    (q : Queue) (now root : ℕ)
    → select q (fits q.recovery now q.ledger q.roots).1 ≡ some root
    → HeadFits q.recovery now (after_fits q now).ledger (head? (get_or q.roots root []))
selected_fits q now root s =
    HeadFits-same q.recovery now q.ledger (after_fits q now).ledger (head? (get_or q.roots root []))
      (λ cost. sym (fits-SameChecks q.recovery now q.ledger q.roots cost))
      (fits_true q.recovery now q.ledger q.roots root (select_fits q _ root s))

selected-Progress :
    (q : Queue) (now root : ℕ)
    → Ready q
    → select q (fits q.recovery now q.ledger q.roots).1 ≡ some root
    → Progress
        (after_fits q now)
        (serve (after_fits q now) now (fits q.recovery now q.ledger q.roots).1 root)
selected-Progress q now root v s =
    serve-Progress (after_fits q now) now (fits q.recovery now q.ledger q.roots).1 root
      (get_or q.roots root []) (after_fits-Ready q now v) refl (selected_fits q now root s)

turn_ready-Progress : (q : Queue) (now : ℕ) → Ready q → Progress q (turn_ready q now)
unfolding turn_ready
turn_ready-Progress q now v =
    elim (Option-cases (select q (fits q.recovery now q.ledger q.roots).1)) [
      | inl e ↦ rw (overflows-false q.roots v.places, e) (after_fits-Ready q now v, refl)
      | inr (root, e) ↦ rw (overflows-false q.roots v.places, e) (selected-Progress q now root v e)
    ]

pub protect-Ready :
    (q : Queue) (now : ℕ) → Ready q → Ready (protect q now) × (len (protect q now) ≡ len q)
unfolding protect
protect-Ready q now v = elim (Bool-cases (stands q.roots q.barrier)) [
  | inl e ↦ rw e (v, refl)
  | inr e ↦ rw e (record { sound = v.sound; places = v.places; turning = v.turning }, refl)
]

Progress-len : (p q : Queue) (t : Turn) → len p ≡ len q → Progress p t → Progress q t
Progress-len p q (stops q') e h = (h.0, h.1 ∙ e)
Progress-len p q (serves q') e h = (h.0, h.1 ∙ e)
Progress-len p q panics e h = h

pub turn-Progress : (q : Queue) (now : ℕ) → Ready q → Progress q (turn q now)
unfolding turn
turn-Progress q now v =
    let p = protect q now in
    let w = protect-Ready q now v in
    elim (Bool-cases (ltb now p.cooldown_until)) [
      | inl e ↦ rw e w
      | inr e ↦ rw e (Progress-len p q (turn_ready p now) w.1 (turn_ready-Progress p now w.0))
    ]

after_turn_done :
    (fuel now : ℕ) (q : Queue) (t : Turn)
    → ((p : Queue)
        → Ready p
        → len p < fuel
        → (q' : Queue) × (rounds fuel now p ≡ done q') × Ready q')
    → Progress q t
    → len q ≤ fuel
    → (q' : Queue) × (after_turn (λ p. rounds fuel now p) t ≡ done q') × Ready q'
after_turn_done fuel now q (stops q') rest h l = (q', refl, h.0)
after_turn_done fuel now q (serves q') rest h l = rest q' h.0 (omega arith)
after_turn_done fuel now q panics rest h l = absurd h

rounds_done :
    (fuel now : ℕ) (q : Queue)
    → Ready q
    → len q < fuel
    → (q' : Queue) × (rounds fuel now q ≡ done q') × Ready q'
unfolding rounds
rounds_done zero now q v l = absurd (omega arith)
rounds_done (suc fuel) now q v l =
    after_turn_done fuel now q (turn q now) (rounds_done fuel now) (turn-Progress q now v)
      (omega arith)

length-map {ℓ κ} :
    {A : Type ℓ} {B : Type κ} (f : A → B) (xs : List A) → length (map f xs) ≡ length xs
length-map f [] = refl
length-map f (x ∷ xs) = ap suc (length-map f xs)

expire-Ready : (q : Queue) (now : ℕ) → Ready q → Ready (expire q now)
unfolding expire
expire-Ready q now v = record {
  sound = v.sound;
  places = omega (arith, v.places, length-map (unexpired now) q.roots);
  turning = λ h. omega (
    arith,
    v.turning (omega (arith, length-map (unexpired now) q.roots)),
    length-map (unexpired now) q.roots,
  );
}

-- On a queue with a sound ledger, at most 16 roots and its cursor in range, `drive` returns: its loop ends within one round for each
-- waiting request and one more, no index is out of bounds, the selected head is there, and the
-- ledger admits what it checked. The queue that it returns is ready for the next drive.
pub drive_done : (q : Queue) (now : ℕ) → Ready q → (q' : Queue) × (drive q now ≡ done q') × Ready q'
unfolding drive
drive_done q now v =
    rounds_done (suc (len (expire q now))) now (expire q now) (expire-Ready q now v) (omega arith)

abbrev pub queue_of : Queue → Rounds → Queue
queue_of q (done p) = p
queue_of q panicked = q
queue_of q out_of_fuel = q

pub done-injective : {p q : Queue} → done p ≡ done q → p ≡ q
done-injective {p} e = ap (queue_of p) e

-- The rule of the loop: what every serving turn keeps, and what a stopping turn makes of it.
abbrev pub Keeps : (Queue → Type 0) → (Queue → Type 0) → Turn → Type 0
Keeps P R (stops q) = R q
Keeps P R (serves q) = P q
Keeps P R panics = Unit

module _ (P R : Queue → Type 0) (now : ℕ)
    (keep : (q : Queue) → Ready q → P q → Keeps P R (turn q now)) where
  after_turn_rule :
      (fuel : ℕ) (q q' : Queue) (t : Turn)
      → ((p : Queue) → Ready p → P p → rounds fuel now p ≡ done q' → R q')
      → Progress q t
      → Keeps P R t
      → after_turn (λ p. rounds fuel now p) t ≡ done q'
      → R q'
  after_turn_rule fuel q q' (stops p) rest g k e = subst R (done-injective e) k
  after_turn_rule fuel q q' (serves p) rest g k e = rest p g.0 k e
  after_turn_rule fuel q q' panics rest g k e = absurd g

  rounds_rule : (fuel : ℕ) (q q' : Queue) → Ready q → P q → rounds fuel now q ≡ done q' → R q'
  unfolding rounds
  rounds_rule zero q q' v p e = absurd (cc)
  rounds_rule (suc fuel) q q' v p e =
      after_turn_rule fuel q q' (turn q now) (λ o w k d. rounds_rule fuel o q' w k d)
        (turn-Progress q now v) (keep q v p) e

  pub drive_rule : (q q' : Queue) → Ready q → P (expire q now) → drive q now ≡ done q' → R q'
  unfolding drive
  drive_rule q q' v p e =
      rounds_rule (suc (len (expire q now))) (expire q now) q' (expire-Ready q now v) p e
