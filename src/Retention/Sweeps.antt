-- ===== src/Retention/Sweeps.antt =====
-- The sweeper never runs its task twice at a time, and not after it was stopped.
use karta_cards_vera.Common.{
  ℕ, ◌+◌, ◌≤◌, ◌≡◌, refl, ◌∙◌, true, false, ◌||◌, arith, Bool-cases, ◌⊎◌, inl, inr, if◌then◌else◌,
}
use karta_cards_vera.Core.Exec.{Outcome}
use karta_cards_vera.Retention.{
  Sweeper, start_sweeper, tick, finish_sweep, stop, Step, fires, ends, stops, Reaches, here, next,
}

-- One run is under way exactly while the sweeper is busy, and its timer is set exactly until it is
-- stopped.
pub record IsExclusive (s : Sweeper) : Type 0 where
  pub one : s.running ≡ (if s.busy then 1 else 0)
  pub live : s.timer ≡ (if s.stopped then false else true)
  pub count : s.running ≤ s.started

tick-IsExclusive : (s : Sweeper) → IsExclusive s → IsExclusive (tick s)
unfolding tick
tick-IsExclusive s h = elim (Bool-cases (s.busy || s.stopped)) [
  | inl x ↦ rw (x, tick) h
  | inr x ↦
      let idle : s.busy ≡ false = ground arith in
      let none_running : s.running ≡ 0 = h.one ∙ rw idle refl in
      rw (x, tick)
        (record {
          one = rw none_running refl;
          live = h.live;
          count = let fewer = h.count in omega arith;
        })
]

finish_sweep-IsExclusive :
    (left : ℕ) (answer : Outcome ℕ) (s : Sweeper)
    → s.running ≡ left + 1
    → IsExclusive s
    → IsExclusive (finish_sweep left answer s)
unfolding finish_sweep
finish_sweep-IsExclusive left answer s some_running h = elim (Bool-cases s.busy) [
  | inl busy ↦
      let one : s.running ≡ 1 = h.one ∙ rw busy refl in
      record { one = omega arith; live = h.live; count = let fewer = h.count in omega arith }
  | inr idle ↦ let one : s.running ≡ 0 = h.one ∙ rw idle refl in absurd (omega arith)
]

stop-IsExclusive : (s : Sweeper) → IsExclusive s → IsExclusive (stop s)
unfolding stop
stop-IsExclusive s h = elim (Bool-cases s.stopped) [
  | inl x ↦
      let off : s.timer ≡ false = h.live ∙ rw x refl in
      rw (x, stop) (record { one = h.one; live = off; count = h.count })
  | inr x ↦ rw (x, stop) (record { one = h.one; live = refl; count = h.count })
]

Step-IsExclusive : {s t : Sweeper} → Step s t → IsExclusive s → IsExclusive t
Step-IsExclusive {s} (fires live) h = tick-IsExclusive s h
Step-IsExclusive {s} (ends left answer running) h = finish_sweep-IsExclusive left answer s running h
Step-IsExclusive {s} stops h = stop-IsExclusive s h

Reaches-IsExclusive : {s t : Sweeper} → Reaches s t → IsExclusive s → IsExclusive t
Reaches-IsExclusive here h = h
Reaches-IsExclusive (next before step) h = Step-IsExclusive step (Reaches-IsExclusive before h)

Step-stopped :
    {s t : Sweeper} → Step s t → s.stopped ≡ true → (t.stopped ≡ true) × (t.started ≡ s.started)
unfolding tick finish_sweep stop
Step-stopped {s} (fires live) h = ground arith
Step-stopped {s} (ends left answer running) h = (h, refl)
Step-stopped {s} stops h = ground arith

Reaches-stopped :
    {s t : Sweeper} → Reaches s t → s.stopped ≡ true → (t.stopped ≡ true) × (t.started ≡ s.started)
Reaches-stopped here h = (h, refl)
Reaches-stopped (next before step) h =
    let (stopped, same) = Reaches-stopped before h in
    let (after, kept) = Step-stopped step stopped in (after, kept ∙ same)

-- In every state that a sweeper gets to, at most one run of its task is under way, and one is
-- exactly while the sweeper is busy; the timer is set exactly until it is stopped; and once it is
-- stopped, no later state has started another run.
pub Reaches-sweeper :
    (s t : Sweeper)
    → Reaches start_sweeper s
    → Reaches s t
    → (s.running ≡ (if s.busy then 1 else 0))
      × (s.timer ≡ (if s.stopped then false else true))
      × ((s.stopped ≡ false) ⊎ (t.started ≡ s.started))
Reaches-sweeper s t reached later =
    let h = Reaches-IsExclusive reached (record { one = refl; live = refl; count = omega arith }) in
    let restarted : (s.stopped ≡ false) ⊎ (t.started ≡ s.started) = elim (Bool-cases s.stopped) [
      | inl x ↦ inr (Reaches-stopped later x).1
      | inr x ↦ inl x
    ] in
    (h.one, h.live, restarted)
