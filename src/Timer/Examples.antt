-- ===== src/Timer/Examples.antt =====
-- Two devices that do their job of the first slot, of which one is let on and calls again; and a
-- device that detaches.
use os_assignment.Base.{◌+◌, ◌≤◌, ◌≡◌, ◌⊎◌, refl, arith, true, some}
use os_assignment.Timer.{
  Timer, start_timer, attach_event, put_device, attached, Reaches, here, later, calls_next_slot,
  leaves_next_slot, enters, detaches, sees, ticks, lets_continue, ends,
}
use os_assignment.Timer.Barrier.{Reaches-barrier}
use os_assignment.Timer.Ending.{Detached, Reaches-ending}

two_attached : (t : Timer) × (attach_event (attached 1) ≡ some t) × (t.count ≡ 2)
unfolding attach_event
two_attached = (_, refl, refl)

abbrev one_ahead : (t : Timer) × Reaches (start_timer (attached 2)) t
unfolding start_timer put_device
one_ahead = (
  _,
  later
      (later
        (later
          (later
            (later
              (later
                (later
                  (later (later here (enters refl refl))
                    (calls_next_slot 0 (omega arith) (refl, refl)))
                  (calls_next_slot 1 (omega arith) (refl, refl)))
                (sees 0 0 0 refl (omega arith) refl))
              (sees 1 0 1 refl (omega arith) refl))
            (ticks 0 2 refl))
          (lets_continue 0 0 2 refl (omega arith)))
        (leaves_next_slot 0 (omega arith) refl refl))
      (calls_next_slot 0 (omega arith) (refl, refl)),
)

barrier_example :
    (1 ≤ (one_ahead.0.devs 0).calls)
    × ((one_ahead.0.devs 0).calls ≤ 1 + 1)
    × ((one_ahead.0.devs 0).calls ≤ (one_ahead.0.devs 1).calls + 1)
unfolding start_timer put_device
barrier_example =
    Reaches-barrier 2 one_ahead.0 one_ahead.1 0 1 (omega arith) (omega arith) refl refl

abbrev all_gone : (t : Timer) × Reaches (start_timer (attached 1)) t
unfolding start_timer put_device
all_gone = (
  _,
  later
      (later
        (later
          (later (later (later here (enters refl refl)) (detaches 0 (omega arith) (refl, refl)))
            (sees 0 0 0 refl (omega arith) refl))
          (ticks 1 1 refl))
        (lets_continue 0 1 1 refl (omega arith)))
      (ends 1 1 refl refl),
)

ending_example : (all_gone.0.timer_stop ≡ true) ⊎ Detached all_gone.0 1
unfolding start_timer put_device
ending_example = Reaches-ending 1 all_gone.0 all_gone.1 refl
