-- ===== src/Timer.antt =====
-- The timer of src/timer.c: one thread counts time slots, and the devices (the CPUs and the loader)
-- wait for each other at the end of each slot. A step is what one thread does under one lock, or one
-- access to a variable without a lock; printing and the creation of the thread are left out.
pub mod Barrier
pub mod Ending
mod Examples
use os_assignment.Base.{
  ℕ, zero, suc, ◌+◌, ◌-◌, ◌<◌, ◌≡◌, ◌≢◌, Option, none, some, Bool, true, false, ◌==◌, ◌||◌,
  if◌then◌else◌,
}

-- struct timer_id_t. `asleep` says that the device waits in the loop of `next_slot`, and `calls`
-- counts its calls of `next_slot`; the source keeps neither.
pub record Device : Type 0 where
  pub done : Bool
  pub fsh : Bool
  pub asleep : Bool
  pub calls : ℕ

-- Where `timer_routine` is: before the test of its loop; before it looks at device `i`, with its
-- variables `fsh` and `event`; before it lets device `i` continue; or behind its loop.
pub data Phase : Type 0 where
  tests : Phase
  collects releases : ℕ → ℕ → ℕ → Phase
  over : Phase

-- `devs` holds the devices by their position in `dev_list`, which has `count` entries.
pub record Timer : Type 0 where
  pub devs : ℕ → Device
  pub count : ℕ
  pub phase : Phase
  pub time : ℕ
  pub timer_started : Bool
  pub timer_stop : Bool

abbrev pub new_device : Device
new_device = record { done = false; fsh = false; asleep = false; calls = 0 }

-- `attach_event`: NULL once the timer is started.
unfoldable pub attach_event : Timer → Option Timer
attach_event t =
    if t.timer_started
    then none
    else (some (record t {
      devs = λ i. if i == 0 then new_device else t.devs (i - 1);
      count = t.count + 1;
    }))

unfoldable pub start_timer : Timer → Timer
start_timer t = record t { timer_started = true; phase = tests }

unfoldable pub put_device : Timer → ℕ → Device → Timer
put_device t i d = record t { devs = λ j. if j == i then d else t.devs j }

-- The first half of `next_slot`, and its end.
abbrev pub call_next_slot : Device → Device
call_next_slot d = record d { done = true; asleep = true; calls = d.calls + 1 }

abbrev pub leave_next_slot : Device → Device
leave_next_slot d = record d { asleep = false }

abbrev pub detach_event : Device → Device
detach_event d = record d { fsh = true }

-- The two halves of `stop_timer`, before and after it waits for the thread.
abbrev pub set_timer_stop : Timer → Timer
set_timer_stop t = record t { timer_stop = true }

abbrev pub free_dev_list : Timer → Timer
free_dev_list t = record t { count = 0 }

-- A device works when it is not in `next_slot` and not detached.
abbrev pub Works : Device → Type 0
Works d = (d.asleep ≡ false) × (d.fsh ≡ false)

-- The steps of the devices, of `timer_routine` and of `stop_timer`, which sets its flag, waits for
-- the thread and frees the devices; what a device does after that is undefined, and no step.
pub data Step : Timer → Timer → Type 0 where
  calls_next_slot :
      {t : Timer} (i : ℕ)
      → i < t.count
      → Works (t.devs i)
      → Step t (put_device t i (call_next_slot (t.devs i)))
  leaves_next_slot :
      {t : Timer} (i : ℕ)
      → i < t.count
      → (t.devs i).asleep ≡ true
      → (t.devs i).done ≡ false
      → Step t (put_device t i (leave_next_slot (t.devs i)))
  detaches :
      {t : Timer} (i : ℕ)
      → i < t.count
      → Works (t.devs i)
      → Step t (put_device t i (detach_event (t.devs i)))
  stops : {t : Timer} → Step t (set_timer_stop t)
  frees : {t : Timer} → t.phase ≡ over → t.timer_stop ≡ true → Step t (free_dev_list t)
  enters :
      {t : Timer}
      → t.phase ≡ tests
      → t.timer_stop ≡ false
      → Step t (record t { phase = collects 0 0 0 })
  leaves : {t : Timer} → t.phase ≡ tests → t.timer_stop ≡ true → Step t (record t { phase = over })
  sees :
      {t : Timer} (i fsh event : ℕ)
      → t.phase ≡ collects i fsh event
      → i < t.count
      → ((t.devs i).done || (t.devs i).fsh) ≡ true
      → Step t (record t {
        phase = collects (i + 1) (if (t.devs i).fsh then fsh + 1 else fsh) (event + 1);
      })
  ticks :
      {t : Timer} (fsh event : ℕ)
      → t.phase ≡ collects t.count fsh event
      → Step t (record t { phase = releases 0 fsh event; time = t.time + 1 })
  lets_continue :
      {t : Timer} (i fsh event : ℕ)
      → t.phase ≡ releases i fsh event
      → i < t.count
      → Step t (record (put_device t i (record (t.devs i) { done = false })) {
        phase = releases (i + 1) fsh event;
      })
  goes_on :
      {t : Timer} (fsh event : ℕ)
      → t.phase ≡ releases t.count fsh event
      → fsh ≢ event
      → Step t (record t { phase = tests })
  ends :
      {t : Timer} (fsh event : ℕ)
      → t.phase ≡ releases t.count fsh event
      → fsh ≡ event
      → Step t (record t { phase = over })

-- Any number of steps.
pub data Reaches (t : Timer) : Timer → Type 0 where
  here : Reaches t t
  later : {u v : Timer} → Reaches t u → Step u v → Reaches t v

-- Before the timer is started: `n` devices attached.
abbrev pub attached : ℕ → Timer
attached n = record {
  devs = λ i. new_device;
  count = n;
  phase = over;
  time = 0;
  timer_started = false;
  timer_stop = false;
}
