-- ===== src/DataSocket/Ping.antt =====
-- src/net/DataSocket.cpp: the check that a connection receives, and the timer of src/timer/Timer.cpp that
-- calls it. `mTimer` is a weak pointer: it is empty once no one owns the timer any more.
use netxy.Base.{ℕ, ◌≡◌, refl, Bool, true, false, not, Option, none, some, if◌then◌else◌}

-- `mRecvData`, `mCheckTime` (`none` for a time that is not positive), and what `mTimer` points to: a timer
-- that someone owns, with its `mActive`, or nothing
pub record Pinger : Type 0 where
  pub recv_data : Bool
  pub check_time : Option ℕ
  pub timer : Option Bool

-- `startPingCheckTimer`
pub start_ping_check_timer : Pinger → Pinger
start_ping_check_timer p = elim p.timer [
  | none ↦ elim p.check_time [ none ↦ p | some t ↦ record p { timer = some true } ]
  | some active ↦ p
]

-- `PingCheck`, and whether it closes the connection
pub ping_check : Pinger → Bool × Pinger
ping_check p =
    if p.recv_data
    then (false, start_ping_check_timer (record p { recv_data = false }))
    else (true, p)

-- `setCheckTime` for a positive time, and for -1
pub set_check_time : Option ℕ → Pinger → Pinger
set_check_time (some overtime) p = start_ping_check_timer (record p { check_time = some overtime })
set_check_time none p = elim p.timer [
  | none ↦ record p { check_time = none }
  | some active ↦ record p { timer = some false; check_time = none }
]

-- `schedule`, when the timer is due: it owns the timer while it calls it, and no one does after
pub fire : Bool → Pinger → Bool × Pinger
fire active p =
    let called = if active then ping_check p else (false, p) in
    (called.0, record called.1 { timer = none })

-- When the timer of a connection is due, `PingCheck` runs while the scheduler still owns the timer, so it
-- never starts another: a connection that received is not closed, one that did not is, and in both
-- cases no timer is left, although a check time is set.
fire_last :
    (recv_data : Bool) (check_time : ℕ)
    → fire true (record { recv_data = recv_data; check_time = some check_time; timer = some true })
      ≡ (not recv_data, record { recv_data = false; check_time = some check_time; timer = none })
unfolding fire ping_check start_ping_check_timer
fire_last true check_time = refl
fire_last false check_time = refl

-- A check time that is set while a timer is owned that was cancelled starts no timer: once that one is
-- due, nothing checks the connection, although a check time is set.
pub set_check_time_cancelled :
    (recv_data : Bool) (before : Option ℕ) (active : Bool) (overtime : ℕ)
    → fire false (
        set_check_time (some overtime) (
          set_check_time none
            (record { recv_data = recv_data; check_time = before; timer = some active })))
      ≡ (false, record { recv_data = recv_data; check_time = some overtime; timer = none })
unfolding fire set_check_time start_ping_check_timer
set_check_time_cancelled recv_data before active overtime = refl
