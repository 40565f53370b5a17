-- ===== src/Power/Events.antt =====
-- plugin/DSPwrEventListener.cpp: the queue of power events between the power manager's callback and the
-- handling thread.
pub mod Fifo
pub mod Wakeup
use entservices_devicesettin.Prelude.{ℕ, zero, suc, ◌≡◌, Bool, true, false, List, [], ◌∷◌, ◌++◌}
use entservices_devicesettin.Power.{PowerState, is_nil}

-- DSMgr_Power_Event_State_t
pub record PowerEvent : Type 0 where
  pub current_state : PowerState
  pub new_state : PowerState

-- PwrEventHandlingThreadFunc. `deciding` holds _pwrEventMutexLock and has read whether the queue is empty;
-- `waiting` is blocked in pthread_cond_wait and `woken` is back from it, without the lock; `handling` is in
-- HandlePwrEventData.
pub data Phase : Type 0 where
  top : Phase
  deciding : Bool → Phase
  waiting woken draining : Phase
  handling : PowerEvent → Phase
  ended : Phase

-- `unsignalled` counts the callbacks that have put their event in and not signalled yet; `received` and
-- `handled` list the events put in and those handled, the oldest first.
pub record Queue : Type 0 where
  pub queue : List PowerEvent
  pub stop_thread : Bool
  pub phase : Phase
  pub unsignalled : ℕ
  pub received : List PowerEvent
  pub handled : List PowerEvent

abbrev pub holds_lock : Phase → Bool
holds_lock (deciding empty) = true
holds_lock _ = false

-- pthread_cond_signal: the thread that waits is woken.
abbrev pub signalled : Phase → Phase
signalled waiting = woken
signalled phase = phase

abbrev pub StartsOver : Phase → Type 0
StartsOver top = Unit
StartsOver woken = Unit
StartsOver _ = ⊥

-- After the test of the wait loop and of _stopThread.
abbrev pub decided : Bool → Bool → Phase
decided true empty = ended
decided false true = waiting
decided false false = draining

unfoldable pub push : PowerEvent → Queue → Queue
push event q = record q {
  queue = q.queue ++ (event ∷ []);
  received = q.received ++ (event ∷ []);
  unsignalled = suc q.unsignalled;
}

unfoldable pub finish : PowerEvent → Queue → Queue
finish event q = record q { phase = draining; handled = q.handled ++ (event ∷ []) }

-- onPowerModeChanged is `put` and then `signal`, which takes _pwrEventMutexLock; `request_stop` is the start
-- of Deinit and `clear` what it does after the thread has been joined. The others are the thread's steps.
pub data Step : Queue → Queue → Type 0 where
  put : (event : PowerEvent) (q : Queue) → Step q (push event q)
  signal :
      (n : ℕ) (q : Queue)
      → q.unsignalled ≡ suc n
      → holds_lock q.phase ≡ false
      → Step q (record q { unsignalled = n; phase = signalled q.phase })
  request_stop :
      (q : Queue)
      → holds_lock q.phase ≡ false
      → Step q (record q { stop_thread = true; phase = signalled q.phase })
  spurious : (q : Queue) → q.phase ≡ waiting → Step q (record q { phase = woken })
  read_empty :
      (q : Queue) → StartsOver q.phase → Step q (record q { phase = deciding (is_nil q.queue) })
  decide :
      (empty : Bool) (q : Queue)
      → q.phase ≡ deciding empty
      → Step q (record q { phase = decided q.stop_thread empty })
  take_front :
      (event : PowerEvent) (rest : List PowerEvent) (q : Queue)
      → q.phase ≡ draining
      → q.queue ≡ event ∷ rest
      → Step q (record q { phase = handling event; queue = rest })
  drained : (q : Queue) → q.phase ≡ draining → q.queue ≡ [] → Step q (record q { phase = top })
  handle : (event : PowerEvent) (q : Queue) → q.phase ≡ handling event → Step q (finish event q)
  clear : (q : Queue) → q.phase ≡ ended → Step q (record q { queue = [] })

abbrev pub initial : Queue
initial = record {
  queue = [];
  stop_thread = false;
  phase = top;
  unsignalled = 0;
  received = [];
  handled = [];
}

pub data Reach : Queue → Type 0 where
  start : Reach initial
  step : (q r : Queue) → Reach q → Step q r → Reach r
