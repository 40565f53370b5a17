-- ===== src/Power/Events/Wakeup.antt =====
-- No wake-up of the handling thread is lost.
use entservices_devicesettin.Prelude.{
  ◌<◌, ◌≡◌, refl, sym, ap, ◌∙◌, ◌⊎◌, inl, inr, Bool, true, false, List, [], ◌∷◌, arith,
}
use entservices_devicesettin.Power.{is_nil}
use entservices_devicesettin.Power.Events.{
  PowerEvent, Phase, top, deciding, waiting, woken, draining, handling, ended, Queue, push, finish,
  holds_lock, signalled, decided, Step, put, signal, request_stop, spurious, read_empty, decide,
  take_front, drained, handle, clear, Reach, start, step,
}

-- The thread is blocked, or about to be, on a queue that it found empty.
abbrev pub is_quiet : Phase → Bool
is_quiet waiting = true
is_quiet (deciding true) = true
is_quiet _ = false

pub record IsAwake (q : Queue) : Type 0 where
  pub queued : is_quiet q.phase ≡ true → (q.queue ≡ []) ⊎ (0 < q.unsignalled)
  pub running : q.phase ≡ waiting → q.stop_thread ≡ false

not_waiting : (phase : Phase) → is_quiet phase ≡ false → phase ≡ waiting → ⊥
not_waiting phase e h = true_false (sym (ap is_quiet h) ∙ e)
  where
    true_false : true ≡ false → ⊥
    true_false h = cc

-- A phase in which the thread is on its way.
busy : (q : Queue) → is_quiet q.phase ≡ false → IsAwake q
busy q e = record { queued = λ h. absurd (cc); running = λ h. absurd (not_waiting q.phase e h) }

signalled_busy : (phase : Phase) → holds_lock phase ≡ false → is_quiet (signalled phase) ≡ false
signalled_busy waiting h = refl
signalled_busy top h = refl
signalled_busy (deciding empty) h = absurd (cc)
signalled_busy woken h = refl
signalled_busy draining h = refl
signalled_busy (handling event) h = refl
signalled_busy ended h = refl

is_nil_empty : (queue : List PowerEvent) → is_quiet (deciding (is_nil queue)) ≡ true → queue ≡ []
is_nil_empty [] h = refl
is_nil_empty (e ∷ queue) h = absurd (cc)

read-IsAwake : (q : Queue) → IsAwake (record q { phase = deciding (is_nil q.queue) })
read-IsAwake q = record { queued = λ h. inl (is_nil_empty q.queue h); running = λ h. absurd (cc) }

decide-IsAwake :
    (empty stop_thread : Bool) (q : Queue)
    → q.phase ≡ deciding empty
    → q.stop_thread ≡ stop_thread
    → IsAwake q
    → IsAwake (record q { phase = decided stop_thread empty })
decide-IsAwake empty true q e s a = busy _ refl
decide-IsAwake false false q e s a = busy _ refl
decide-IsAwake true false q e s a = record {
  queued = λ _. a.queued (ap is_quiet e);
  running = λ _. s;
}

Step-IsAwake : (q r : Queue) → Step q r → IsAwake q → IsAwake r
unfolding push finish
Step-IsAwake q r (put event _) a = record { queued = λ h. inr (omega arith); running = a.running }
Step-IsAwake q r (signal n _ e h) a = busy _ (signalled_busy q.phase h)
Step-IsAwake q r (request_stop _ h) a = busy _ (signalled_busy q.phase h)
Step-IsAwake q r (spurious _ e) a = busy _ refl
Step-IsAwake q r (read_empty _ s) a = read-IsAwake q
Step-IsAwake q r (decide empty _ e) a = decide-IsAwake empty q.stop_thread q e refl a
Step-IsAwake q r (take_front event rest _ e k) a = busy _ refl
Step-IsAwake q r (drained _ e k) a = busy _ refl
Step-IsAwake q r (handle event _ e) a = busy _ refl
Step-IsAwake q r (clear _ e) a = record { queued = λ h. inl refl; running = a.running }

-- In every interleaving, the handling thread is blocked on the condition with an event in the queue only
-- while a callback is still to signal it, and it is never blocked once the shutdown has asked it to stop,
-- so the shutdown's join does not wait on a blocked thread.
pub Reach-IsAwake : (q : Queue) → Reach q → IsAwake q
Reach-IsAwake q start = busy _ refl
Reach-IsAwake r (step q _ h s) = Step-IsAwake q r s (Reach-IsAwake q h)
