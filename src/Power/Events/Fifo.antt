-- ===== src/Power/Events/Fifo.antt =====
-- No event is lost, handled twice or out of turn.
use entservices_devicesettin.Prelude.{
  ℕ, ◌≡◌, refl, sym, ap, ap₂, subst, ◌∙◌, ◌⊎◌, inl, inr, Bool, true, false, List, [], ◌∷◌, ◌++◌,
}
use entservices_devicesettin.Power.{is_nil}
use entservices_devicesettin.Power.Events.{
  PowerEvent, Phase, top, deciding, waiting, woken, draining, handling, ended, Queue, push, finish,
  signalled, decided, StartsOver, Step, put, signal, request_stop, spurious, read_empty, decide,
  take_front, drained, handle, clear, Reach, start, step,
}

++-assoc : {A : Type 0} (xs ys zs : List A) → (xs ++ ys) ++ zs ≡ xs ++ (ys ++ zs)
++-assoc [] ys zs = refl
++-assoc (x ∷ xs) ys zs = ap (λ l. x ∷ l) (++-assoc xs ys zs)

++-nil : {A : Type 0} (xs : List A) → xs ++ [] ≡ xs
++-nil [] = refl
++-nil (x ∷ xs) = ap (λ l. x ∷ l) (++-nil xs)

++-end :
    {A : Type 0} (xs bs cs ds es : List A)
    → (xs ++ (bs ++ (cs ++ ds))) ++ es ≡ xs ++ (bs ++ (cs ++ (ds ++ es)))
++-end xs bs cs ds es =
    ++-assoc xs (bs ++ (cs ++ ds)) es
    ∙ ap (λ l. xs ++ l) (++-assoc bs (cs ++ ds) es ∙ ap (λ l. bs ++ l) (++-assoc cs ds es))

-- The event that the thread is handling.
abbrev pub in_hand : Phase → List PowerEvent
in_hand (handling event) = event ∷ []
in_hand _ = []

-- What was put in, in its order, is what was handled, then what is in hand, then what Deinit dropped
-- after the thread had ended, then what is in the queue.
pub record InOrder (q : Queue) : Type 0 where
  pub dropped : List PowerEvent
  pub dropped_at_end : (dropped ≡ []) ⊎ (q.phase ≡ ended)
  pub order : q.received ≡ q.handled ++ (in_hand q.phase ++ (dropped ++ q.queue))

-- A step of the thread that takes nothing into its hand and puts nothing down.
same_hand :
    (q : Queue) (phase : Phase) (stop_thread : Bool) (unsignalled : ℕ)
    → in_hand phase ≡ in_hand q.phase
    → (q.phase ≡ ended → phase ≡ ended)
    → InOrder q
    → InOrder (record q { phase = phase; stop_thread = stop_thread; unsignalled = unsignalled })
same_hand q phase stop_thread unsignalled e k o = record {
  dropped = o.dropped;
  dropped_at_end = elim o.dropped_at_end [ inl h ↦ inl h | inr h ↦ inr (k h) ];
  order = o.order ∙ ap (λ l. q.handled ++ (l ++ (o.dropped ++ q.queue))) (sym e);
}

in_hand-signalled : (phase : Phase) → in_hand (signalled phase) ≡ in_hand phase
in_hand-signalled waiting = refl
in_hand-signalled top = refl
in_hand-signalled (deciding empty) = refl
in_hand-signalled woken = refl
in_hand-signalled draining = refl
in_hand-signalled (handling event) = refl
in_hand-signalled ended = refl

in_hand-StartsOver : (phase : Phase) → StartsOver phase → in_hand phase ≡ []
in_hand-StartsOver top s = refl
in_hand-StartsOver woken s = refl
in_hand-StartsOver _ s = absurd s

StartsOver-not_ended : (phase : Phase) → StartsOver phase → phase ≡ ended → ⊥
StartsOver-not_ended phase s e = subst StartsOver e s

in_hand-decided : (stop_thread empty : Bool) → in_hand (decided stop_thread empty) ≡ []
in_hand-decided true empty = refl
in_hand-decided false true = refl
in_hand-decided false false = refl

put-InOrder : (event : PowerEvent) (q : Queue) → InOrder q → InOrder (push event q)
unfolding push
put-InOrder event q o = record {
  dropped = o.dropped;
  dropped_at_end = o.dropped_at_end;
  order =
      ap (λ l. l ++ (event ∷ [])) o.order
      ∙ ++-end q.handled (in_hand q.phase) o.dropped q.queue (event ∷ []);
}

finish-InOrder :
    (event : PowerEvent) (q : Queue)
    → q.phase ≡ handling event
    → InOrder q
    → InOrder (finish event q)
unfolding finish
finish-InOrder event q e o = record {
  dropped = o.dropped;
  dropped_at_end = elim o.dropped_at_end [ inl h ↦ inl h | inr h ↦ absurd (cc) ];
  order =
      o.order
      ∙ ap (λ p. q.handled ++ (in_hand p ++ (o.dropped ++ q.queue))) e
      ∙ sym (++-assoc q.handled (event ∷ []) (o.dropped ++ q.queue));
}

take_front-InOrder :
    (event : PowerEvent) (rest : List PowerEvent) (q : Queue)
    → q.phase ≡ draining
    → q.queue ≡ event ∷ rest
    → InOrder q
    → InOrder (record q { phase = handling event; queue = rest })
take_front-InOrder event rest q e k o = record {
  dropped = [];
  dropped_at_end = inl refl;
  order =
      o.order
      ∙ ap (λ p. q.handled ++ (in_hand p ++ (o.dropped ++ q.queue))) e
      ∙ ap₂ (λ d l. q.handled ++ (d ++ l)) nothing_dropped k;
}
  where
    nothing_dropped : o.dropped ≡ []
    nothing_dropped = elim o.dropped_at_end [ inl h ↦ h | inr h ↦ absurd (cc) ]

clear-InOrder : (q : Queue) → q.phase ≡ ended → InOrder q → InOrder (record q { queue = [] })
clear-InOrder q e o = record {
  dropped = o.dropped ++ q.queue;
  dropped_at_end = inr e;
  order =
      o.order ∙ ap (λ l. q.handled ++ (in_hand q.phase ++ l)) (sym (++-nil (o.dropped ++ q.queue)));
}

Step-InOrder : (q r : Queue) → Step q r → InOrder q → InOrder r
Step-InOrder q r (put event _) o = put-InOrder event q o
Step-InOrder q r (signal n _ e h) o =
    same_hand q (signalled q.phase) q.stop_thread n (in_hand-signalled q.phase)
      (λ k. ap signalled k) o
Step-InOrder q r (request_stop _ h) o =
    same_hand q (signalled q.phase) true q.unsignalled (in_hand-signalled q.phase)
      (λ k. ap signalled k) o
Step-InOrder q r (spurious _ e) o =
    same_hand q woken q.stop_thread q.unsignalled (sym (ap in_hand e)) (λ k. absurd (cc)) o
Step-InOrder q r (read_empty _ s) o =
    same_hand q (deciding (is_nil q.queue)) q.stop_thread q.unsignalled
      (sym (in_hand-StartsOver q.phase s)) (λ k. absurd (StartsOver-not_ended q.phase s k)) o
Step-InOrder q r (decide empty _ e) o =
    same_hand q (decided q.stop_thread empty) q.stop_thread q.unsignalled
      (in_hand-decided q.stop_thread empty ∙ sym (ap in_hand e)) (λ k. absurd (cc)) o
Step-InOrder q r (take_front event rest _ e k) o = take_front-InOrder event rest q e k o
Step-InOrder q r (drained _ e k) o =
    same_hand q top q.stop_thread q.unsignalled (sym (ap in_hand e)) (λ k. absurd (cc)) o
Step-InOrder q r (handle event _ e) o = finish-InOrder event q e o
Step-InOrder q r (clear _ e) o = clear-InOrder q e o

-- In every interleaving of the callbacks, the handling thread and the shutdown, the power events are
-- handled in the order in which they came, each once: what came in is what was handled, then the event in
-- hand, then what is queued, but for events that the shutdown drops, and it drops them only once the
-- thread has ended.
pub Reach-InOrder : (q : Queue) → Reach q → InOrder q
Reach-InOrder q start = record { dropped = []; dropped_at_end = inl refl; order = refl }
Reach-InOrder r (step q _ h s) = Step-InOrder q r s (Reach-InOrder q h)
