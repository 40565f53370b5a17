-- ===== src/Fpd/Service/Clients.antt =====
-- The list of the clients of the front panel.
use entservices_devicesettin.Prelude.{
  ℕ, suc, ◌+◌, ◌-◌, ◌≤◌, ◌≡◌, refl, sym, ap, subst, ◌∙◌, true, false, List, [], ◌∷◌, ◌++◌, map,
  Bytes, arith, ◌==◌, if◌then◌else◌, Bool-cases, if_true, if_false, inl, inr,
}
use entservices_devicesettin.Device.{error_none}
use entservices_devicesettin.Fpd.Service.{
  Client, is_registered, References, changed, Registry, registered, register, unregistered,
  erase_client, unregister, add_refs, notify_all, dispatch_fpd_event,
}

-- How often an object stands in the list.
abbrev pub occurrences : List Client → ℕ → ℕ
occurrences [] n = 0
occurrences (c ∷ cs) n = if c.1 == n then suc (occurrences cs n) else occurrences cs n

-- Every object is registered once at most, and the list holds one reference to each that is; `outside`
-- counts the references that others hold.
pub record IsConsistent (outside : References) (r : Registry) : Type 0 where
  pub once : (n : ℕ) → occurrences r.clients n ≤ 1
  pub counted : (n : ℕ) → r.references n ≡ outside n + occurrences r.clients n

occurrences-append :
    (cs : List Client) (c : Client) (n : ℕ)
    → occurrences (cs ++ (c ∷ [])) n ≡ occurrences cs n + occurrences (c ∷ []) n
occurrences-append [] c n = omega arith
occurrences-append (d ∷ cs) c n = ground (arith, occurrences-append cs c n)

not_registered : (cs : List Client) (n : ℕ) → is_registered cs n ≡ false → occurrences cs n ≡ 0
unfolding is_registered
not_registered [] n h = refl
not_registered (c ∷ cs) n h = ground (arith, not_registered cs n)

occurrences-erase_client :
    (cs : List Client) (m n : ℕ)
    → is_registered cs m ≡ true
    → occurrences cs n ≡ occurrences (erase_client cs m) n + (if m == n then 1 else 0)
unfolding is_registered erase_client
occurrences-erase_client [] m n h = absurd (cc)
occurrences-erase_client (c ∷ cs) m n h = ground (arith, occurrences-erase_client cs m n)

registered-IsConsistent :
    (outside : References) (name : Bytes) (notification : ℕ) (r : Registry)
    → is_registered r.clients notification ≡ false
    → IsConsistent outside r
    → IsConsistent outside (registered name notification r)
registered-IsConsistent outside name notification r e c = record {
  once = λ n. ground (
    arith,
    occurrences-append r.clients (name, notification) n,
    not_registered r.clients notification e,
    c.once n,
  );
  counted = λ n. ground (arith, occurrences-append r.clients (name, notification) n, c.counted n);
}

unregistered-IsConsistent :
    (outside : References) (notification : ℕ) (r : Registry)
    → is_registered r.clients notification ≡ true
    → IsConsistent outside r
    → IsConsistent outside (unregistered notification r)
unregistered-IsConsistent outside notification r e c = record {
  once = λ n. omega (arith, occurrences-erase_client r.clients notification n e, c.once n);
  counted = λ n. ground (arith, occurrences-erase_client r.clients notification n e, c.counted n);
}

-- Registering an object, whether it is taken or refused, keeps every object registered once at most,
-- with one reference held for each that is.
pub register-IsConsistent :
    (outside : References) (name : Bytes) (notification : ℕ) (r : Registry)
    → IsConsistent outside r
    → IsConsistent outside (register name notification r).1
unfolding register
register-IsConsistent outside name notification r c =
    elim (Bool-cases (is_registered r.clients notification)) [
      | inl e ↦ subst (λ (x : ℕ × Registry). IsConsistent outside x.1) (sym (if_true _ _ _ e)) c
      | inr e ↦
          subst (λ (x : ℕ × Registry). IsConsistent outside x.1) (sym (if_false _ _ _ e))
            (registered-IsConsistent outside name notification r e c)
    ]

-- Unregistering does too.
pub unregister-IsConsistent :
    (outside : References) (notification : ℕ) (r : Registry)
    → IsConsistent outside r
    → IsConsistent outside (unregister notification r).1
unfolding unregister
unregister-IsConsistent outside notification r c =
    elim (Bool-cases (is_registered r.clients notification)) [
      | inl e ↦
          subst (λ (x : ℕ × Registry). IsConsistent outside x.1) (sym (if_true _ _ _ e))
            (unregistered-IsConsistent outside notification r e c)
      | inr e ↦ subst (λ (x : ℕ × Registry). IsConsistent outside x.1) (sym (if_false _ _ _ e)) c
    ]

erase-append :
    (cs : List Client) (name : Bytes) (n : ℕ)
    → is_registered cs n ≡ false
    → erase_client (cs ++ ((name, n) ∷ [])) n ≡ cs
unfolding is_registered erase_client
erase-append [] name n h = ground arith
erase-append (c ∷ cs) name n h = ground (arith, erase-append cs name n)

registered_last :
    (cs : List Client) (name : Bytes) (n : ℕ) → is_registered (cs ++ ((name, n) ∷ [])) n ≡ true
unfolding is_registered
registered_last [] name n = ground arith
registered_last (c ∷ cs) name n = ground (arith, registered_last cs name n)

-- An object that is not registered can be registered, and unregistering it then succeeds and gives back
-- the clients as they were.
pub unregister-register :
    (name : Bytes) (notification : ℕ) (r : Registry)
    → is_registered r.clients notification ≡ false
    → ((register name notification r).0 ≡ error_none)
      × (((unregister notification (register name notification r).1).0 ≡ error_none)
          × ((unregister notification (register name notification r).1).1.clients ≡ r.clients))
unfolding register unregister
unregister-register name notification r e =
    let s =
      if_false {A = ℕ × Registry} (is_registered r.clients notification) (1, r)
        (0, registered name notification r) e in
    let t =
      if_true {A = ℕ × Registry}
        (is_registered (r.clients ++ ((name, notification) ∷ [])) notification)
        (0, unregistered notification (registered name notification r))
        (1, registered name notification r) (registered_last r.clients name notification) in
    (
      ap (λ x. x.0) s,
      (
        ap (λ x. (unregister notification x.1).0) s ∙ ap (λ x. x.0) t,
        ap (λ x. (unregister notification x.1).1.clients) s
            ∙ ap (λ x. x.1.clients) t
            ∙ erase-append r.clients name notification e,
      ),
    )

-- The counts after the references are taken.
add_refs_count :
    (cs : List Client) (refs : References) (n : ℕ) → add_refs cs refs n ≡ refs n + occurrences cs n
unfolding add_refs
add_refs_count [] refs n = omega arith
add_refs_count (c ∷ cs) refs n = ground (arith, add_refs_count cs (changed refs c.1 (λ n. n + 1)) n)

notify_all_count :
    (cs : List Client) (refs : References) (n : ℕ)
    → (notify_all cs refs).1 n ≡ refs n - occurrences cs n
unfolding notify_all
notify_all_count [] refs n = omega arith
notify_all_count (c ∷ cs) refs n =
    ground (arith, notify_all_count cs (changed refs c.1 (λ n. n - 1)) n)

notify_all_called :
    (cs : List Client) (refs : References) → (notify_all cs refs).0 ≡ map (λ (c : Client). c.1) cs
unfolding notify_all
notify_all_called [] refs = refl
notify_all_called (c ∷ cs) refs =
    ap (λ l. c.1 ∷ l) (notify_all_called cs (changed refs c.1 (λ n. n - 1)))

-- An event calls each client once, in the order in which they registered, leaves the list as it is and
-- gives back every reference that it took.
pub dispatch_fpd_event-once :
    (r : Registry)
    → ((dispatch_fpd_event r).0 ≡ map (λ (c : Client). c.1) r.clients)
      × (((dispatch_fpd_event r).1.clients ≡ r.clients)
          × ((n : ℕ) → (dispatch_fpd_event r).1.references n ≡ r.references n))
unfolding dispatch_fpd_event
dispatch_fpd_event-once r = (
  notify_all_called r.clients (add_refs r.clients r.references),
  (
    refl,
    λ n. omega (
      arith,
      notify_all_count r.clients (add_refs r.clients r.references) n,
      add_refs_count r.clients r.references n,
    ),
  ),
)
