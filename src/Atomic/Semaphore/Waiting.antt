-- ===== src/Atomic/Semaphore/Waiting.antt =====
-- sema_wait (atomic/semaphore.c): its stretches keep the counts and the queue in order.
use re_xvapor.Base.{
  ℕ, ◌+◌, ◌^◌, ◌≡◌, ◌≢◌, refl, sym, ◌∙◌, ap, subst, Bool, true, false, Bool-cases, List, ◌∷◌, ◌++◌,
  length, length-append, All, All-append, All-append_left, All-append_right, ==→eq, ==→ne, NotIn,
  Distinct, Distinct-middle, update, update_self, update_ne, ◌==◌, arith, inl, inr,
}
use re_xvapor.Atomic.Semaphore.{
  running, sleeping, runnable, Sema, negative, dec, cond_wait, sema_wait, sema_wait_woken,
}
use re_xvapor.Atomic.Semaphore.Balance.{
  System, waits, resumes, deficit, surplus, IsAsleep, IsReady, IsSound, All-besides, NotIn-state,
  length-snoc, cond_wait_threads,
}

module _ (n t : ℕ) (y : System) (h : IsSound n y) where
  waits_sleeps :
      negative (dec y.sema.value) ≡ true
      → waits t y ≡ record y { sema = cond_wait t (record (y.sema) { value = dec y.sema.value }) }
  unfolding waits sema_wait
  waits_sleeps e = rw e refl

  waits_passes :
      negative (dec y.sema.value) ≡ false
      → waits t y
        ≡ record y { sema = record (y.sema) { value = dec y.sema.value }; passed = y.passed + 1 }
  unfolding waits sema_wait
  waits_passes e = rw e refl

  slept-IsSound :
      y.sema.state t ≡ running
      → y.sema.value ≢ 2 ^ 31
      → negative (dec y.sema.value) ≡ true
      → IsSound n (record y { sema = cond_wait t (record (y.sema) { value = dec y.sema.value }) })
  unfolding cond_wait
  slept-IsSound run low neg =
      let v = y.sema.value in
      let (asleep, ready, distinct) =
        cond_wait_threads y.sema t (dec v) y.woken h.asleep h.ready h.distinct run in
      let more : deficit (dec v) ≡ deficit v + 1 = ground (arith, h.value_fits) in
      let none_left : surplus (dec v) ≡ surplus v = ground (arith, h.value_fits) in
      record {
        value_fits = omega arith;
        wakeup_fits = h.wakeup_fits;
        balance = omega (arith, more, h.balance, length-snoc t y.sema.waiting);
        permits = omega (arith, none_left, h.permits);
        owed = h.owed;
        asleep = asleep;
        ready = ready;
        distinct = distinct;
        distinct_woken = h.distinct_woken;
      }

  passed-IsSound :
      y.sema.value ≢ 2 ^ 31
      → negative (dec y.sema.value) ≡ false
      → IsSound n
          (record y { sema = record (y.sema) { value = dec y.sema.value }; passed = y.passed + 1 })
  passed-IsSound low pos =
      let v = y.sema.value in
      let same : deficit (dec v) ≡ deficit v = ground (arith, h.value_fits) in
      let less : surplus (dec v) + 1 ≡ surplus v = ground (arith, h.value_fits) in
      record {
        value_fits = omega arith;
        wakeup_fits = h.wakeup_fits;
        balance = omega (arith, same, h.balance);
        permits = omega (arith, less, h.permits);
        owed = h.owed;
        asleep = h.asleep;
        ready = h.ready;
        distinct = h.distinct;
        distinct_woken = h.distinct_woken;
      }

  pub waits-IsSound : y.sema.state t ≡ running → y.sema.value ≢ 2 ^ 31 → IsSound n (waits t y)
  waits-IsSound run low = elim (Bool-cases (negative (dec y.sema.value))) [
    | inl neg ↦ subst (IsSound n) (sym (waits_sleeps neg)) (slept-IsSound run low neg)
    | inr pos ↦ subst (IsSound n) (sym (waits_passes pos)) (passed-IsSound low pos)
  ]

-- A woken thread runs.
abbrev run_state : ℕ → System → Sema
run_state t y = record (y.sema) { state = update y.sema.state t running }

module _ (n t : ℕ) (xs ys : List ℕ) (y : System) (h : IsSound n y)
    (split : y.woken ≡ xs ++ t ∷ ys) where
  resumes_killed :
      resumes t true (xs ++ ys) y
      ≡ record y { sema = run_state t y; woken = xs ++ ys; lost = y.lost + 1 }
  unfolding resumes
  resumes_killed = refl

  resumes_sleeps :
      y.sema.wakeup ≡ 0
      → resumes t false (xs ++ ys) y
        ≡ record y { sema = cond_wait t (run_state t y); woken = xs ++ ys }
  unfolding resumes sema_wait_woken
  resumes_sleeps e = rw e refl

  resumes_passes :
      (y.sema.wakeup == 0) ≡ false
      → resumes t false (xs ++ ys) y ≡ record y {
        sema = record (run_state t y) { wakeup = dec y.sema.wakeup };
        woken = xs ++ ys;
        passed = y.passed + 1;
      }
  unfolding resumes sema_wait_woken
  resumes_passes e = rw e refl

  one_less : length y.woken ≡ length (xs ++ ys) + 1
  one_less = ap length split ∙ omega (arith, length-append xs (t ∷ ys), length-append xs ys)

  IsReady-split : All (IsReady y.sema) (xs ++ t ∷ ys)
  IsReady-split = subst (All (IsReady y.sema)) split h.ready

  Distinct-split : Distinct (xs ++ ys) × NotIn t (xs ++ ys)
  Distinct-split = Distinct-middle t xs ys (subst Distinct split h.distinct_woken)

  was_ready : y.sema.state t ≡ runnable
  was_ready = (All-append_right (IsReady y.sema) xs (t ∷ ys) IsReady-split).0

  awake : y.sema.state t ≢ sleeping
  awake e = cc (sym was_ready ∙ e)

  -- The other threads keep their states.
  others-IsAsleep : All (IsAsleep (run_state t y)) y.sema.waiting
  others-IsAsleep =
      All-besides (IsAsleep y.sema) _ t y.sema.waiting
        (NotIn-state y.sema.state sleeping (IsAsleep y.sema) t y.sema.waiting (λ x a. a.0) awake
          h.asleep)
        (λ x ne a. (update_ne y.sema.state t x running ne ∙ a.0, a.1)) h.asleep

  others-IsReady : All (IsReady (run_state t y)) (xs ++ ys)
  others-IsReady =
      All-besides (IsReady y.sema) _ t (xs ++ ys) Distinct-split.1
        (λ x ne a. update_ne y.sema.state t x running ne ∙ a)
        (All-append (IsReady y.sema) xs ys
          (All-append_left (IsReady y.sema) xs (t ∷ ys) IsReady-split)
          (All-append_right (IsReady y.sema) xs (t ∷ ys) IsReady-split).1)

  killed-IsSound :
      IsSound n (record y { sema = run_state t y; woken = xs ++ ys; lost = y.lost + 1 })
  killed-IsSound = record {
    value_fits = h.value_fits;
    wakeup_fits = h.wakeup_fits;
    balance = omega (arith, h.balance, one_less);
    permits = h.permits;
    owed = omega (arith, h.owed, one_less);
    asleep = others-IsAsleep;
    ready = others-IsReady;
    distinct = h.distinct;
    distinct_woken = Distinct-split.0;
  }

  slept_again-IsSound :
      y.sema.wakeup ≡ 0
      → IsSound n (record y { sema = cond_wait t (run_state t y); woken = xs ++ ys })
  unfolding cond_wait
  slept_again-IsSound none_owed =
      let (asleep, ready, distinct) =
        cond_wait_threads (run_state t y) t y.sema.value (xs ++ ys) others-IsAsleep others-IsReady
          h.distinct (update_self y.sema.state t running) in
      record {
        value_fits = h.value_fits;
        wakeup_fits = h.wakeup_fits;
        balance = omega (arith, h.balance, one_less, length-snoc t y.sema.waiting);
        permits = h.permits;
        owed = omega (arith, none_owed);
        asleep = asleep;
        ready = ready;
        distinct = distinct;
        distinct_woken = Distinct-split.0;
      }

  took-IsSound :
      y.sema.wakeup ≢ 0
      → IsSound n (record y {
        sema = record (run_state t y) { wakeup = dec y.sema.wakeup };
        woken = xs ++ ys;
        passed = y.passed + 1;
      })
  took-IsSound owes =
      let less : dec y.sema.wakeup + 1 ≡ y.sema.wakeup = omega (arith, h.wakeup_fits) in
      record {
        value_fits = h.value_fits;
        wakeup_fits = omega (arith, h.wakeup_fits, less);
        balance = omega (arith, h.balance, one_less, less);
        permits = omega (arith, h.permits, less);
        owed = omega (arith, h.owed, one_less, less);
        asleep = others-IsAsleep;
        ready = others-IsReady;
        distinct = h.distinct;
        distinct_woken = Distinct-split.0;
      }

  pub resumes-IsSound : (killed : Bool) → IsSound n (resumes t killed (xs ++ ys) y)
  resumes-IsSound true = subst (IsSound n) (sym resumes_killed) killed-IsSound
  resumes-IsSound false = elim (Bool-cases (y.sema.wakeup == 0)) [
    | inl e ↦
        let none_owed = ==→eq _ _ e in
        subst (IsSound n) (sym (resumes_sleeps none_owed)) (slept_again-IsSound none_owed)
    | inr e ↦ subst (IsSound n) (sym (resumes_passes e)) (took-IsSound (==→ne _ _ e))
  ]
