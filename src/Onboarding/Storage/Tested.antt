-- ===== src/Onboarding/Storage/Tested.antt =====
-- What an enabled save button says of the database that it would save.
use mcpxy.Prelude.{
  Bool, true, false, Option, none, some, List, [], ◌∷◌, ◌≡◌, refl, sym, ap, ◌∙◌, arith, ◌⊎◌, inl,
  inr, Option-cases, Bool-cases,
}
use mcpxy.Numbers.{Numbers}
use mcpxy.Api.Json.{Result}
use mcpxy.Api.Types.{OnboardingDatabaseInfo, OnboardingTestDatabaseResponse}
use mcpxy.Onboarding.Storage.{
  StorageForm, TestResult, Edit, pick_dialect, set_host, set_ack, edit, passed_test, is_remote,
  save_disabled, DatabaseRequest, target_of, build_body, Session, Event, edited, test_clicked,
  test_answered, can_test, start_test, finish_test, step, run, initial_session, test_result_of,
}

-- The acknowledgement is no part of the database.
abbrev pub IsAck : Edit → Type 0
IsAck (set_ack b) = Unit
IsAck _ = ⊥

save_enabled_inv :
    (busy : Bool) (f : StorageForm)
    → is_remote f ≡ true
    → save_disabled busy f ≡ false
    → (passed_test f.test_result ≡ true) × (f.ack ≡ true)
unfolding save_disabled
save_enabled_inv busy f r h = ground arith

module _ (numbers : Numbers) (info : Option OnboardingDatabaseInfo) where
  -- The user changes no field of the database while a test is on its way.
  abbrev pub IsQuiet : Session numbers → List (Event numbers) → Type 0
  IsQuiet s [] = Unit
  IsQuiet s (edited e ∷ events) =
      (IsAck e ⊎ (s.in_flight ≡ none)) × IsQuiet (step numbers info s (edited e)) events
  IsQuiet s (test_clicked ∷ events) = IsQuiet (step numbers info s test_clicked) events
  IsQuiet s (test_answered answer ∷ events) =
      IsQuiet (step numbers info s (test_answered answer)) events

  pub record Inv (s : Session numbers) : Type 0 where
    pub current : passed_test s.form.test_result ≡ true → s.tested ≡ some (target_of numbers s.form)
    pub asked :
        (request : DatabaseRequest numbers)
        → s.in_flight ≡ some request
        → request.target ≡ target_of numbers s.form

  edit-ack :
      (f : StorageForm) (e : Edit)
      → IsAck e
      → (target_of numbers (edit f e) ≡ target_of numbers f)
        × ((edit f e).test_result ≡ f.test_result)
  unfolding edit target_of
  edit-ack f (set_ack b) h = (refl, refl)
  edit-ack f (pick_dialect d) h = absurd h
  edit-ack f (set_host x) h = absurd h
  edit-ack f _ h = absurd h

  edit-reset : (f : StorageForm) (e : Edit) → IsAck e ⊎ (passed_test (edit f e).test_result ≡ false)
  unfolding edit passed_test
  edit-reset f (set_ack b) = inl tt
  edit-reset f (pick_dialect d) = inr refl
  edit-reset f _ = inr refl

  edited-Inv-ack :
      (s : Session numbers) (e : Edit) → IsAck e → Inv s → Inv (step numbers info s (edited e))
  unfolding step
  edited-Inv-ack s e ack v =
      let (same, kept) = edit-ack s.form e ack in
      record {
        current = λ p. rw same (v.current (rw kept at p));
        asked = λ request q. rw same (v.asked request q);
      }

  edited-Inv :
      (s : Session numbers) (e : Edit)
      → IsAck e ⊎ (s.in_flight ≡ none)
      → Inv s
      → Inv (step numbers info s (edited e))
  unfolding step
  edited-Inv s e (inl ack) v = edited-Inv-ack s e ack v
  edited-Inv s e (inr idle) v = elim (edit-reset s.form e) [
    | inl ack ↦ edited-Inv-ack s e ack v
    | inr reset ↦ record { current = λ p. cc; asked = λ request q. cc }
  ]

  target_of-test_result :
      (f : StorageForm) (r : Option TestResult)
      → target_of numbers (record f { test_result = r }) ≡ target_of numbers f
  unfolding target_of
  target_of-test_result f r = refl

  start_test-Inv : (s : Session numbers) → Inv s → Inv (start_test numbers s)
  unfolding start_test build_body passed_test
  start_test-Inv s v = record {
    current = λ p. cc;
    asked = λ request q. rw (target_of-test_result s.form none) (ground arith);
  }

  finish_test-Inv :
      (s : Session numbers) (answer : Result OnboardingTestDatabaseResponse)
      (request : DatabaseRequest numbers)
      → s.in_flight ≡ some request
      → Inv s
      → Inv (finish_test numbers answer s)
  unfolding finish_test
  finish_test-Inv s answer request e v =
      rw (e, finish_test)
        record {
          current = λ p. rw p (
              ap some (
                v.asked request e
                ∙ sym (target_of-test_result s.form (some (test_result_of answer)))));
          asked = λ r q. cc;
        }

  finish_test-Inv-idle :
      (s : Session numbers) (answer : Result OnboardingTestDatabaseResponse)
      → s.in_flight ≡ none
      → Inv s
      → Inv (finish_test numbers answer s)
  unfolding finish_test
  finish_test-Inv-idle s answer e v = rw (e, finish_test) v

  test_clicked-Inv : (s : Session numbers) → Inv s → Inv (step numbers info s test_clicked)
  unfolding step
  test_clicked-Inv s v = elim (Bool-cases (can_test numbers info s)) [
    | inl clear ↦ rw clear (start_test-Inv s v)
    | inr blocked ↦ rw blocked v
  ]

  test_answered-Inv :
      (s : Session numbers) (answer : Result OnboardingTestDatabaseResponse)
      → Inv s
      → Inv (step numbers info s (test_answered answer))
  unfolding step
  test_answered-Inv s answer v = elim (Option-cases s.in_flight) [
    | inl idle ↦ finish_test-Inv-idle s answer idle v
    | inr (request, e) ↦ finish_test-Inv s answer request e v
  ]

  run-Inv :
      (s : Session numbers) (events : List (Event numbers))
      → IsQuiet s events
      → Inv s
      → Inv (run numbers info s events)
  run-Inv s [] q v = v
  run-Inv s (edited e ∷ events) (h, q) v =
      run-Inv (step numbers info s (edited e)) events q (edited-Inv s e h v)
  run-Inv s (test_clicked ∷ events) q v =
      run-Inv (step numbers info s test_clicked) events q (test_clicked-Inv s v)
  run-Inv s (test_answered answer ∷ events) q v =
      run-Inv (step numbers info s (test_answered answer)) events q (test_answered-Inv s answer v)

  initial_session-Inv : Inv (initial_session numbers)
  unfolding initial_session passed_test
  initial_session-Inv = record { current = λ p. cc; asked = λ request q. cc }

  abbrev pub session : List (Event numbers) → Session numbers
  session events = run numbers info (initial_session numbers) events

  -- If the user leaves the fields alone while a test runs, then a save button that is enabled for
  -- a remote database means that exactly this database has passed its test and that the user has
  -- acknowledged the key.
  pub save_enabled-tested :
      (events : List (Event numbers))
      → IsQuiet (initial_session numbers) events
      → is_remote (session events).form ≡ true
      → save_disabled (session events).busy (session events).form ≡ false
      → ((session events).tested ≡ some (target_of numbers (session events).form))
        × ((session events).form.ack ≡ true)
  save_enabled-tested events q r h =
      let s = session events in
      let (passes, acked) = save_enabled_inv s.busy s.form r h in
      ((run-Inv (initial_session numbers) events q initial_session-Inv).current passes, acked)
