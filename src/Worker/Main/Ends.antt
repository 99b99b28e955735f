-- ===== src/Worker/Main/Ends.antt =====
-- When the worker ends without a crash.
use belajar_backend_go_v.Base.{
  ◌≡◌, ◌↔◌, ◌⊎◌, inl, inr, Option-cases, refl, Option, none, some, List, [], ◌∷◌, String, arith,
}
use belajar_backend_go_v.Services.{GoError}
use belajar_backend_go_v.Process.{
  Run, Exit, next, stop, ◌>>◌, call, panic_if, new_consumer_group, consume_topics, close_group,
}
use belajar_backend_go_v.Elastic.{ElasticClient, init_es}
use belajar_backend_go_v.Worker.Consumer.{LoopEnd, consume_loop}
use belajar_backend_go_v.Worker.Main.{
  WorkerLibraries, worker_brokers, es_address, group_id, rounds_before, rounds_behind, shut_down,
  consume_until, worker_main,
}

-- `main` returns, and the process ends with status 0.
abbrev pub EndsWell : Run (Unit {0}) → Type 0
EndsWell m = m.1 ≡ next tt

abbrev stopped_by : GoError → Run (Unit {0})
stopped_by e = ([], stop (Exit.fatal e))

panic_if-EndsWell :
    (e : Option GoError) (k : Run (Unit {0}))
    → EndsWell (panic_if e >> k) ↔ ((e ≡ none) × EndsWell k)
panic_if-EndsWell none k = (λ h. (refl, h), λ h. h.1)
panic_if-EndsWell (some e) k = (λ h. absurd (ground (arith, h)), λ h. absurd (ground (arith, h)))

-- Every round ended with an error.
abbrev pub AllFailed : List (Option GoError) → Type 0
AllFailed [] = Unit
AllFailed (none ∷ es) = ⊥
AllFailed (some e ∷ es) = AllFailed es

consume_loop-before :
    (es : List (Option GoError))
    → (consume_loop (rounds_before es) ≡ LoopEnd.running) ↔ AllFailed es
unfolding consume_loop
consume_loop-before [] = (λ _. tt, λ _. refl)
consume_loop-before (none ∷ es) = (λ h. absurd (ground (arith, h)), λ h. absurd h)
consume_loop-before (some e ∷ es) = consume_loop-before es

-- The first round behind `cancel` fails.
abbrev pub FailsFirst : List (Option GoError) → Type 0
FailsFirst es = (e : GoError) × (rest : List (Option GoError)) × (es ≡ some e ∷ rest)

consume_loop-behind :
    (es : List (Option GoError))
    → (consume_loop (rounds_behind es) ≡ LoopEnd.returned) ↔ FailsFirst es
unfolding consume_loop
consume_loop-behind [] = (λ h. absurd (ground (arith, h)), λ h. absurd (ground (arith, h.2)))
consume_loop-behind (none ∷ es) =
    (λ h. absurd (ground (arith, h)), λ h. absurd (ground (arith, h.2)))
consume_loop-behind (some e ∷ es) = (λ _. (e, es, refl), λ _. refl)

init_es-EndsWell :
    (C : ElasticClient) (address : String) (k : Run (Unit {0}))
    → EndsWell (init_es C address >> k)
      ↔ ((C.client_error address ≡ none) × (C.info_error ≡ none) × EndsWell k)
unfolding init_es
init_es-EndsWell C address k = elim (Option-cases (C.client_error address)) [
  | inr (e, failed) ↦ (
    λ h.
        absurd (let no : EndsWell (stopped_by e) = rw (failed, init_es) at h in ground (arith, no)),
    λ (made, _, _). absurd (ground (arith, failed, made)),
  )
  | inl made ↦ elim (Option-cases C.info_error) [
    | inr (e, failed) ↦ (
      λ h. absurd (
          let no : EndsWell (stopped_by e) = rw (made, failed, init_es) at h in ground (arith, no)),
      λ (_, answered, _). absurd (ground (arith, failed, answered)),
    )
    | inl answered ↦ (
      λ h. (made, answered, rw (made, answered, init_es) at h),
      λ (_, _, well). rw (made, answered, init_es) well,
    )
  ]
]

-- The three ways in which the goroutine stands.
LoopEnd-cases :
    (l : LoopEnd) → (l ≡ LoopEnd.panicked) ⊎ (l ≡ LoopEnd.returned) ⊎ (l ≡ LoopEnd.running)
LoopEnd-cases LoopEnd.panicked = inl refl
LoopEnd-cases LoopEnd.returned = inr (inl refl)
LoopEnd-cases LoopEnd.running = inr (inr refl)

module _ (L : WorkerLibraries) where
  close_EndsWell : EndsWell (call close_group >> panic_if L.close_error) ↔ (L.close_error ≡ none)
  close_EndsWell = elim (Option-cases L.close_error) [
    | inl fine ↦ (λ _. fine, λ _. rw fine refl)
    | inr (e, failed) ↦ rw failed (λ h. absurd (ground (arith, h)), λ h. absurd (ground (arith, h)))
  ]

  shut_down-EndsWell :
      (es : List (Option GoError))
      → EndsWell (shut_down L es) ↔ (FailsFirst es × (L.close_error ≡ none))
  unfolding shut_down
  shut_down-EndsWell es = elim (LoopEnd-cases (consume_loop (rounds_behind es))) [
    | inl panics ↦ (
      λ h. absurd (let no : EndsWell ([], stop _) = rw panics at h in ground (arith, no)),
      λ (fails, _). absurd (ground (arith, panics, (consume_loop-behind es).1 fails)),
    )
    | inr (inl returns) ↦ (
      λ h. ((consume_loop-behind es).0 returns, close_EndsWell.0 (rw returns at h)),
      λ (_, closed). rw (returns, shut_down) (close_EndsWell.1 closed),
    )
    | inr (inr runs) ↦ (
      λ h. absurd (let no : EndsWell ([], stop _) = rw runs at h in ground (arith, no)),
      λ (fails, _). absurd (ground (arith, runs, (consume_loop-behind es).1 fails)),
    )
  ]

  -- A signal came, and the first round behind it fails.
  abbrev pub StoppedBy : Option (List (Option GoError)) → Type 0
  StoppedBy none = ⊥
  StoppedBy (some behind) = FailsFirst behind × (L.close_error ≡ none)

  on_signal-EndsWell :
      (signal : Option (List (Option GoError)))
      → EndsWell (elim signal [ none ↦ ([], stop Exit.running) | some behind ↦ shut_down L behind ])
        ↔ StoppedBy signal
  on_signal-EndsWell none = (λ h. absurd (ground (arith, h)), λ h. absurd h)
  on_signal-EndsWell (some behind) = shut_down-EndsWell behind

  consume_until-EndsWell :
      (es : List (Option GoError)) (signal : Option (List (Option GoError)))
      → EndsWell (consume_until L es signal) ↔ (AllFailed es × StoppedBy signal)
  unfolding consume_until
  consume_until-EndsWell es signal = elim (LoopEnd-cases (consume_loop (rounds_before es))) [
    | inl panics ↦ (
      λ h.
          absurd (
            let no : EndsWell ([], stop _) = rw (panics, consume_until) at h in ground (arith, no)),
      λ (failed, _). absurd (ground (arith, panics, (consume_loop-before es).1 failed)),
    )
    | inr (inl returns) ↦ (
      λ h.
          absurd (
            let no : EndsWell ([], stop _) = rw (returns, consume_until) at h in
            ground (arith, no)),
      λ (failed, _). absurd (ground (arith, returns, (consume_loop-before es).1 failed)),
    )
    | inr (inr runs) ↦ (
      λ h. (
        (consume_loop-before es).0 runs,
        (on_signal-EndsWell signal).0 (rw (runs, consume_until) at h),
      ),
      λ (_, stopped). rw (runs, consume_until) ((on_signal-EndsWell signal).1 stopped),
    )
  ]

  -- The answers to the steps of the set-up.
  abbrev pub WorkerSetUp : Type 0
  WorkerSetUp =
      (L.elastic.client_error (es_address L.getenv) ≡ none)
      × (L.elastic.info_error ≡ none)
      × (L.group_error (worker_brokers L.getenv) group_id ≡ none)

  -- The worker ends without a crash exactly where its set-up went well, every round of `Consume`
  -- before the signal failed, the signal came, the first round behind it failed too, and the client
  -- could be closed.
  pub worker_main-EndsWell :
      (es : List (Option GoError)) (signal : Option (List (Option GoError)))
      → EndsWell (worker_main L es signal) ↔ (WorkerSetUp × AllFailed es × StoppedBy signal)
  unfolding worker_main init_es
  worker_main-EndsWell es signal =
      let consuming = consume_until L es signal in
      let grouped =
        panic_if (L.group_error (worker_brokers L.getenv) group_id)
        >> (call (consume_topics ("checkout-events" ∷ "product-events" ∷ [])) >> consuming) in
      let first =
        init_es-EndsWell L.elastic (es_address L.getenv)
          (call (new_consumer_group (worker_brokers L.getenv) group_id) >> grouped) in
      let second =
        panic_if-EndsWell (L.group_error (worker_brokers L.getenv) group_id)
          (call (consume_topics ("checkout-events" ∷ "product-events" ∷ [])) >> consuming) in
      let third = consume_until-EndsWell es signal in
      (
        λ h.
            let (made, answered, rest) = first.0 h in
            let (joined, ran) = second.0 rest in
            let (failed, stopped) = third.0 ran in ((made, answered, joined), failed, stopped),
        λ ((made, answered, joined), failed, stopped).
            first.1 (made, answered, second.1 (joined, third.1 (failed, stopped))),
      )
