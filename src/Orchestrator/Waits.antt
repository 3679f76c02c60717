-- ===== src/Orchestrator/Waits.antt =====
-- packages/core/src/company/orchestrator.ts: what runs while a call or a promise waits. Other calls
-- and promises run at the beginning of each wait, with waits of their own, to a depth; each runs to
-- its end before the wait that it fell into ends.
use agent_town.Prelude.{ℕ, zero, suc, List, [], ◌∷◌, map}
use agent_town.Contract.Agent.{AgentEvent}
use agent_town.Exec.{Exec}
use agent_town.Storage.Transaction.{Store}
use agent_town.Orchestrator.{CompanyOrchestrator, Dispatcher, Sessions}
use agent_town.Orchestrator.Machine.{Step, steps}
use agent_town.Orchestrator.Kept.{
  IsKept, IsTaskFree, AllTaskFree, WritesNoTask, Keeps, AllKeep, Respects,
}
use agent_town.Orchestrator.Shared.{Keeps-free}
use agent_town.Orchestrator.Steps.{steps_keep}

-- A wait at the beginning of which other code runs.
abbrev pub after : {A : Type 0} → (Dispatcher → Dispatcher) → Exec Dispatcher A → Exec Dispatcher A
after others m d = m (others d)

abbrev pub interleave : (Dispatcher → Dispatcher) → Sessions → Sessions
interleave others x = record {
  start_all = λ company scenarios. after others (x.start_all company scenarios);
  stop_all = after others x.stop_all;
  send = λ employee message signal. map (after others) (x.send employee message signal);
  get = x.get;
  resume_one = λ employee checkpoint signal. after others (x.resume_one employee checkpoint signal);
  rebuild_one = λ employee handoff signal. after others (x.rebuild_one employee handoff signal);
}

-- The waits at a depth: `schedule` says which steps run at a wait, from the state that it finds.
unfoldable pub interleaved :
    CompanyOrchestrator → Sessions → ℕ → (ℕ → Dispatcher → List Step) → ℕ → Sessions
interleaved o base fuel schedule zero = base
interleaved o base fuel schedule (suc n) =
    let inner = interleaved o base fuel schedule n in
    interleave (λ d. steps o inner fuel (schedule n d) d) base

module _ (o : CompanyOrchestrator) {P : Store → Type 0} (k : IsKept o P) where
  after-Keeps :
      {A : Type 0} (m : Exec Dispatcher A) (others : Dispatcher → Dispatcher)
      → ((d : Dispatcher) → P d.store → P (others d).store)
      → IsTaskFree m
      → Keeps P (after others m)
  after-Keeps m others h f = record {
    run = λ d p. (Keeps-free o k {m = m} f).run (others d) (h d p);
  }

  after_all-Keep :
      (others : Dispatcher → Dispatcher)
      → ((d : Dispatcher) → P d.store → P (others d).store)
      → (ms : List (Exec Dispatcher AgentEvent)) → AllTaskFree ms
      → AllKeep P (map (after others) ms)
  after_all-Keep others h [] f = tt
  after_all-Keep others h (m ∷ ms) f = (after-Keeps m others h f.0, after_all-Keep others h ms f.1)

  interleave-Respects :
      (others : Dispatcher → Dispatcher) (x : Sessions)
      → ((d : Dispatcher) → P d.store → P (others d).store)
      → WritesNoTask x
      → Respects P (interleave others x)
  interleave-Respects others x h w = record {
    start_all = λ company scenarios.
        after-Keeps (x.start_all company scenarios) others h (w.start_all company scenarios);
    stop_all = after-Keeps x.stop_all others h w.stop_all;
    send = λ employee message signal.
        after_all-Keep others h (x.send employee message signal) (w.send employee message signal);
    resume_one = λ employee checkpoint signal.
        after-Keeps (x.resume_one employee checkpoint signal) others h
          (w.resume_one employee checkpoint signal);
    rebuild_one = λ employee handoff signal.
        after-Keeps (x.rebuild_one employee handoff signal) others h
          (w.rebuild_one employee handoff signal);
  }

  all_free-Keep : (ms : List (Exec Dispatcher AgentEvent)) → AllTaskFree ms → AllKeep P ms
  all_free-Keep [] f = tt
  all_free-Keep (m ∷ ms) f = (Keeps-free o k {m = m} f.0, all_free-Keep ms f.1)

  base-Respects : (x : Sessions) → WritesNoTask x → Respects P x
  base-Respects x w = record {
    start_all = λ company scenarios.
        Keeps-free o k {m = x.start_all company scenarios} (w.start_all company scenarios);
    stop_all = Keeps-free o k {m = x.stop_all} w.stop_all;
    send = λ employee message signal.
        all_free-Keep (x.send employee message signal) (w.send employee message signal);
    resume_one = λ employee checkpoint signal.
        Keeps-free o k {m = x.resume_one employee checkpoint signal}
          (w.resume_one employee checkpoint signal);
    rebuild_one = λ employee handoff signal.
        Keeps-free o k {m = x.rebuild_one employee handoff signal}
          (w.rebuild_one employee handoff signal);
  }

  -- What runs at the waits keeps P, since its steps do.
  pub interleaved-Respects :
      (base : Sessions)
      → WritesNoTask base
      → (fuel : ℕ) (schedule : ℕ → Dispatcher → List Step) (depth : ℕ)
      → Respects P (interleaved o base fuel schedule depth)
  unfolding interleaved
  interleaved-Respects base w fuel schedule zero = base-Respects base w
  interleaved-Respects base w fuel schedule (suc n) =
      let inner = interleaved o base fuel schedule n in
      let respects = interleaved-Respects base w fuel schedule n in
      interleave-Respects (λ d. steps o inner fuel (schedule n d) d) base
        (λ d p. steps_keep o k inner respects fuel (schedule n d) d p) w
