-- ===== src/Server/Fetch.antt =====
-- The fetch threads of lib/snmpy/server.py: the lock, and updates that fail.
use snmpy.Shared.{
  All, Exc, List, Result, Result-cases, [], false, inl, inr, raise, refl, ◌∷◌, ◌≡◌, Bool, true, ok,
}
use snmpy.Agentx.NetSnmp.{NetSnmp}
use snmpy.Server.{
  Content, Period, Plugin, Server, commit_data, commit_retained, fetch_loop, fetch_once,
  finally_release, on_agent, start_fetch, table_module, value_module, after_pause, pause,
}

module _ (n : NetSnmp) where
  commit_data-locked :
      (c : Content) (s : Server n) → s.locked ≡ false → (commit_data n c s).1.locked ≡ false
  unfolding commit_data on_agent finally_release
  commit_data-locked (value_module m) s h = h
  commit_data-locked (table_module t) s h = refl

  fetch_once-locked :
      (update : Content → Result (Unit {0}) × Content) (c : Content) (s : Server n)
      → s.locked ≡ false
      → (fetch_once n update (c, s)).1.locked ≡ false
  unfolding fetch_once
  fetch_once-locked update c s h = elim (Result-cases (update c).0) [
    | inl (u, e) ↦ rw (e, fetch_once) (commit_data-locked (update c).1 s h)
    | inr (x, e) ↦ rw (e, fetch_once) h
  ]

  after_pause-all :
      (P : Server n → Type 0) (r : Result Bool) (st : Content × Server n)
      (rest : Result (Unit {0}) × Content × Server n)
      → P st.1
      → P rest.2
      → P (after_pause n r st rest).2
  unfolding after_pause
  after_pause-all P (raise e) st rest here later = here
  after_pause-all P (ok false) st rest here later = here
  after_pause-all P (ok true) st rest here later = later

  fetch_loop-locked :
      (period : Period) (updates : List (Content → Result (Unit {0}) × Content)) (c : Content)
      (s : Server n)
      → s.locked ≡ false
      → (fetch_loop n period updates (c, s)).2.locked ≡ false
  unfolding fetch_loop
  fetch_loop-locked period [] c s h = h
  fetch_loop-locked period (u ∷ us) c s h =
      after_pause-all (λ (s : Server n). s.locked ≡ false) (pause period) _ _
        (fetch_once-locked u c s h)
        (fetch_loop-locked period us (fetch_once n u (c, s)).0 (fetch_once n u (c, s)).1
          (fetch_once-locked u c s h))

  commit_retained-locked :
      (save : Bool) (c : Content) (s : Server n)
      → s.locked ≡ false
      → (commit_retained n save c s).1.locked ≡ false
  unfolding commit_retained
  commit_retained-locked false c s h = h
  commit_retained-locked true c s h = commit_data-locked c s h

  -- Whatever the updates and the commits of a plugin's thread raise, the thread does not keep the
  -- lock: it is free after the thread if it was free before.
  pub start_fetch-locked :
      (p : Plugin) (updates : List (Content → Result (Unit {0}) × Content)) (s : Server n)
      → s.locked ≡ false
      → (start_fetch n p updates s).2.locked ≡ false
  unfolding start_fetch
  start_fetch-locked p updates s h = elim (Result-cases (commit_retained n p.save p.content s).0) [
    | inl (u, e) ↦
        rw (e, start_fetch)
          (fetch_loop-locked p.period updates p.content (commit_retained n p.save p.content s).1
            (commit_retained-locked p.save p.content s h))
    | inr (x, e) ↦ rw (e, start_fetch) (commit_retained-locked p.save p.content s h)
  ]

  abbrev Fails : (Content → Result (Unit {0}) × Content) → Type 0
  Fails update = (c : Content) → (e : Exc) × ((update c).0 ≡ raise e)

  -- As long as the updates of a plugin fail, the agent serves what it served before.
  pub fetch_loop_failing :
      (period : Period) (updates : List (Content → Result (Unit {0}) × Content)) (c : Content)
      (s : Server n)
      → All Fails updates
      → (fetch_loop n period updates (c, s)).2 ≡ s
  unfolding fetch_loop fetch_once
  fetch_loop_failing period [] c s h = refl
  fetch_loop_failing period (u ∷ us) c s (f, h) =
      let (e, fails) = f c in
      after_pause-all (λ (s' : Server n). s' ≡ s) (pause period) _ _ (rw (fails, fetch_once) refl)
        (rw (fails, fetch_once) (fetch_loop_failing period us (u c).1 s h))
